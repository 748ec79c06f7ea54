-- ===== src/Io.antt =====
-- src/hp_io.c: the queue of bytes to write to a descriptor, and the buffered reader.
pub mod Os
pub mod Vec
pub mod Read
pub mod Write
