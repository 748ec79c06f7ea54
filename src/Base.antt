-- ===== src/Base.antt =====
-- src/hp_io_t.cpp: `struct hp_io_t`, a connection or a listening socket, over the epoll loop, the
-- buffered reader and the write queue; the build has HAVE_SYS_EPOLL_H and HAVE_SYS_UIO_H. The
-- client's callbacks and the kernel are parameters. A loop that ran out of fuel is `none`.
pub mod Data
pub mod Conn
pub mod Accept
pub mod Api
pub mod Register
pub mod Drain
pub mod Share
pub mod Release
pub mod Failing
pub mod Returns
pub mod Events
pub mod Closing
pub mod Lost
pub mod Refuse
pub mod Pending
pub mod Entry
mod Tests
