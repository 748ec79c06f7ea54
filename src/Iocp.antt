-- ===== src/Iocp.antt =====
-- src/hp_iocp.c: input and output over completion ports. The user's thread keeps the table of items; a
-- second thread polls their sockets; both send messages. The Win32 API and the client's callbacks are
-- parameters.
pub mod Search
pub mod Data
pub mod Items
pub mod Messages
pub mod Run
pub mod Poller
pub mod Order
pub mod Sync
pub mod Same
pub mod Protocol
pub mod Handling
pub mod Transfers
pub mod Reach
pub mod Own
mod Tests
