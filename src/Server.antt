-- ===== src/Server.antt =====
-- src/server.c: the gateway that logs devices in, keeps them in a linked list, and passes
-- messages between the web pages (by a message queue) and the devices (by sockets).
pub mod Link
pub mod World
pub mod Handler
pub mod Login
pub mod Inspect
pub mod Startup
