-- ===== src/Client.antt =====
-- src/binderd/client_impl.h, client_impl.cpp: a client of the server.
pub mod State
pub mod Calls
pub mod Incoming
pub mod Requests
pub mod Deaths
pub mod Commands
pub mod Cookies
pub mod Answers
pub mod Loop
