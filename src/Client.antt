-- ===== src/Client.antt =====
-- The console client of the document server, section3/problem1/client.py, together with the server
-- that it calls: a call of the stub is the handler's call on the server's state.
pub mod Console
pub mod Dispatch
mod Tests
