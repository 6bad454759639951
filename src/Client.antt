-- ===== src/Client.antt =====
-- client.py: values, security, and the client of one server.
pub mod Values
pub mod Security
pub mod Transport
pub mod Publish
pub mod Loop
pub mod Rows
pub mod Sweep
pub mod Schedule
pub mod Start
pub mod Session
pub mod Recovery
pub mod Connect
