-- ===== src/Transport.antt =====
-- src/transport: the limits on what is sent, and the delays between attempts to connect.
pub mod SendBudget
pub mod Reconnect
mod Tests
