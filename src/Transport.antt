-- ===== src/Transport.antt =====
-- The message sources of the client: web/src/ws-client.ts and web/src/demo-transport.ts.
pub mod Types
pub mod WsClient
pub mod Demo
pub mod Pausing
pub mod Arrivals
pub mod Pauses
pub mod DemoPauses
pub mod Backoff
pub mod Faults
