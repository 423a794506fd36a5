-- ===== src/Client.antt =====
-- internal/client: what a client of the gateway asks for and checks.
pub mod Exchange
pub mod Registration
