-- ===== src/Registration.antt =====
-- internal/registration: the store of user registrations.
pub mod Requests
pub mod Store
pub mod Exchange
pub mod Sample
pub mod Http
