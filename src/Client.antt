-- ===== src/Client.antt =====
-- The root client: its buffers and acknowledgements.
pub mod Buffer
pub mod Delivery
pub mod Reading
pub mod Connection
pub mod Receiving
pub mod Health
