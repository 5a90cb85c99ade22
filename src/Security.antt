-- ===== src/Security.antt =====
-- Keys and encryption (app/integrations/keys.py, app/security/envelope.py and
-- app/security/encrypted_storage.py).
pub mod Primitives
pub mod Keys
pub mod Envelope
pub mod Storage
pub mod RoundTrip
