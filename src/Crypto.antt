-- ===== src/Crypto.antt =====
-- Keys and their encryption: src/crypto and src/key, over OpenSSL and base64 as parameters.
pub mod OpenSsl
pub mod Rsa
pub mod Key
pub mod RoundTrip
pub mod Delivery
pub mod Files
pub mod Exceptions
