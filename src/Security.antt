-- ===== src/Security.antt =====
-- service/security.py, by the parts that keep state or a format of their own.
pub mod Limiter
pub mod Cipher
pub mod MasterKey
pub mod Rotation
