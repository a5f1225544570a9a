-- ===== src/Auth.antt =====
-- internal/auth: device identity by certificate fingerprint, and the whitelist of devices.
pub mod Token
pub mod Store
