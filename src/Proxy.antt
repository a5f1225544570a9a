-- ===== src/Proxy.antt =====
-- internal/proxy: the CONNECT proxy that swaps the device's credential for the real token.
pub mod Handle
pub mod Prefix
pub mod Baseline
pub mod Usage
pub mod Capture
pub mod Chain
pub mod Serve
pub mod Tunnel
pub mod Session
pub mod OuterCert
pub mod Retry
pub mod Sink
