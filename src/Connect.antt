-- ===== src/Connect.antt =====
-- internal/connect/connect.go: the CONNECT line and the host that it names.
pub mod Address
pub mod HostPort
pub mod Parse
