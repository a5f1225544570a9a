-- ===== src/Tests.antt =====
-- Tests, and the theorems at concrete inputs.
mod Data
mod Serving
mod Identity
mod Hello
mod Formats
mod Enrolment
mod Limits
mod Access
mod Tunnels
mod Registry
mod Concurrency
mod Authority
mod Startup
mod Rig
mod Session
mod EndToEnd
