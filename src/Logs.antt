-- ===== src/Logs.antt =====
-- The log buffer behind the control plane's log view, src/acabot/runtime/control/log_buffer.py.
pub mod Search
pub mod Buffer
pub mod Polling
pub mod Numbers
pub mod Clients
mod Tests
