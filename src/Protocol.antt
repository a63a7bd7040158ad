-- ===== src/Protocol.antt =====
-- python_detector/ipc/shm_protocol.py.
pub mod Codes
pub mod Bytes
pub mod Layout
pub mod Texts
