-- ===== src/Quality.antt =====
-- python_detector/pipeline/quality_gate.py.
pub mod Report
pub mod Bundle
pub mod Sequence
pub mod Frame
pub mod Robot
pub mod Gate
pub mod Check
pub mod Sound
pub mod Passed
