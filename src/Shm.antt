-- ===== src/Shm.antt =====
-- python_detector/ipc/shm_client.py.
pub mod Client
pub mod Packing
pub mod Publish
pub mod Release
pub mod Written
pub mod Sizes
pub mod Reading
pub mod Published
pub mod Bounds
pub mod Waiting
pub mod Frames
pub mod Reader
pub mod Jobs
pub mod Freed
pub mod Within
pub mod Described
pub mod Bundles
pub mod Count
pub mod Checked
pub mod Pending
