-- ===== src/Controllers.antt =====
-- lact-daemon/src/server/gpu_controller.rs and its directory: the controllers of the vendors' GPUs.
pub mod Amd
pub mod Discovery
pub mod Intel
pub mod Nvidia
pub mod Uevent
