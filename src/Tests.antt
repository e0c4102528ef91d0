-- ===== src/Tests.antt =====
-- Concrete inputs: a disk in memory, runs of the operations, and the theorems at these inputs.
pub mod Ram
pub mod Runs
pub mod Volumes
pub mod Writing
pub mod Boot
pub mod Parts
pub mod Tables
pub mod Devices
pub mod Changes
pub mod Kernel
pub mod Ide
