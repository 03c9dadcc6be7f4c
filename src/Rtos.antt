-- ===== src/Rtos.antt =====
-- components/iot_rtos.
pub mod Event
pub mod Tasks
pub mod Queue
pub mod Loops
pub mod Start
pub mod Commands
pub mod EventWait
pub mod Objects
pub mod Sync
