-- ===== src/Core.antt =====
-- components/iot_core: the error type, floats, the shared types, the configuration and the log level.
pub mod Err
pub mod Float
pub mod Types
pub mod Config
pub mod Log
pub mod Nvs
