-- ===== src/Drivers.antt =====
-- components/iot_drivers. A driver's mutex only orders the calls of several tasks, and its calls are
-- not modelled; log output is not either. What ESP-IDF returns is an argument where it matters.
pub mod Adc
pub mod Exti
pub mod Gpio
pub mod I2c
pub mod Pwm
pub mod Spi
pub mod Startup
pub mod Timer
pub mod Uart
pub mod Wdt
