-- ===== src/Lib.antt =====
-- The firmware of the ESP32 IoT products: the use cases that a device runs on command, the code
-- that brings a command to them, and the machines that they keep.
--
-- A message reaches the device over MQTT or Bluetooth. components/iot_mqtt puts its bytes into a
-- command of 256 bytes; components/iot_services has components/iot_security validate it and hands it
-- to the dispatcher of components/iot_usecases, to components/iot_provision or to components/iot_ota.
-- The dispatcher looks the name up in a table of 78 use cases and calls a handler, which reads its
-- input from the JSON text, changes one static state and writes a reply. The profile of a product
-- (components/iot_profiles) stands before both: its sensor hook, which the sensor task calls, reads
-- the peripherals of components/iot_drivers and enters the same states through the
-- iot_uc_*_on_sample functions, and its command hook, which the command task calls, treats a few
-- words of its own and hands the rest to components/iot_services. The tasks of components/iot_rtos
-- pass samples on through two queues to the pump that publishes them, and commands through a third.
-- main/main.c brings everything up.
--
-- Which file models which part (paths from the repository's root):
--   Prelude                 shared names, lists, integers and 32-bit words
--   CText                   the C strings and the functions of string.h and stdio.h that are used
--   Core.Err, Core.Types    components/iot_core/include/iot_err.h, iot_types.h
--   Core.Config, Core.Log   components/iot_core/src/iot_config.c, iot_log.c
--   Core.Nvs                iot_config.c of the ESP build: the settings in NVS
--   Core.Log.Esp            iot_log.c of the ESP build: the levels handed to ESP-IDF
--   Core.Float              the type float: a parameter, with thousandths as an instance for tests
--   Board                   components/iot_hal/src/iot_board.c
--   Drivers.Gpio, .Pwm, .Adc, .Exti, .Uart, .I2c, .Spi, .Timer, .Wdt
--                           components/iot_drivers/src/iot_gpio.c and the files named alike
--   Drivers.Startup         components/iot_drivers/src/iot_drivers.c
--   Drivers.Adc.Oneshot, .Timer.Gptimer    the readings of iot_adc.c and the timer of iot_timer.c in
--                           the ESP build
--   Drivers.Gpio.Pins       the pins of iot_gpio.c as a bank, each on its own
--   Rtos.Event, .EventWait, .Queue         event groups (POSIX host, and the wait of the Windows
--                           host) and queues (Windows host and ESP build) of
--                           components/iot_rtos/src/iot_rtos.c
--   Rtos.Objects            creating and deleting mutexes, semaphores, tasks, queues, event groups and
--                           timers: iot_rtos.c; .Ledger: what a client of it holds
--   Rtos.Sync               mutexes, semaphores and the POSIX clock of iot_rtos.c
--   Rtos.Tasks, .Start      components/iot_rtos/src/iot_tasks.c: the shared context and its start
--   Rtos.Loops, .Commands   the task loops of iot_tasks.c, and the pump of iot_mqtt.c; .Losses,
--                           .Shutdown, .Drain: what they lose, when they stop, what the pump hands on
--   Mqtt, Mqtt.Client       components/iot_mqtt/src/iot_mqtt.c: topics and data, the connection
--   Ble                     components/iot_ble/src/iot_ble.c
--   Security, Diag, Provision              the components of these names
--   Ota, Ota.Download       components/iot_ota/src/iot_ota.c: the host build, the ESP build's task
--   UseCase.Types, .Json, .Catalog, .Run   components/iot_usecases/src/iot_uc.c and its
--                           header; the files of the next six lines stand beside it
--   UseCase.Platform        iot_uc_platform.c
--   UseCase.Energy          iot_uc_energy.c
--   UseCase.Industrial, .Predictive        iot_uc_industrial.c
--   UseCase.Water           iot_uc_water.c
--   UseCase.Charger, .Automotive           iot_uc_ev_auto.c
--   UseCase.Tracker, .Agri, .ColdChain, .Robot   iot_uc_field.c
--   Wifi, Wifi.Station      components/iot_wifi/src/iot_wifi.c: the host build with the event handler,
--                           and the calls of the ESP build
--   Services                components/iot_services/src/iot_services.c
--   Profiles                components/iot_profiles/src: the sensor hooks; .Commands: the command
--                           hooks; .Startup: the initialisers
--   Main, Main.Bootstrap    main/main.c, and the storage that the ESP build opens first
--   Tests                   concrete states and commands
--
-- How state and operations correspond. A file's static variables are a record, and a handler
-- iot_uc_x(in, out) is a function x from the input, what *out held, and the record to the code
-- returned, what *out holds afterwards, and the new record. Handlers that drive a pin or the PWM
-- output have the driver's state in their record. UseCase.Run.World joins all records, and `run`,
-- `run_json` and `dispatch_command` are iot_uc_run, iot_uc_run_json and iot_uc_dispatch_command. A
-- pointer that may be NULL is an Option. A char array is the text up to its NUL; where a payload has
-- no NUL the readers would run past its end, and the model answers `none`. uint32_t arithmetic is
-- written out modulo 2 ^ 32. What runs together is a list of steps in any order. A turn of the loop of
-- the sensor, processing or command task is two steps, the test of the flag that asks the tasks to
-- stop and what follows the wait that comes next, so that the flag may be set in between; a turn of
-- the pump is one.
--
-- The build is that for a host (no ESP_PLATFORM), but for what only the ESP build has: the handlers
-- of MQTT, Wi-Fi and Bluetooth events, the interrupt handler, NVS, and the paths through the
-- drivers where the answer of ESP-IDF matters. What a call of ESP-IDF, NimBLE or of the kernel
-- returns is an argument (a row of calls is the list of the codes they return, empty on the host),
-- the constants ESP_ERR_… are the record Core.Err.EspCodes, and the queue of FreeRTOS and the
-- semaphores of Windows are the interfaces Rtos.Queue.FreeRtos.QueueKernel and
-- Rtos.Queue.Semaphore, whose laws state the documented behaviour of a call that does not wait; the
-- answers of the semaphores under Rtos.Sync are left open. Both queues fill the interface
-- Rtos.Queue.Bounded, which the task loops take as a parameter. In Rtos.Objects the system under a
-- build is a state of handles, and `grants` tells which requests it grants; the kinds of objects
-- fill the interface Rtos.Objects.Port. The NVS of ESP-IDF is the interface Core.Nvs.Nvs: a write
-- and a commit may fail, and only what has been committed outlives a restart. The event group of
-- the tasks is one object: a component that holds it has it in its record, and Main hands it on.
--
-- Bounds. Numbers are printed with fuel for 20 digits, enough for every 64-bit number; the polling
-- wait of Rtos.EventWait has fuel for its rounds of 5 ms, of which timeout / 5 + 2 are enough; the
-- download loop of Ota.Download has fuel for as many rounds as the server takes; all other
-- recursion is on a text or a list. Nothing is assumed of float but what a theorem names.
--
-- Not modelled: TLS, the network stacks and the drivers of ESP-IDF (external code), the printing of
-- the log, notifying a task and the delays of the ESP and Windows builds (each a call of the
-- kernel), the queue and the timers of the POSIX host, which store nothing, and the diagnostics and
-- watchdog tasks (they keep no state).
pub mod Ble
pub mod Board
pub mod Main
pub mod Profiles
pub mod Prelude
pub mod CText
pub mod Core
pub mod Drivers
pub mod Rtos
pub mod Security
pub mod Services
pub mod Ota
pub mod Mqtt
pub mod Diag
pub mod Provision
pub mod UseCase
pub mod Wifi
pub mod Tests
