-- ===== src/Tests/Tasks.antt =====
-- The tasks, their queues and their start, on a node that runs the agriculture profile.
use mathlib.Core.List.{Sublist}
use esp32_iot_products.Tests.{start_world}
use esp32_iot_products.Mqtt.{command_of_data}
use esp32_iot_products.Profiles.{profile_agri, passthrough_proc, Node, sensor_hook}
use esp32_iot_products.Tests.Fifo.{counter_wait, counter_wait-none, counter_wait-some, list_kernel}
use esp32_iot_products.UseCase.Run.{World}
use esp32_iot_products.UseCase.Types.{UcId, zero_out}
use esp32_iot_products.UseCase.Run.Names.{command_text}
use esp32_iot_products.Core.Err.{EspCodes}
use esp32_iot_products.Core.Types.{CommandMsg, TelemetryMsg, zero_command}
use esp32_iot_products.Core.Float.Milli.{Milli, milli_float}
use esp32_iot_products.Prelude.Int.{pos}
use esp32_iot_products.Drivers.Uart.{UartCfg}
use esp32_iot_products.Profiles.Commands.EndToEnd.{device_hook}
use esp32_iot_products.Rtos.Loops.{
  SensorHook, ProcHook, Line, blank_message, process, Act, senses, sensor_looks, proc_looks,
  shuts_down, processes, pumps, acts,
}
use esp32_iot_products.Rtos.Commands.{
  Desk, DeskAct, arrives, looks, handles, asks_shutdown, desk_acts,
}
use esp32_iot_products.Rtos.Queue.{Semaphore, HostQueue}
use esp32_iot_products.Rtos.Queue.Bounded.{BoundedQueue, host_bounded}
use esp32_iot_products.Rtos.Queue.Fifo.{QueueSane}
use esp32_iot_products.Rtos.Loops.Shutdown.{acts-stopped}
use esp32_iot_products.Rtos.Loops.Pipeline.{LineSane, under_way}
use esp32_iot_products.Rtos.Commands.Order.{apply_all, desk_acts-served}
use esp32_iot_products.Prelude.{
  List, arith, ◌≡◌, [], some, none, map, ℕ, false, ◌++◌, Bool, refl, ◌∷◌, suc, true, Option, ◌<◌,
  ◌^◌, length, ◌≤◌, ◌+◌, ◌⊎◌,
}
use esp32_iot_products.Prelude.Words.{add32}
use esp32_iot_products.Rtos.Loops.Drain.{acts-drained, pump_steps, keeps_pumping}
use esp32_iot_products.Rtos.Loops.Losses.{held, lost, acts-lost}
use esp32_iot_products.Rtos.Queue.FreeRtos.{esp_bounded}

abbrev pub counter_of : (len : ℕ) → Semaphore ℕ len
counter_of len = record {
  value = λ n. n;
  wait = counter_wait;
  release = suc;
  wait-none = counter_wait-none;
  wait-some = counter_wait-some;
  value-release = λ n h. refl;
}

pub short16 : 16 < 2 ^ 32
short16 = ground arith

pub short8 : 8 < 2 ^ 32
short8 = ground arith

abbrev pub messages : BoundedQueue TelemetryMsg 16
messages = host_bounded 16 (counter_of 16) short16

abbrev pub commands : BoundedQueue CommandMsg 8
commands = host_bounded 8 (counter_of 8) short8

abbrev pub empty_of : {A : Type 0} → ℕ → A → HostQueue A ℕ
empty_of len a = record { space = len; items = 0; buf = λ i. a; head = 0; tail = 0; count = 0 }

pub empty_of-QueueSane :
    {A : Type 0} (len : ℕ) (a : A) → 0 < len → QueueSane len (counter_of len) (empty_of len a)
empty_of-QueueSane len a h = record {
  tail_in = h;
  head_at = ground arith;
  free = ground arith;
  used = refl;
}

abbrev pub esp_codes : EspCodes
esp_codes = record {
  no_mem = pos 0x101;
  invalid_arg = pos 0x102;
  invalid_state = pos 0x103;
  not_found = pos 0x105;
  not_supported = pos 0x106;
  timeout = pos 0x107;
  invalid_crc = pos 0x109;
}

abbrev pub port_cfg : UartCfg
port_cfg = record {
  port = 0;
  tx_pin = pos 0;
  rx_pin = pos 0;
  baud = pos 0;
  rs485_de_enable = false;
  de_pin = pos 0;
}

abbrev pub start_node : Node Milli
start_node = record {
  world = start_world;
  adc = record { init = true; sim_raw = pos 2048 };
  exti = record { sems = λ i. none; counts = λ i. 0; isr_svc = false };
  i2c = record { init = true };
  spi = record { init = true };
  ports = record { cfgs = λ i. port_cfg; ready = λ i. false };
  i2c_reply = none;
  spi_reply = none;
  uart_reply = none;
  uco = zero_out;
}

abbrev field_sensor : Option (SensorHook (Node Milli))
field_sensor = some (sensor_hook esp_codes profile_agri)

abbrev field_proc : Option ProcHook
field_proc = some passthrough_proc

abbrev idle_line : Bool → Line (Node Milli) (HostQueue TelemetryMsg ℕ) (HostQueue TelemetryMsg ℕ)
idle_line shutdown = record {
  shutdown = shutdown;
  seq = 0;
  sample_q = empty_of 16 (blank_message 0 0);
  telemetry_q = empty_of 16 (blank_message 0 0);
  pumping = true;
  sensing = false;
  processing = true;
  sensor = start_node;
}

abbrev turns : List Act
turns =
    sensor_looks
    ∷ senses 200
    ∷ sensor_looks
    ∷ shuts_down
    ∷ senses 400
    ∷ processes
    ∷ proc_looks
    ∷ processes
    ∷ pumps
    ∷ []

idle_line-LineSane : (off : Bool) → LineSane messages messages (idle_line off)
idle_line-LineSane off = record {
  samples_sane = empty_of-QueueSane 16 (blank_message 0 0) (ground arith);
  telemetry_sane = empty_of-QueueSane 16 (blank_message 0 0) (ground arith);
}

acts-lost_example :
    let (t, l') = acts messages messages field_sensor field_proc turns (idle_line false) in
    Sublist (t.published ++ under_way messages messages field_sensor field_proc l') (
      under_way messages messages field_sensor field_proc (idle_line false)
      ++ map (process field_proc) t.offered)
    × (held messages messages field_sensor field_proc (idle_line false) + length t.offered
        ≡ length t.published
          + held messages messages field_sensor field_proc l'
          + lost messages messages field_sensor field_proc turns (idle_line false))
acts-lost_example =
    acts-lost messages messages field_sensor field_proc turns (idle_line false)
      (idle_line-LineSane false)

acts-stopped_example :
    let (t, l') = acts messages messages field_sensor field_proc turns (idle_line true) in
    (length t.offered ≤ 0)
    × (length t.taken ≤ 1)
    × ((l'.seq ≡ 0) ⊎ ((false ≡ true) × (l'.seq ≡ add32 0 1)))
    × (l'.shutdown ≡ true)
acts-stopped_example =
    acts-stopped messages messages field_sensor field_proc turns (idle_line true) refl

-- The queue of the ESP build.
abbrev esp_messages : BoundedQueue TelemetryMsg 16
esp_messages = esp_bounded 16 (list_kernel 16)

-- One message waits for the pump.
abbrev closing_line : Line (Node Milli) (List TelemetryMsg) (List TelemetryMsg)
closing_line = record {
  shutdown = true;
  seq = 0;
  sample_q = [];
  telemetry_q = blank_message 1 200 ∷ [];
  pumping = true;
  sensing = false;
  processing = true;
  sensor = start_node;
}

turns-pumping : keeps_pumping turns ≡ true
unfolding keeps_pumping
turns-pumping = refl

turns-steps : 1 ≤ pump_steps turns
unfolding pump_steps
turns-steps = ground arith

closing_line-LineSane : LineSane esp_messages esp_messages closing_line
closing_line-LineSane = record { samples_sane = ground arith; telemetry_sane = ground arith }

acts-drained_example :
    (later : List TelemetryMsg) × ((acts esp_messages esp_messages field_sensor field_proc turns
        closing_line).0.published
      ≡ blank_message 1 200 ∷ later)
acts-drained_example =
    acts-drained esp_messages esp_messages field_sensor field_proc turns closing_line
      closing_line-LineSane refl turns-pumping turns-steps

-- The command `{"uc":"agri.pump_on"}` arrives.
abbrev pub field_desk : Desk (Option (World Milli)) (HostQueue CommandMsg ℕ)
field_desk = record {
  shutdown = false;
  waiting = false;
  command_q = empty_of 8 zero_command;
  device = some start_world;
}

abbrev pump_hook : Option (CommandMsg → Option (World Milli) → Option (World Milli))
pump_hook = some (device_hook profile_agri zero_out)

abbrev pump_cmd : CommandMsg
pump_cmd = command_of_data (some (command_text UcId.agri_pump_on (125 ∷ []))) 22

abbrev desk_turns : List DeskAct
desk_turns =
    arrives pump_cmd
    ∷ arrives pump_cmd
    ∷ looks
    ∷ handles
    ∷ looks
    ∷ asks_shutdown
    ∷ handles
    ∷ looks
    ∷ handles
    ∷ []

desk_acts-served_example :
    let (t, d') = desk_acts commands pump_hook desk_turns field_desk in
    (t.handled ++ commands.items d'.command_q ≡ commands.items field_desk.command_q ++ t.accepted)
    × (d'.device ≡ apply_all pump_hook t.handled field_desk.device)
    × commands.IsSane d'.command_q
desk_acts-served_example =
    desk_acts-served commands pump_hook desk_turns field_desk
      (empty_of-QueueSane 8 zero_command (ground arith))
