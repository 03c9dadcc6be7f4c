-- ===== src/Security.antt =====
-- components/iot_security/src/iot_security.c, built for the host.
use esp32_iot_products.CText.{Text, codes, snprintf}
use esp32_iot_products.Core.Err.{Err, ok, invalid_arg, denied, overflow, protocol}
use esp32_iot_products.Core.Types.{device_id_len, json_small_len, Identity, CommandMsg}
use esp32_iot_products.Prelude.{
  none, get_or, not, [], ◌==◌, if◌then◌else◌, ltb, ℕ, Option, some, ◌&&◌,
}

-- `s_id`
abbrev pub Security : Type 0
Security = Identity

-- The value returned, and what `out`, of `out_len` bytes, then holds.
unfoldable pub default_device_id : Text → ℕ → Err × Text
default_device_id old out_len =
    if ltb out_len 18 then (invalid_arg, old) else (ok, snprintf out_len (codes "c3-hostsim000000"))

-- `profile` is the one that Kconfig selects.
pub security_init : ℕ → Security
security_init profile = record {
  device_id = (default_device_id [] device_id_len).1;
  fw_version = codes "1.0.0";
  profile = profile;
  cloud = 0;
  boot_count = 0;
}

-- `0xFF01` and `0xFF03`: the opcodes that need no JSON.
abbrev pub op_config : ℕ
op_config = 0xff01

abbrev pub op_raw : ℕ
op_raw = 0xff03

-- `cmd->payload[i]`
abbrev pub byte_at : ℕ → CommandMsg → ℕ
byte_at i cmd = get_or cmd.payload i 0

-- `'{'` and `'['`
abbrev pub brace : ℕ
brace = 123

abbrev pub bracket : ℕ
bracket = 91

unfoldable pub validate_command : Option CommandMsg → Err
validate_command none = invalid_arg
validate_command (some cmd) =
    if ltb json_small_len cmd.payload_len
    then overflow
    else (if cmd.payload_len == 0
        then denied
        else (if not (byte_at 0 cmd == brace)
              && not (byte_at 0 cmd == bracket)
              && not (cmd.opcode == op_config)
              && not (cmd.opcode == op_raw)
            then protocol
            else ok))
