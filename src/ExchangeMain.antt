-- ===== src/ExchangeMain.antt =====
-- The arguments of src/exchange_main.cpp. std::stoul is a parameter; the texts that are printed, the
-- log directory, the signal handlers and the wait for a signal are left out.
pub mod Settings
use lob_engine.Prelude.{
  ℕ, Option, none, some, List, [], ◌∷◌, ◌||◌, if◌then◌else◌, Bytes, codes, same_bytes,
}
use lob_engine.Gateway.Service.{GatewayConfig}

-- What `main` does after its arguments: it runs the gateway, or returns 0 behind the usage, or
-- returns 1, or ends by the exception of std::stoul.
pub data Command : Type 0 where
  run : (cfg : GatewayConfig) → Command
  help : Command
  refused : Command
  thrown : Command

abbrev default_config : GatewayConfig
default_config = record {
  pull_endpoint = codes "tcp://*:5555";
  pub_endpoint = codes "tcp://*:5556";
  replay_log_path = codes "logs/replay.ndjson";
  inbound_bits = 16;
  outbound_bits = 16;
  replay_bits = 16;
  snapshot_interval_ms = 100;
}

-- An argument that takes no value, or whose value is missing.
abbrev pub single : Bytes → Command
single arg =
    if same_bytes arg (codes "--help") || same_bytes arg (codes "-h")
    then Command.help
    else Command.refused

module _ (stoul : Bytes → Option ℕ) where
  -- The loop over the arguments.
  unfoldable pub parse_options : List Bytes → GatewayConfig → Command
  parse_options [] cfg = Command.run cfg
  parse_options (arg ∷ []) cfg = single arg
  parse_options (arg ∷ value ∷ rest) cfg =
      let with_pull = parse_options rest (record cfg { pull_endpoint = value }) in
      let with_pub = parse_options rest (record cfg { pub_endpoint = value }) in
      let with_log = parse_options rest (record cfg { replay_log_path = value }) in
      let with_interval = λ (n : ℕ). parse_options rest (record cfg { snapshot_interval_ms = n }) in
      if same_bytes arg (codes "--pull")
      then with_pull
      else if same_bytes arg (codes "--pub")
      then with_pub
      else if same_bytes arg (codes "--snapshot-interval")
      then elim (stoul value) [ none ↦ Command.thrown | some n ↦ with_interval n ]
      else if same_bytes arg (codes "--log-path")
      then with_log
      else single arg

  unfoldable pub parse_command_line : List Bytes → Command
  unfolding parse_options
  parse_command_line args = parse_options args default_config
