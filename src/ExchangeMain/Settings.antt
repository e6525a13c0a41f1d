-- ===== src/ExchangeMain/Settings.antt =====
-- The arguments of src/exchange_main.cpp against the settings that they stand for.
use lob_engine.Prelude.{
  ℕ, ◌≡◌, refl, ◌∙◌, false, Option, some, List, [], ◌∷◌, Bytes, codes, same_bytes,
}
use lob_engine.Gateway.Service.{GatewayConfig}
use lob_engine.ExchangeMain.{Command, parse_options}

pub data Setting : Type 0 where
  pull : (endpoint : Bytes) → Setting
  publish : (endpoint : Bytes) → Setting
  interval : (text : Bytes) (ms : ℕ) → Setting
  log_path : (path : Bytes) → Setting

-- The arguments of a setting, in front of others.
abbrev pub written : Setting → List Bytes → List Bytes
written (Setting.pull e) rest = codes "--pull" ∷ e ∷ rest
written (Setting.publish e) rest = codes "--pub" ∷ e ∷ rest
written (Setting.interval text ms) rest = codes "--snapshot-interval" ∷ text ∷ rest
written (Setting.log_path p) rest = codes "--log-path" ∷ p ∷ rest

abbrev pub write_settings : List Setting → List Bytes → List Bytes
write_settings [] rest = rest
write_settings (s ∷ ss) rest = written s (write_settings ss rest)

abbrev pub set : Setting → GatewayConfig → GatewayConfig
set (Setting.pull e) cfg = record cfg { pull_endpoint = e }
set (Setting.publish e) cfg = record cfg { pub_endpoint = e }
set (Setting.interval text ms) cfg = record cfg { snapshot_interval_ms = ms }
set (Setting.log_path p) cfg = record cfg { replay_log_path = p }

abbrev pub set_all : List Setting → GatewayConfig → GatewayConfig
set_all [] cfg = cfg
set_all (s ∷ ss) cfg = set_all ss (set s cfg)

module _ (stoul : Bytes → Option ℕ) where
  -- Every interval is the reading of its text.
  abbrev pub IsRead : List Setting → Type 0
  IsRead [] = Unit {0}
  IsRead (Setting.interval text ms ∷ ss) = (stoul text ≡ some ms) × IsRead ss
  IsRead (_ ∷ ss) = IsRead ss

  settings_read :
      (ss : List Setting) (rest : List Bytes) (cfg : GatewayConfig)
      → IsRead ss
      → parse_options stoul (write_settings ss rest) cfg ≡ parse_options stoul rest (set_all ss cfg)
  unfolding parse_options
  settings_read [] rest cfg h = refl
  settings_read (Setting.pull e ∷ ss) rest cfg h = settings_read ss rest _ h
  settings_read (Setting.publish e ∷ ss) rest cfg h = settings_read ss rest _ h
  settings_read (Setting.interval text ms ∷ ss) rest cfg h =
      rw (parse_options, h.0) (settings_read ss rest _ h.1)
  settings_read (Setting.log_path p ∷ ss) rest cfg h = settings_read ss rest _ h

  -- Settings that are written as arguments, whose intervals std::stoul reads, run the gateway with
  -- all of them made in order, so that the last of a kind counts; with `--help` behind them the
  -- usage is printed and 0 returned, and with any other single argument behind them, which is not
  -- `-h` either, 1 is returned.
  pub command_line_reads :
      (ss : List Setting) (cfg : GatewayConfig) (arg : Bytes)
      → IsRead ss
      → same_bytes arg (codes "--help") ≡ false
      → same_bytes arg (codes "-h") ≡ false
      → (parse_options stoul (write_settings ss []) cfg ≡ Command.run (set_all ss cfg))
        × (parse_options stoul (write_settings ss (codes "--help" ∷ [])) cfg ≡ Command.help)
        × (parse_options stoul (write_settings ss (arg ∷ [])) cfg ≡ Command.refused)
  unfolding parse_options
  command_line_reads ss cfg arg h a b = (
    settings_read ss [] cfg h,
    settings_read ss (codes "--help" ∷ []) cfg h,
    settings_read ss (arg ∷ []) cfg h ∙ rw (a, b) refl,
  )
