-- ===== src/Tests/ExchangeMain.antt =====
-- A command line of the exchange.
use lob_engine.Prelude.{
  if◌then◌else◌, ℕ, ◌≡◌, refl, Option, some, none, [], ◌∷◌, Bytes, codes, length, same_bytes,
}
use lob_engine.ExchangeMain.{Command, parse_options}
use lob_engine.ExchangeMain.Settings.{Setting, write_settings, set_all, command_line_reads}
use lob_engine.Tests.Service.{small}

-- std::stoul on texts of stars.
abbrev stars : Bytes → Option ℕ
stars text = if same_bytes text (codes "x") then none else some (length text)

command_line_reads_example :
    (parse_options stars
        (write_settings (Setting.interval (codes "**") 2 ∷ Setting.pull (codes "tcp://a") ∷ []) [])
        small
      ≡ Command.run
          (set_all (Setting.interval (codes "**") 2 ∷ Setting.pull (codes "tcp://a") ∷ []) small))
    × (parse_options stars
          (write_settings
            (Setting.interval (codes "**") 2 ∷ Setting.pull (codes "tcp://a") ∷ [])
            (codes "--help" ∷ []))
          small
        ≡ Command.help)
    × (parse_options stars
          (write_settings
            (Setting.interval (codes "**") 2 ∷ Setting.pull (codes "tcp://a") ∷ [])
            (codes "--pub" ∷ []))
          small
        ≡ Command.refused)
command_line_reads_example =
    command_line_reads stars (Setting.interval (codes "**") 2 ∷ Setting.pull (codes "tcp://a") ∷ [])
      small (codes "--pub") (refl, tt) refl refl
