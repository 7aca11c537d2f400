-- ===== src/Examples/Registry.antt =====
-- A concrete registry of capabilities.
use machine_manager.Base.{◌≡◌, refl, true, false, some, List, [], ◌∷◌}
use machine_manager.Base.Assoc.{select}
use machine_manager.Base.Text.{text, text_eq}
use machine_manager.Capabilities.{Capabilities}
use machine_manager.Capabilities.Ids.{
  Call, registers, switches, calls_of, described, registration_is_kept,
}

abbrev registry : Capabilities
registry =
    (
      text "telemetry",
      record { capability_id = text "telemetry"; description = text "Publish."; enabled = true },
    )
    ∷ []

abbrev script : List Call
script = registers (text "telemetry ") (text "Again.") true ∷ switches (text "telemetry") false ∷ []

is_registered : described (text "telemetry") registry ≡ some (text "Publish.")
unfolding select text text_eq
is_registered = refl

registration_example :
    described (text "telemetry") (calls_of script registry) ≡ some (text "Publish.")
registration_example =
    registration_is_kept script (text "telemetry") registry (text "Publish.") is_registered
