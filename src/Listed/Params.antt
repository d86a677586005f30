-- ===== src/Listed/Params.antt =====
-- The manipulators on a query and on its parameters, and the options of a template.
use libtabula.Prelude.{Bool, true, if◌then◌else◌}
use libtabula.Prelude.Bytes.{Text}
use libtabula.Adapter.{SqlTypeAdapter, of_text, set_processed}
use libtabula.Listed.{Manip, as_param}

module _ (escape_string : Text → Text) where
  -- The text of a parameter.
  abbrev param_text : Manip → SqlTypeAdapter → Text
  param_text m a = (as_param escape_string m a).buffer.bytes

  -- The text of a parameter that is built if its type asks for it.
  abbrev built_if : Bool → Text → SqlTypeAdapter → Text
  built_if b t a = (if b then of_text t true else set_processed a).buffer.bytes
