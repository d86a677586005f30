-- ===== src/Run/Tests.antt =====
-- Tests of running a query, and its theorems at concrete inputs.
use libtabula.Prelude.{ℕ, ◌≡◌, refl, Bool, true, false, List, [], ◌∷◌, Option, some}
use libtabula.Prelude.Int.{pos, negsuc}
use libtabula.Prelude.Bytes.{Text, codes}
use libtabula.Adapter.{of_text, quote_q, base_quote_q, base_escape_q}
use libtabula.Escape.{escape_string_generic, escape_char}
use libtabula.Query.{quote_escape}
use libtabula.Query.Expand.{rendered, render}
use libtabula.Run.{Runner, Ran, done, by_text, by_defaults, call, execute_text, auto_reset}
use libtabula.Run.Ends.{Ends, call-Ends, execute_text-Ends}
use libtabula.Run.Lone.{call-render}

abbrev accepts_all : List Text → Text → Bool
accepts_all log t = true

abbrev rows_affected : List Text → Text → Option ℕ
rows_affected log t = some 1

abbrev execute : Text → Runner → Ran ℕ
execute = execute_text accepts_all rows_affected accepts_all true

abbrev by_name : Runner
by_name = record {
  out = [];
  elems =
      record { before = codes "where n = "; option = b'q'; num = pos 0 }
      ∷ record { before = codes ";"; option = 32; num = negsuc 0 }
      ∷ [];
  defaults = record { items = []; bound = true };
  processing = false;
  copacetic = true;
  log = [];
}

call-Ends_example : Ends true (call escape_string_generic execute true 5 by_defaults by_name)
call-Ends_example =
    call-Ends escape_string_generic execute true
      (execute_text-Ends accepts_all rows_affected accepts_all true) by_defaults by_name

call-render_example :
    call escape_string_generic execute true 5 (by_text (codes "it's")) by_name
    ≡ done (some 1) (record by_name {
      out = codes "where n = 'it\\'s';";
      log = codes "where n = 'it\\'s';" ∷ [];
    })
unfolding execute_text auto_reset render rendered of_text quote_escape quote_q base_quote_q
    base_escape_q escape_string_generic escape_char
call-render_example =
    call-render escape_string_generic execute true (codes "it's") by_name
      (codes "where n = 'it\\'s';") refl refl refl
