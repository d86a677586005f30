-- ===== src/Query/Tests.antt =====
-- Tests of template queries, and their theorems at concrete inputs.
use libtabula.Prelude.{
  All, get_elem?, ◌≡◌, ◌≢◌, refl, true, false, List, [], ◌∷◌, none, some, arith,
}
use libtabula.Prelude.Int.{ℤ, pos, negsuc}
use libtabula.Prelude.Bytes.{Text, codes, is_digit}
use libtabula.Adapter.{SqlTypeAdapter, of_text, quote_q, base_quote_q, base_escape_q}
use libtabula.Escape.{escape_string_generic, escape_char}
use libtabula.Query.{
  SqlParseElement, Expansion, ok, bad_param_count, proc, proc_elems, proc_elem, proc_num,
  insert_param, pprepare, quote_escape,
}
use libtabula.Query.{Params, add}
use libtabula.Query.Sum.{get_elem?-add}
use libtabula.Adapter.{copied}
use libtabula.Query.Expand.{rendered, render, proc-render}
use libtabula.Query.Missing.{Tracks, all_in_range, proc-Tracks}
use libtabula.Query.Again.{proc_again, proc_raw_first}
use libtabula.Query.Names.{write_named, written, Places, write_named-Places}
use libtabula.Query.Parse.{
  put_num, Template, ok, undefined, out_of_fuel, parse, c_str, parse_loop, parse_step, to_schar,
  is_name,
}
use libtabula.Query.Parse.Fuel.{parse_from, parse-ne-out_of_fuel}
use libtabula.Query.Parse.Print.{Slot, print, parsed, double_percent}
use libtabula.Query.Parse.RoundTrip.{parse-print, slot_of}
use libtabula.Query.Parse.Wide.{parse_wide_named, parse_wide_unnamed}

abbrev no_template : Template
no_template = record { elems = []; names = []; nums = [] }

abbrev insert_two : List SqlParseElement
insert_two =
    record { before = codes "select "; option = b'q'; num = pos 0 }
    ∷ record { before = codes ","; option = 32; num = pos 1 }
    ∷ record { before = codes ";"; option = 32; num = negsuc 0 }
    ∷ []

abbrev its : SqlTypeAdapter
its = of_text (codes "it's") false

abbrev two_given : Expansion
two_given = record {
  out = [];
  given = record { items = its ∷ of_text (codes "42") false ∷ []; bound = false };
  own = record { items = []; bound = true };
}

abbrev one_default : Expansion
one_default = record {
  out = [];
  given = record { items = []; bound = false };
  own = record { items = its ∷ []; bound = true };
}

parse_example :
    parse (codes "a %0q:b: %%") no_template
    ≡ ok (record {
      elems =
          record { before = codes "a "; option = b'q'; num = pos 0 }
          ∷ record { before = codes " %"; option = 32; num = negsuc 0 }
          ∷ [];
      names = codes "b" ∷ [];
      nums = (codes "b", pos 0) ∷ [];
    })
unfolding parse parse_loop c_str parse_step is_digit to_schar is_name
parse_example = refl

missing_parameter :
    proc escape_string_generic true insert_two one_default
    ≡ bad_param_count (record {
      out = codes "select 'it\\'s', ERROR";
      given = record { items = []; bound = false };
      own = record { items = of_text (codes "'it\\'s'") true ∷ []; bound = true };
    })
unfolding proc proc_elems proc_elem proc_num insert_param of_text pprepare quote_q base_quote_q
    base_escape_q escape_string_generic escape_char
missing_parameter = refl

proc-render_example :
    proc escape_string_generic false insert_two (record two_given { out = codes "old" })
    ≡ ok (record two_given { out = codes "select 'it\\'s',42;" })
unfolding render rendered of_text quote_escape quote_q base_quote_q base_escape_q
    escape_string_generic escape_char
proc-render_example =
    proc-render escape_string_generic insert_two (record two_given { out = codes "old" })
      (codes "select 'it\\'s',42;") refl refl

proc-Tracks_example :
    Tracks 0 1
      (all_in_range 1 1 insert_two)
      (proc escape_string_generic true insert_two one_default)
proc-Tracks_example = proc-Tracks escape_string_generic true insert_two one_default 0 1 refl refl

abbrev twice : List SqlParseElement
twice =
    record { before = []; option = b'q'; num = pos 0 }
    ∷ record { before = codes "="; option = 32; num = pos 0 }
    ∷ []

abbrev one_used : Expansion
one_used = record one_default {
  out = codes "'it\\'s'='it\\'s'";
  own = record { items = of_text (codes "'it\\'s'") true ∷ []; bound = true };
}

proc_again_example : proc escape_string_generic true twice one_used ≡ ok one_used
unfolding proc proc_elems proc_elem proc_num insert_param of_text pprepare quote_q base_quote_q
    base_escape_q escape_string_generic escape_char
proc_again_example = proc_again escape_string_generic twice one_default one_used refl refl

proc_raw_first_case :
    (f : Expansion) × (proc_elems escape_string_generic true
        (record { before = []; option = 32; num = pos 0 }
          ∷ record { before = codes "="; option = b'q'; num = pos 0 }
          ∷ [])
        one_default
      ≡ ok f)
    × (f.out ≡ codes "it's=it's")
unfolding of_text
proc_raw_first_case =
    proc_raw_first escape_string_generic 0 [] (codes "=") its one_default refl refl refl refl

parse-ne-out_of_fuel_example : parse (codes "a %0q:b: %%") no_template ≢ out_of_fuel
parse-ne-out_of_fuel_example = parse-ne-out_of_fuel (codes "a %0q:b: %%") no_template

abbrev slots : List Slot
slots = slot_of (codes "10% ") 7 b'q' (some (codes "who")) ∷ slot_of (codes " ") 12 32 none ∷ []

parse-print_example :
    parse (codes "10%% %007q:who: %012.") no_template ≡ ok (parsed slots (codes ".") no_template)
unfolding print double_percent c_str is_name
parse-print_example =
    parse-print slots (codes ".") no_template
      (
        record {
          small = ground arith;
          option = refl;
          no_option = (λ _. refl);
          name = (refl, (refl, (refl, tt)));
        },
        (record { small = ground arith; option = refl; no_option = (λ _. refl); name = refl }, tt),
      )
      refl

parse_wide_named_case : parse (codes "x%200:a:") no_template ≡ undefined
unfolding double_percent c_str
parse_wide_named_case =
    parse_wide_named (codes "x") (codes "a") [] 200 no_template (ground arith, ground arith) refl

parse_wide_unnamed_case :
    parse (codes "x%255 y") no_template
    ≡ parse_from [] (codes " y") (record no_template {
      elems = record { before = codes "x"; option = 32; num = negsuc 0 } ∷ [];
    })
unfolding double_percent c_str
parse_wide_unnamed_case =
    parse_wide_unnamed (codes "x") (codes " y") 255 no_template (ground arith, ground arith) refl
      refl

get_elem?-add_case :
    let a : Params = record { items = its ∷ []; bound = false } in
    let b : Params = record { items = its ∷ of_text (codes "42") false ∷ []; bound = true } in
    (get_elem? (add a b).items 1 ≡ some (of_text (codes "42") false)) × ((add a b).bound ≡ false)
unfolding of_text copied
get_elem?-add_case =
    get_elem?-add (record { items = its ∷ []; bound = false })
      (record { items = its ∷ of_text (codes "42") false ∷ []; bound = true }) 1

-- The name is declared for the parameter 2; of the name that is not, the parameter 0 is written.
write_named-Places_example :
    ((p' : Params) × (write_named true
          (codes "v")
          (of_text (codes "x") false)
          (put_num (codes "v") (pos 2) ((codes "w", pos 1) ∷ []))
          (record { items = []; bound = true })
        ≡ written p' (put_num (codes "v") (pos 2) ((codes "w", pos 1) ∷ [])))
      × Places true (record { items = []; bound = true }) 2 (of_text (codes "x") false) p')
    × (All (λ (e : Text × ℤ). e.0 ≢ codes "v") ((codes "w", pos 1) ∷ [])
        → (p' : Params) × (write_named true
              (codes "v")
              (of_text (codes "x") false)
              ((codes "w", pos 1) ∷ [])
              (record { items = []; bound = true })
            ≡ written p' ((codes "w", pos 1) ∷ (codes "v", pos 0) ∷ []))
          × Places true (record { items = []; bound = true }) 0 (of_text (codes "x") false) p')
write_named-Places_example =
    write_named-Places true (codes "v") (of_text (codes "x") false) 2 ((codes "w", pos 1) ∷ [])
      (record { items = []; bound = true }) refl
