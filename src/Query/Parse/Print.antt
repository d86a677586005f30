-- ===== src/Query/Parse/Print.antt =====
-- Templates as data: how they are written, and what the parser should make of them.
use libtabula.Prelude.{
  ℕ, ◌+◌, ◌/◌, ◌%◌, ◌<◌, ◌≡◌, Bool, true, false, List, [], ◌∷◌, ◌++◌, Option, none, some, ◌==◌,
  ◌||◌, if◌then◌else◌, All,
}
use libtabula.Prelude.Int.{pos, negsuc}
use libtabula.Prelude.Bytes.{Text}
use libtabula.Query.{SqlParseElement}
use libtabula.Query.Parse.{Template, is_name, put_name, put_num}

-- A parameter with the literal text before it. The option is a space if there is none.
pub record Slot : Type 0 where
  pub before : Text
  pub position : ℕ
  pub option : ℕ
  pub name : Option Text

-- A literal percent sign is written twice.
unfoldable pub double_percent : Text → Text
double_percent [] = []
double_percent (c ∷ s) =
    let rest = double_percent s in if c == b'%' then b'%' ∷ b'%' ∷ rest else c ∷ rest

abbrev pub option_text : ℕ → Text
option_text o = if o == 32 then [] else o ∷ []

abbrev pub name_text : Option Text → Text
name_text none = []
name_text (some name) = b':' ∷ (name ++ b':' ∷ [])

-- The position in three digits, the option, and the name between colons.
abbrev pub slot_text : Slot → Text → Text
slot_text slot rest =
    b'%'
    ∷ (b'0' + slot.position / 100)
    ∷ (b'0' + slot.position / 10 % 10)
    ∷ (b'0' + slot.position % 10)
    ∷ (option_text slot.option ++ (name_text slot.name ++ rest))

unfoldable pub print : List Slot → Text → Text
print [] last = double_percent last
print (slot ∷ slots) last = double_percent slot.before ++ slot_text slot (print slots last)

abbrev pub starts_by : (ℕ → Bool) → Text → Bool
starts_by test [] = false
starts_by test (c ∷ s) = test c

-- A name has name characters only; with no name, the text behind must not look like one.
abbrev pub NameFits : Option Text → Text → Type 0
NameFits none rest = starts_by (λ c. c == b':') rest ≡ false
NameFits (some name) rest = All (λ c. is_name c ≡ true) name

-- The position fits a signed char; with no option, the text behind must not look like one.
pub record Fits (slot : Slot) (rest : Text) : Type 0 where
  pub small : slot.position < 128
  pub option : (slot.option == 32 || (slot.option == b'q' || slot.option == b'Q')) ≡ true
  pub no_option :
      slot.option ≡ 32
      → starts_by (λ c. c == b'q' || c == b'Q') (name_text slot.name ++ rest) ≡ false
  pub name : NameFits slot.name rest

abbrev pub AllFit : List Slot → Text → Type 0
AllFit [] last = Unit
AllFit (slot ∷ slots) last = Fits slot (print slots last) × AllFit slots last

abbrev pub elem_of : Slot → SqlParseElement
elem_of slot = record { before = slot.before; option = slot.option; num = pos slot.position }

abbrev pub with_name : Slot → Template → Option Text → Template
with_name slot t none = t
with_name slot t (some name) = record t {
  names = put_name slot.position name t.names;
  nums = put_num name (pos slot.position) t.nums;
}

-- One element for each slot, its name entered both ways.
abbrev pub enter : Slot → Template → Template
enter slot t =
    let named = with_name slot t slot.name in
    record named { elems = named.elems ++ elem_of slot ∷ [] }

-- An element for each slot in order, and one for the text behind the last.
abbrev pub parsed : List Slot → Text → Template → Template
parsed [] last t = record t {
  elems = t.elems ++ record { before = last; option = 32; num = negsuc 0 } ∷ [];
}
parsed (slot ∷ slots) last t = parsed slots last (enter slot t)
