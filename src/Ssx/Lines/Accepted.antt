-- ===== src/Ssx/Lines/Accepted.antt =====
-- What a directive that is accepted holds.
use libtabula.Prelude.{◌≡◌, ◌≢◌, refl, Bool, true, false, List, [], ◌∷◌, All}
use libtabula.Prelude.Bytes.{Text, codes, text_eq}
use libtabula.Ssx.{
  unknown, Line, accessor_style, exception_on_schema_mismatch, header_extension,
  implementation_extension, field, table, Place, stream_error, parse_error, error, Error,
  file_exception, parse_exception,
}
use libtabula.Ssx.Tokens.{str_to_lwr}
use libtabula.Ssx.Options.{parse_type, style_option, named_option, parse_option}
use libtabula.Ssx.Lines.{
  Attributes, is_attribute, field_attribute, field_attributes, no_attributes, field_with,
  parse_field, or_name, table_with, table_attributes, parse_table,
}
use libtabula.Ssx.Lines.Names.{IsName, IsAlias, IsAccepted, IsAlias-IsName}
use libtabula.Ssx.Sound.{Sound, Sound-bind, Sound-weaken, Sound-if}

-- An error that names the place.
abbrev pub Blames : Place → Error → Type 0
Blames place (file_exception m) = Unit
Blames place (parse_exception m name n) = (name ≡ place.file_name) × (n ≡ place.line_number)

abbrev pub Never : Type 0
Never = true ≡ false

parse_type-known :
    (v : Text) (place : Place) → Sound (Blames place) Never (λ s. s ≢ unknown) (parse_type v place)
unfolding parse_type stream_error error
parse_type-known v place =
    Sound-if _ _ _ (text_eq v (codes "getX")) _ _ (λ e d. cc)
      λ e.
        Sound-if _ _ _ (text_eq v (codes "GetX")) _ _ (λ e d. cc)
          λ e.
            Sound-if _ _ _ (text_eq v (codes "get_x")) _ _ (λ e d. cc)
              λ e. Sound-if _ _ _ (text_eq v (codes "x")) _ _ (λ e d. cc) λ e. tt

abbrev pub is_option : Line → Bool
is_option (field f) = false
is_option (table t) = false
is_option (accessor_style v s) = true
is_option (exception_on_schema_mismatch v b) = true
is_option (header_extension v) = true
is_option (implementation_extension v) = true

abbrev pub ReadableOption : Line → Type 0
ReadableOption l = IsAccepted l × (is_option l ≡ true)

style_option-Readable :
    (v : Text) (place : Place)
    → IsName v
    → Sound (Blames place) Never ReadableOption (style_option v place)
unfolding style_option
style_option-Readable v place named =
    Sound-bind _ _ (λ s. s ≢ unknown) ReadableOption (parse_type v place) _
      (parse_type-known v place) λ s h. ((named, h), refl)

named_option-Readable :
    (name v : Text) (place : Place)
    → IsName v
    → Sound (Blames place) Never ReadableOption (named_option name v place)
unfolding named_option stream_error error
named_option-Readable name v place h =
    Sound-if _ _ _ (text_eq name (codes "accessor_style")) _ _
      (λ e. style_option-Readable v place h)
      λ e.
        Sound-if _ _ _ (text_eq name (codes "exception_on_schema_mismatch")) _ _ (λ e. (h, refl))
          λ e.
            Sound-if _ _ _ (text_eq name (codes "header_extension")) _ _ (λ e. (h, refl))
              λ e.
                Sound-if _ _ _ (text_eq name (codes "implementation_extension")) _ _
                  (λ e. (h, refl)) λ e. tt

-- An option is at the top level, and its value is a name.
pub parse_option-Readable :
    (tl : List Text) (subdirective : Bool) (place : Place)
    → All IsName tl
    → Sound
        (Blames place)
        Never
        (λ l. ReadableOption l × (subdirective ≡ false))
        (parse_option tl subdirective place)
unfolding parse_option parse_error
parse_option-Readable [] b place h = (refl, refl)
parse_option-Readable (d ∷ []) b place h = (refl, refl)
parse_option-Readable (d ∷ name ∷ []) b place h = (refl, refl)
parse_option-Readable (d ∷ name ∷ v ∷ w ∷ tl) b place h = (refl, refl)
parse_option-Readable (d ∷ name ∷ v ∷ []) true place h = (refl, refl)
parse_option-Readable (d ∷ name ∷ v ∷ []) false place h =
    Sound-weaken _ _ ReadableOption _ (named_option name v place) (λ l r. (r, refl))
      (named_option-Readable name v place h.1.1.0)

abbrev AliasIsName : Attributes → Type 0
AliasIsName a = IsAlias a.alias

is_attribute-Alias :
    (name v : Text) (a : Attributes) (place : Place)
    → AliasIsName a
    → Sound (Blames place) Never AliasIsName (is_attribute name v a place)
unfolding is_attribute stream_error error
is_attribute-Alias name v a place h =
    Sound-if _ _ _ (text_eq v (codes "autoinc")) _ _ (λ e. h)
      λ e.
        Sound-if _ _ _ (text_eq v (codes "key")) _ _ (λ e. h)
          λ e.
            Sound-if _ _ _ (text_eq v (codes "null")) _ _ (λ e. h)
              λ e. Sound-if _ _ _ (text_eq v (codes "unsigned")) _ _ (λ e. h) λ e. tt

field_attribute-Alias :
    (name attr v : Text) (a : Attributes) (place : Place)
    → IsName v
    → AliasIsName a
    → Sound (Blames place) Never AliasIsName (field_attribute name attr v a place)
unfolding field_attribute stream_error error
field_attribute-Alias name attr v a place k h =
    Sound-if _ _ _ (text_eq attr (codes "alias")) _ _ (λ e. IsAlias-IsName v k)
      λ e.
        Sound-if _ _ _ (text_eq attr (codes "is")) _ _ (λ e. is_attribute-Alias name v a place h)
          λ e. Sound-if _ _ _ (text_eq attr (codes "type")) _ _ (λ e. h) λ e. tt

field_attributes-Alias :
    (name : Text) (tl : List Text) (a : Attributes) (place : Place)
    → All IsName tl
    → AliasIsName a
    → Sound (Blames place) Never AliasIsName (field_attributes name tl a place)
unfolding field_attributes
field_attributes-Alias name [] a place k h = h
field_attributes-Alias name (attr ∷ []) a place k h = h
field_attributes-Alias name (attr ∷ v ∷ tl) a place k h =
    Sound-bind _ _ AliasIsName AliasIsName (field_attribute name (str_to_lwr attr) v a place) _
      (field_attribute-Alias name (str_to_lwr attr) v a place k.1.0 h)
      λ b i. field_attributes-Alias name tl b place k.1.1 i

-- A field is a subdirective, and its texts are names.
pub parse_field-Readable :
    (tl : List Text) (subdirective : Bool) (place : Place)
    → All IsName tl
    → Sound
        (Blames place)
        Never
        (λ f. IsAccepted (field f) × (subdirective ≡ true))
        (parse_field tl subdirective place)
unfolding parse_field parse_error field_with no_attributes
parse_field-Readable [] b place h = (refl, refl)
parse_field-Readable (d ∷ []) b place h = (refl, refl)
parse_field-Readable (d ∷ name ∷ tl) false place h = (refl, refl)
parse_field-Readable (d ∷ name ∷ tl) true place h =
    Sound-bind _ _ AliasIsName _ (field_attributes name tl no_attributes place) _
      (field_attributes-Alias name tl no_attributes place h.1.1 tt) λ a i. ((h.1.0, i), refl)

or_name-IsAlias : (name s : Text) → IsName name → IsAlias s → IsName (or_name name s)
unfolding or_name
or_name-IsAlias name [] h k = h
or_name-IsAlias name (c ∷ s) h k = k

table_attributes-Readable :
    (name : Text) (tl : List Text) (alias filebase : Text) (place : Place)
    → IsName name
    → All IsName tl
    → IsAlias alias
    → IsAlias filebase
    → Sound
        (Blames place)
        Never
        (λ t. IsAccepted (table t))
        (table_attributes name tl alias filebase place)
unfolding table_attributes table_with stream_error error
table_attributes-Readable name [] a b place n h i j =
    (n, (or_name-IsAlias name a n i, or_name-IsAlias name b n j))
table_attributes-Readable name (attr ∷ []) a b place n h i j =
    (n, (or_name-IsAlias name a n i, or_name-IsAlias name b n j))
table_attributes-Readable name (attr ∷ v ∷ tl) a b place n h i j =
    Sound-if _ _ _ (text_eq (str_to_lwr attr) (codes "alias")) _ _
      (λ e. table_attributes-Readable name tl v b place n h.1.1 (IsAlias-IsName v h.1.0) j)
      λ e.
        Sound-if _ _ _ (text_eq (str_to_lwr attr) (codes "filebase")) _ _
          (λ e. table_attributes-Readable name tl a v place n h.1.1 i (IsAlias-IsName v h.1.0))
          λ e. tt

-- The texts of a table are names.
pub parse_table-Readable :
    (tl : List Text) (subdirective : Bool) (place : Place)
    → All IsName tl
    → Sound
        (Blames place)
        Never
        (λ t. IsAccepted (table t) × (subdirective ≡ false))
        (parse_table tl subdirective place)
unfolding parse_table parse_error
parse_table-Readable [] b place h = (refl, refl)
parse_table-Readable (d ∷ []) b place h = (refl, refl)
parse_table-Readable (d ∷ name ∷ tl) true place h = (refl, refl)
parse_table-Readable (d ∷ name ∷ tl) false place h =
    Sound-weaken _ _ _ _ (table_attributes name tl [] [] place) (λ t r. (r, refl))
      (table_attributes-Readable name tl [] [] place h.1.0 h.1.1 tt tt)
