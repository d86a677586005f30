-- ===== src/Query/Expand.antt =====
-- What the expansion of a template produces.
use libtabula.Prelude.{
  ℕ, ◌≡◌, refl, false, List, [], ◌∷◌, ◌++◌, Option, none, some, ◌==◌, if◌then◌else◌, get_elem?,
  set-get_elem?, append_assoc, append-nil, arith, Option-cases, ap, sym, ◌∙◌, inl, inr,
}
use mathlib.Core.Option.{some_inj}
use libtabula.Prelude.Int.{ℤ, pos, negsuc}
use libtabula.Prelude.Bytes.{Text, codes}
use libtabula.Adapter.{SqlTypeAdapter, quoted, text_of}
use libtabula.Query.{
  SqlParseElement, Expansion, ok, quote_escape, quote_only, pprepare, insert_param, proc_num,
  proc_elem, proc_at, proc_elems, proc, write,
}

module _ (escape : Text → Text) where
  -- A parameter as SQL text, by the option of its place in the template.
  unfoldable pub rendered : ℕ → SqlTypeAdapter → Text
  rendered option a =
      if a.buffer.is_null
      then codes "NULL"
      else if a.is_processed
      then text_of a
      else if option == b'q'
      then quote_escape escape a
      else if option == b'Q'
      then (if quoted a then quote_only escape a else text_of a)
      else text_of a

  -- The parameters that are given shadow the defaults.
  abbrev pub supplied : List SqlTypeAdapter → List SqlTypeAdapter → ℕ → Option SqlTypeAdapter
  supplied given own n = elim (get_elem? given n) [ some a ↦ some a | none ↦ get_elem? own n ]

  -- The text of an element's parameter: none if the parameter is missing, no text if there is none.
  abbrev pub piece : (ℕ → Option SqlTypeAdapter) → ℕ → ℤ → Option Text
  piece at option (pos n) = elim (at n) [ some a ↦ some (rendered option a) | none ↦ none ]
  piece at option (negsuc n) = some []

  abbrev pub glue : Text → Option Text → Option Text → Option Text
  glue before (some t) (some rest) = some (before ++ (t ++ rest))
  glue before (some t) none = none
  glue before none rest = none

  -- The expansion without state: every element's text with its parameter; none if one is missing.
  unfoldable pub render : (ℕ → Option SqlTypeAdapter) → List SqlParseElement → Option Text
  render at [] = some []
  render at (el ∷ els) = glue el.before (piece at el.option el.num) (render at els)

  pprepare-rendered :
      (option : ℕ) (a : SqlTypeAdapter)
      → a.buffer.is_null ≡ false
      → pprepare escape option a false ≡ (rendered option a, a)
  unfolding pprepare rendered
  pprepare-rendered option a h = ground arith

  insert_param-unbound :
      (n option : ℕ) (a : SqlTypeAdapter) (e : Expansion)
      → e.given.bound ≡ false
      → get_elem? e.given.items n ≡ some a
      → insert_param escape false n option a e ≡ write (rendered option a) e
  unfolding insert_param rendered
  insert_param-unbound n option a e u g =
      ground (arith, pprepare-rendered option a, set-get_elem? e.given.items n a g)

  proc_num-render :
      (option n : ℕ) (e : Expansion) (a : SqlTypeAdapter)
      → e.given.bound ≡ false
      → get_elem? e.given.items n ≡ some a
      → proc_num escape false option n e ≡ ok (write (rendered option a) e)
  unfolding proc_num
  proc_num-render option n e a u g =
      rw (g, proc_num) (ap ok (insert_param-unbound n option a e u g))

  proc_at-render :
      (option : ℕ) (z : ℤ) (e : Expansion) (t : Text)
      → e.given.bound ≡ false
      → piece (get_elem? e.given.items) option z ≡ some t
      → proc_at escape false option z e ≡ ok (write t e)
  unfolding proc_at
  proc_at-render option (negsuc k) e t u h = ground (arith, append-nil e.out)
  proc_at-render option (pos n) e t u h = elim (Option-cases (get_elem? e.given.items n)) [
    | inl missing ↦ ground (arith, missing)
    | inr (a, g) ↦
        let same : some (rendered option a) ≡ some t = rw (g, piece) at h in
        proc_num-render option n e a u g ∙ ap (λ s. ok (write s e)) (some_inj.0 same)
  ]

  glue-eq-some :
      (before : Text) (p r : Option Text) (t : Text)
      → glue before p r ≡ some t
      → (s : Text) × (rest : Text) × (p ≡ some s) × (r ≡ some rest) × (t ≡ before ++ (s ++ rest))
  glue-eq-some before none r t h = cc
  glue-eq-some before (some s) none t h = cc
  glue-eq-some before (some s) (some rest) t h = (s, rest, refl, refl, sym (some_inj.0 h))

  proc_elems-render :
      (els : List SqlParseElement) (e : Expansion) (t : Text)
      → e.given.bound ≡ false
      → render (get_elem? e.given.items) els ≡ some t
      → proc_elems escape false els e ≡ ok (write t e)
  unfolding proc_elems render proc_elem
  proc_elems-render [] e t u h = ground (arith, append-nil e.out)
  proc_elems-render (el ∷ els) e t u h =
      let (s, rest, p, r, q) = glue-eq-some el.before _ _ t h in
      let first = proc_at-render el.option el.num (write el.before e) s u p in
      let later = proc_elems-render els (write s (write el.before e)) rest u r in
      rw (first, q) (later ∙ ap (λ o. ok (record e { out = o })) (simp append_assoc))

  -- With parameters that are not bound to a query, and all of which the template's numbers find, the
  -- expansion replaces what the buffer holds by the elements' texts with the rendered parameters, and
  -- leaves the parameters and the defaults as they are.
  pub proc-render :
      (els : List SqlParseElement) (e : Expansion) (t : Text)
      → e.given.bound ≡ false
      → render (get_elem? e.given.items) els ≡ some t
      → proc escape false els e ≡ ok (record e { out = t })
  unfolding proc
  proc-render els e t u h = proc_elems-render els (record e { out = [] }) t u h
