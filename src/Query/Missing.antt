-- ===== src/Query/Missing.antt =====
-- When the expansion of a template ends in the exception BadParamCount.
use libtabula.Prelude.{
  ℕ, zero, suc, ◌≡◌, refl, Bool, true, false, List, [], ◌∷◌, none, some, ltb, lt→ltb, if◌then◌else◌,
  ◌&&◌, ◌||◌, length, get_elem?, length-set, get_elem?-lt, arith, Option-cases, inl, inr,
}
use libtabula.Prelude.Int.{ℤ, pos, negsuc}
use libtabula.Prelude.Bytes.{Text}
use libtabula.Adapter.{SqlTypeAdapter}
use libtabula.Query.{
  SqlParseElement, Expansion, Outcome, ok, bad_param_count, pprepare, insert_param, proc_num,
  proc_at, proc_elem, proc_elems, proc, write, chosen, then_expand,
}

-- The number is a place of one of two lists with these lengths, or the end of the template.
abbrev pub in_range : ℕ → ℕ → ℤ → Bool
in_range given own (pos n) = ltb n given || ltb n own
in_range given own (negsuc n) = true

abbrev pub all_in_range : ℕ → ℕ → List SqlParseElement → Bool
all_in_range given own [] = true
all_in_range given own (el ∷ els) = in_range given own el.num && all_in_range given own els

-- The outcome is a success exactly if `b`, and a success keeps the numbers of parameters.
abbrev pub Tracks : ℕ → ℕ → Bool → Outcome → Type 0
Tracks given own b (ok f) = (b ≡ true) × (length f.given.items ≡ given) × (length f.own.items ≡ own)
Tracks given own b (bad_param_count f) = b ≡ false

get_elem?-none :
    (xs : List SqlTypeAdapter) (n : ℕ) → get_elem? xs n ≡ none → ltb n (length xs) ≡ false
get_elem?-none [] n e = ground arith
get_elem?-none (x ∷ xs) zero e = cc
get_elem?-none (x ∷ xs) (suc n) e = ground (arith, get_elem?-none xs n e)

get_elem?-some :
    (xs : List SqlTypeAdapter) (n : ℕ) (a : SqlTypeAdapter)
    → get_elem? xs n ≡ some a
    → ltb n (length xs) ≡ true
get_elem?-some xs n a e = lt→ltb n (length xs) (get_elem?-lt xs n a e)

module _ (escape : Text → Text) where
  insert_param-lengths :
      (own : Bool) (n option : ℕ) (a : SqlTypeAdapter) (e : Expansion)
      → let f = insert_param escape own n option a e in
        (length f.given.items ≡ length e.given.items) × (length f.own.items ≡ length e.own.items)
  unfolding insert_param
  insert_param-lengths true n option a e =
      ground (arith, length-set e.own.items n (pprepare escape option a e.own.bound).1)
  insert_param-lengths false n option a e =
      ground (arith, length-set e.given.items n (pprepare escape option a e.given.bound).1)

  proc_num-Tracks :
      (same : Bool) (option n : ℕ) (e : Expansion)
      → Tracks
          (length e.given.items)
          (length e.own.items)
          (in_range (length (chosen same e).items) (length e.own.items) (pos n))
          (proc_num escape same option n e)
  unfolding proc_num
  proc_num-Tracks same option n e = elim (Option-cases (get_elem? (chosen same e).items n)) [
    | inl missing ↦ elim (Option-cases (get_elem? e.own.items n)) [
      | inl none_too ↦
          rw (missing, none_too, proc_num)
            (ground (arith, get_elem?-none _ n missing, get_elem?-none e.own.items n none_too))
      | inr (a, g) ↦
          let l = insert_param-lengths true n option a e in
          rw (missing, g, proc_num) (ground (arith, get_elem?-some e.own.items n a g), l.0, l.1)
    ]
    | inr (a, g) ↦
        let l = insert_param-lengths same n option a e in
        rw (g, proc_num) (ground (arith, get_elem?-some _ n a g), l.0, l.1)
  ]

  proc_at-Tracks :
      (same : Bool) (option : ℕ) (z : ℤ) (e : Expansion)
      → Tracks
          (length e.given.items)
          (length e.own.items)
          (in_range (length (chosen same e).items) (length e.own.items) z)
          (proc_at escape same option z e)
  unfolding proc_at
  proc_at-Tracks same option (pos n) e = proc_num-Tracks same option n e
  proc_at-Tracks same option (negsuc n) e = (refl, refl, refl)

  step-Tracks :
      (same : Bool) (el : SqlParseElement) (e : Expansion) (given own : ℕ)
      → length e.given.items ≡ given
      → length e.own.items ≡ own
      → Tracks given own
          (in_range (if same then own else given) own el.num)
          (proc_elem escape same el e)
  unfolding proc_elem
  step-Tracks true el e given own g w =
      rw (← g, ← w) (proc_at-Tracks true el.option el.num (write el.before e))
  step-Tracks false el e given own g w =
      rw (← g, ← w) (proc_at-Tracks false el.option el.num (write el.before e))

  Tracks-then :
      (given own : ℕ) (b c : Bool) (o : Outcome) (f : Expansion → Outcome)
      → Tracks given own b o
      → ((e : Expansion)
          → length e.given.items ≡ given
          → length e.own.items ≡ own
          → Tracks given own c (f e))
      → Tracks given own (b && c) (then_expand o f)
  Tracks-then given own b c (ok e) f t rest = rw (t.0) (rest e t.1 t.2)
  Tracks-then given own b c (bad_param_count e) f t rest = rw t

  proc_elems-Tracks :
      (same : Bool) (els : List SqlParseElement) (e : Expansion) (given own : ℕ)
      → length e.given.items ≡ given
      → length e.own.items ≡ own
      → Tracks given own
          (all_in_range (if same then own else given) own els)
          (proc_elems escape same els e)
  unfolding proc_elems
  proc_elems-Tracks same [] e given own g w = (refl, g, w)
  proc_elems-Tracks same (el ∷ els) e given own g w =
      Tracks-then given own _ _ _ _ (step-Tracks same el e given own g w)
        (λ f g' w'. proc_elems-Tracks same els f given own g' w')

  -- The expansion succeeds exactly if every number in the template is a place of the parameters
  -- that it is called with or of the defaults; else it ends in BadParamCount. Where it succeeds,
  -- both lists keep their lengths.
  pub proc-Tracks :
      (same : Bool) (els : List SqlParseElement) (e : Expansion) (given own : ℕ)
      → length e.given.items ≡ given
      → length e.own.items ≡ own
      → Tracks given own
          (all_in_range (if same then own else given) own els)
          (proc escape same els e)
  unfolding proc
  proc-Tracks same els e given own g w =
      proc_elems-Tracks same els (record e { out = [] }) given own g w
