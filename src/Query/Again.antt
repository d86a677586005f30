-- ===== src/Query/Again.antt =====
-- Expansions with the query's own defaults, which are quoted and escaped in place.
use native.Mathlib.Decide.{ℕ_discrete}
use libtabula.Prelude.{
  ℕ, ◌≡◌, refl, true, false, List, [], ◌∷◌, ◌++◌, some, if◌then◌else◌, ◌||◌, get_elem?, set,
  get_elem?-lt, get_elem?-set_self, get_elem?-set_ne, set-get_elem?, append_assoc, append-nil,
  arith, Option-cases, inl, inr, ap, sym, subst, ◌∙◌,
}
use mathlib.Core.Option.{some_inj}
use libtabula.Prelude.Int.{ℤ, pos, negsuc}
use libtabula.Prelude.Bytes.{Text, codes}
use libtabula.Adapter.{SqlTypeAdapter, of_text, set_processed, text_of}
use libtabula.Query.{
  SqlParseElement, Expansion, Outcome, ok, bad_param_count, pprepare, insert_param, proc_num,
  proc_at, proc_elem, proc_elems, proc, write, put, then_expand,
}

-- An adapter that an expansion inserts as it is and leaves alone.
abbrev pub IsSettled : SqlTypeAdapter → Type 0
IsSettled a = (a.buffer.is_null || a.is_processed) ≡ true

module _ (escape : Text → Text) where
  -- What one use of a default inserts, and what it leaves behind.
  used : ℕ → SqlTypeAdapter → Text × SqlTypeAdapter
  used option a = if a.buffer.is_null then (codes "NULL", a) else pprepare escape option a true

  used-IsSettled : (option : ℕ) (a : SqlTypeAdapter) → IsSettled (used option a).1
  unfolding used pprepare of_text set_processed
  used-IsSettled option a = ground arith

  -- A second use, by whatever option, repeats the first.
  used_again :
      (option later : ℕ) (a : SqlTypeAdapter)
      → used later (used option a).1 ≡ ((used option a).0, (used option a).1)
  unfolding used pprepare of_text set_processed
  used_again option later a = ground arith

  used_settled : (option : ℕ) (a : SqlTypeAdapter) → IsSettled a → (used option a).1 ≡ a
  unfolding used pprepare
  used_settled option a s = ground arith

  insert_param-used :
      (n option : ℕ) (a : SqlTypeAdapter) (e : Expansion)
      → e.own.bound ≡ true
      → get_elem? e.own.items n ≡ some a
      → insert_param escape true n option a e
        ≡ put true n (used option a).1 (write (used option a).0 e)
  unfolding insert_param used
  insert_param-used n option a e b g = ground (arith, set-get_elem? e.own.items n a g)

  -- Settled entries of the first list stand in the second, too.
  abbrev Frozen : List SqlTypeAdapter → List SqlTypeAdapter → Type 0
  Frozen xs ys =
      (i : ℕ) (a : SqlTypeAdapter) → get_elem? xs i ≡ some a → IsSettled a → get_elem? ys i ≡ some a

  -- A run from `e` to `f` leaves its defaults in such a state that a run over them, or over what
  -- later runs make of them, inserts the same text once more and changes nothing.
  record Repeats (run : Expansion → Outcome) (e f : Expansion) : Type 0 where
    bound : f.own.bound ≡ true
    frozen : Frozen e.own.items f.own.items
    text : Text
    written : f.out ≡ e.out ++ text
    again :
        (g : Expansion)
        → g.own.bound ≡ true
        → Frozen f.own.items g.own.items
        → run g ≡ ok (write text g)

  write_nil : (e : Expansion) → write [] e ≡ e
  write_nil e = ap (λ t. record e { out = t }) (append-nil e.out)

  idle-Repeats : (e : Expansion) → e.own.bound ≡ true → Repeats ok e e
  idle-Repeats e b = record {
    bound = b;
    frozen = λ i a h s. h;
    text = [];
    written = sym (append-nil e.out);
    again = λ g c h. ap ok (sym (write_nil g));
  }

  set-Frozen :
      (xs : List SqlTypeAdapter) (n option : ℕ) (a : SqlTypeAdapter)
      → get_elem? xs n ≡ some a
      → Frozen xs (set xs n (used option a).1)
  set-Frozen xs n option a g i c h s = elim (ℕ_discrete n i) [
    | yes here ↦
        let same : a ≡ c = some_inj.0 (sym g ∙ ap (get_elem? xs) here ∙ h) in
        ap (get_elem? (set xs n (used option a).1)) (sym here)
        ∙ get_elem?-set_self xs n _ (get_elem?-lt xs n a g)
        ∙ ap some (ap (λ x. (used option x).1) same ∙ used_settled option c s)
    | no there ↦ get_elem?-set_ne xs _ there ∙ h
  ]

  insert-Repeats :
      (n option : ℕ) (a : SqlTypeAdapter) (e : Expansion)
      → e.own.bound ≡ true
      → get_elem? e.own.items n ≡ some a
      → Repeats
          (proc_num escape true option n)
          e
          (put true n (used option a).1 (write (used option a).0 e))
  unfolding proc_num
  insert-Repeats n option a e b g = record {
    bound = b;
    frozen = set-Frozen e.own.items n option a g;
    text = (used option a).0;
    written = refl;
    again = λ f c h. use_again f c (
        h n (used option a).1 (get_elem?-set_self e.own.items n _ (get_elem?-lt e.own.items n a g))
          (used-IsSettled option a));
  }
    where
      use_again :
          (f : Expansion)
          → f.own.bound ≡ true
          → get_elem? f.own.items n ≡ some (used option a).1
          → proc_num escape true option n f ≡ ok (write (used option a).0 f)
      use_again f c h =
          rw (h, proc_num)
            (ap ok (
              insert_param-used n option (used option a).1 f c h
              ∙ ap (λ r. put true n r.1 (write r.0 f)) (used_again option option a)
              ∙ ap
                  (λ l. record f {
                    out = f.out ++ (used option a).0;
                    own = record f.own { items = l };
                  })
                  (set-get_elem? f.own.items n _ h)))

  then-Repeats :
      (first second : Expansion → Outcome) (before : Text) (e m f : Expansion)
      → Repeats first (write before e) m
      → Repeats second m f
      → Repeats (λ g. then_expand (first (write before g)) second) e f
  then-Repeats first second before e m f r s = record {
    bound = s.bound;
    frozen = λ i a h t. s.frozen i a (r.frozen i a h t) t;
    text = before ++ (r.text ++ s.text);
    written = s.written ∙ ap (λ t. t ++ s.text) r.written ∙ regroup e.out;
    again = λ g c h. rw (r.again (write before g) c (λ i a x t. h i a (s.frozen i a x t) t)) (
        s.again (write r.text (write before g)) c h
        ∙ ap (λ t. ok (record g { out = t })) (regroup g.out));
  }
    where
      regroup :
          (o : Text) → ((o ++ before) ++ r.text) ++ s.text ≡ o ++ (before ++ (r.text ++ s.text))
      regroup o = simp append_assoc

  -- The outcome of one parameter is a state that repeats, or the exception.
  Good : (Expansion → Outcome) → Expansion → Outcome → Type 0
  Good run e (ok f) = Repeats run e f
  Good run e (bad_param_count f) = Unit

  proc_at-Good :
      (option : ℕ) (z : ℤ) (e : Expansion)
      → e.own.bound ≡ true
      → Good (proc_at escape true option z) e (proc_at escape true option z e)
  unfolding proc_at Good proc_num
  proc_at-Good option (negsuc n) e b = idle-Repeats e b
  proc_at-Good option (pos n) e b = elim (Option-cases (get_elem? e.own.items n)) [
    | inl missing ↦ rw (missing, proc_num) (rw missing tt)
    | inr (a, g) ↦
        rw (g, proc_num) (rw (insert_param-used n option a e b g) (insert-Repeats n option a e b g))
  ]

  Good-then :
      (first second : Expansion → Outcome) (before : Text) (e : Expansion) (o : Outcome)
      → Good first (write before e) o
      → ((m : Expansion) → m.own.bound ≡ true → Good second m (second m))
      → Good (λ g. then_expand (first (write before g)) second) e (then_expand o second)
  unfolding Good
  Good-then first second before e (bad_param_count m) r s = tt
  Good-then first second before e (ok m) r s = both (second m) (s m r.bound)
    where
      both :
          (o : Outcome)
          → Good second m o
          → Good (λ g. then_expand (first (write before g)) second) e o
      both (ok f) t = then-Repeats first second before e m f r t
      both (bad_param_count f) t = tt

  proc_elems-Good :
      (els : List SqlParseElement) (e : Expansion)
      → e.own.bound ≡ true
      → Good (proc_elems escape true els) e (proc_elems escape true els e)
  unfolding proc_elems proc_elem
  proc_elems-Good [] e b = unfold Good in idle-Repeats e b
  proc_elems-Good (el ∷ els) e b =
      Good-then (proc_at escape true el.option el.num) (proc_elems escape true els) el.before e _
        (proc_at-Good el.option el.num (write el.before e) b) (λ m c. proc_elems-Good els m c)

  -- A query that is expanded with its own defaults, which are bound to it, can be expanded again:
  -- if the first expansion succeeds, then every later one gives the same text and leaves the same
  -- defaults. No parameter is quoted or escaped twice.
  pub proc_again :
      (els : List SqlParseElement) (e f : Expansion)
      → e.own.bound ≡ true
      → proc escape true els e ≡ ok f
      → proc escape true els f ≡ ok f
  unfolding Good proc
  proc_again els e f b h =
      let r : Repeats (proc_elems escape true els) (record e { out = [] }) f =
        subst (Good (proc_elems escape true els) (record e { out = [] })) h
          (proc_elems-Good els (record e { out = [] }) b) in
      r.again (record f { out = [] }) r.bound (λ i a x s. x)
      ∙ ap (λ t. ok (record f { out = t })) (sym r.written)

  proc_num-used :
      (n option : ℕ) (a : SqlTypeAdapter) (e : Expansion)
      → e.own.bound ≡ true
      → get_elem? e.own.items n ≡ some a
      → proc_num escape true option n e
        ≡ ok (put true n (used option a).1 (write (used option a).0 e))
  unfolding proc_num
  proc_num-used n option a e b g = rw (g, proc_num) (ap ok (insert_param-used n option a e b g))

  used_raw :
      (a : SqlTypeAdapter)
      → a.buffer.is_null ≡ false
      → a.is_processed ≡ false
      → (used 32 a).0 ≡ text_of a
  unfolding used pprepare
  used_raw a null new = ground arith

  -- The place that uses a default first decides how it is written: if that place has no option, then
  -- a later place that asks for quoting and escaping inserts the raw text, although the parameter is
  -- a text that needs both.
  pub proc_raw_first :
      (n : ℕ) (before between : Text) (a : SqlTypeAdapter) (e : Expansion)
      → e.own.bound ≡ true
      → get_elem? e.own.items n ≡ some a
      → a.buffer.is_null ≡ false
      → a.is_processed ≡ false
      → (f : Expansion) × (proc_elems escape true
            (record { before = before; option = 32; num = pos n }
              ∷ record { before = between; option = b'q'; num = pos n }
              ∷ [])
            e
          ≡ ok f)
        × (f.out ≡ e.out ++ (before ++ (text_of a ++ (between ++ text_of a))))
  unfolding proc_elems proc_elem proc_at
  proc_raw_first n before between a e b g null new =
      let u = used 32 a in
      let m : Expansion = put true n u.1 (write u.0 (write before e)) in
      let f : Expansion = put true n u.1 (write u.0 (write between m)) in
      let stands : get_elem? m.own.items n ≡ some u.1 =
        get_elem?-set_self e.own.items n u.1 (get_elem?-lt e.own.items n a g) in
      let second = proc_num-used n b'q' u.1 (write between m) b stands in
      (
        f,
        rw (proc_num-used n 32 a (write before e) b g, second)
            (ap (λ r. ok (put true n r.1 (write r.0 (write between m)))) (used_again 32 b'q' a)),
        rw (used_raw a null new) (simp append_assoc),
      )
