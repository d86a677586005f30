-- ===== src/RefCount/Balance.antt =====
-- The counts agree with the pointers.
use libtabula.Prelude.{
  ℕ, zero, suc, ◌+◌, ◌≤◌, ◌≡◌, refl, ◌&&◌, List, [], ◌∷◌, Option, none, some, ltb, ◌==◌,
  if◌then◌else◌, get_elem?, set, get_elem?-set_self, get_elem?-set_ne, get_elem?-lt, arith,
  Option-cases, inl, inr, ap, ◌∙◌,
}
use native.Mathlib.Decide.{ℕ_discrete}
use mathlib.Core.Option.{some_inj}
use libtabula.RefCount.{
  Heap, allocate, retain, release, with_pointers, push_pointer, remove_at, swap_and_drop, Op,
  from_raw, from_null, copy, drop, assign_raw, assign_null, assign, copied_from, dropped, assigned,
  swap, swapped, assigned_raw, apply, adopt, from_managed, assign_managed, from_other,
  assigned_managed,
}

abbrev pub points_at : ℕ → Option ℕ → ℕ
points_at b none = 0
points_at b (some c) = if b == c then 1 else 0

-- How many of the pointers hold the block.
abbrev pub holders : ℕ → List (Option ℕ) → ℕ
holders b [] = 0
holders b (p ∷ ps) = points_at b p + holders b ps

-- With the temporaries `extra`, every count is the number of pointers that hold the block; blocks
-- that are not allocated have none; an object was destroyed once if its count is zero, else never.
pub record Balanced (extra : List (Option ℕ)) (h : Heap) : Type 0 where
  pub counts : (b : ℕ) → h.refs b ≡ holders b extra + holders b h.pointers
  pub fresh : (b : ℕ) → h.next ≤ b → h.refs b ≡ 0
  pub once : (b : ℕ) → h.deletions b ≡ (if ltb b h.next && h.refs b == 0 then 1 else 0)

allocate-Balanced :
    (extra : List (Option ℕ)) (h : Heap)
    → Balanced extra h
    → Balanced (some h.next ∷ extra) (allocate h)
unfolding allocate
allocate-Balanced extra h p = record {
  counts = λ b. ground (arith, p.counts b, p.fresh b);
  fresh = λ b l. ground (arith, p.fresh b);
  once = λ b. ground (arith, p.once b, p.fresh b);
}

adopt-Balanced :
    (extra : List (Option ℕ)) (b : ℕ) (h : Heap)
    → Balanced extra h
    → Balanced (some h.next ∷ extra) (adopt b h)
unfolding allocate
adopt-Balanced extra b h p =
    let q = allocate-Balanced extra h p in
    record { counts = q.counts; fresh = q.fresh; once = q.once }

release-Balanced :
    (extra : List (Option ℕ)) (p : Option ℕ) (h : Heap)
    → Balanced (p ∷ extra) h
    → Balanced extra (release p h)
unfolding release
release-Balanced extra none h q = record {
  counts = λ b. omega (arith, q.counts b);
  fresh = q.fresh;
  once = q.once;
}
release-Balanced extra (some c) h q = record {
  counts = λ b. ground (arith, q.counts b);
  fresh = λ b l. ground (arith, q.fresh b, q.counts b);
  once = λ b. ground (arith, q.once b, q.fresh b, q.counts b, q.fresh c, q.counts c);
}

holders-some :
    (c : ℕ) (ps : List (Option ℕ)) (i : ℕ) → get_elem? ps i ≡ some (some c) → 1 ≤ holders c ps
holders-some c [] i g = cc
holders-some c (p ∷ ps) zero g = rw (some_inj.0 g) (ground arith)
holders-some c (p ∷ ps) (suc i) g = omega (arith, holders-some c ps i g)

holders-set :
    (b : ℕ) (ps : List (Option ℕ)) (i : ℕ) (old new : Option ℕ)
    → get_elem? ps i ≡ some old
    → holders b (set ps i new) + points_at b old ≡ holders b ps + points_at b new
holders-set b [] i old new g = cc
holders-set b (p ∷ ps) zero old new g = rw (← some_inj.0 g) (omega arith)
holders-set b (p ∷ ps) (suc i) old new g = omega (arith, holders-set b ps i old new g)

holders-remove_at :
    (b : ℕ) (ps : List (Option ℕ)) (i : ℕ) (old : Option ℕ)
    → get_elem? ps i ≡ some old
    → holders b (remove_at i ps) + points_at b old ≡ holders b ps
unfolding remove_at
holders-remove_at b [] i old g = cc
holders-remove_at b (p ∷ ps) zero old g = rw (← some_inj.0 g) (omega arith)
holders-remove_at b (p ∷ ps) (suc i) old g = omega (arith, holders-remove_at b ps i old g)

-- A pointer that some live pointer equals can be copied.
retain-Balanced :
    (extra : List (Option ℕ)) (p : Option ℕ) (i : ℕ) (h : Heap)
    → Balanced extra h
    → get_elem? h.pointers i ≡ some p
    → Balanced (p ∷ extra) (retain p h)
unfolding retain
retain-Balanced extra none i h q g = record {
  counts = λ b. omega (arith, q.counts b);
  fresh = q.fresh;
  once = q.once;
}
retain-Balanced extra (some c) i h q g =
    let held = holders-some c h.pointers i g in
    record {
      counts = λ b. ground (arith, q.counts b);
      fresh = λ b l. ground (arith, q.fresh b, q.counts b, held);
      once = λ b. ground (arith, q.once b, q.counts b, q.counts c, held);
    }

push-Balanced :
    (extra : List (Option ℕ)) (p : Option ℕ) (h : Heap)
    → Balanced (p ∷ extra) h
    → Balanced extra (push_pointer p h)
push-Balanced extra p h q = record {
  counts = λ b. omega (arith, q.counts b);
  fresh = q.fresh;
  once = q.once;
}

swap_and_drop-Balanced :
    (extra : List (Option ℕ)) (i : ℕ) (temp old : Option ℕ) (h : Heap)
    → Balanced (temp ∷ extra) h
    → get_elem? h.pointers i ≡ some old
    → Balanced extra (swap_and_drop i temp (some old) h)
unfolding swap_and_drop
swap_and_drop-Balanced extra i temp old h q g =
    release-Balanced extra old (with_pointers (set h.pointers i temp) h) (record {
      counts = λ b. omega (arith, q.counts b, holders-set b h.pointers i old temp g);
      fresh = q.fresh;
      once = q.once;
    })

remove-Balanced :
    (extra : List (Option ℕ)) (i : ℕ) (old : Option ℕ) (h : Heap)
    → Balanced extra h
    → get_elem? h.pointers i ≡ some old
    → Balanced (old ∷ extra) (with_pointers (remove_at i h.pointers) h)
remove-Balanced extra i old h q g = record {
  counts = λ b. omega (arith, q.counts b, holders-remove_at b h.pointers i old g);
  fresh = q.fresh;
  once = q.once;
}

-- Behind the first half of a swap, the second place still has what it had.
swap_half :
    (ps : List (Option ℕ)) (i j : ℕ) (p q : Option ℕ)
    → get_elem? ps i ≡ some p
    → get_elem? ps j ≡ some q
    → get_elem? (set ps i q) j ≡ some q
swap_half ps i j p q g k = elim (ℕ_discrete i j) [
  | yes same ↦ rw (← same) (get_elem?-set_self ps i q (get_elem?-lt ps i p g))
  | no other ↦ get_elem?-set_ne ps q other ∙ k
]

retain_pointers : (p : Option ℕ) (h : Heap) → (retain p h).pointers ≡ h.pointers
unfolding retain
retain_pointers none h = refl
retain_pointers (some c) h = refl

from_other-Balanced :
    (p : Option (Option ℕ)) (h : Heap) → Balanced [] h → Balanced [] (from_other p h)
unfolding from_other
from_other-Balanced none h q = q
from_other-Balanced (some none) h q =
    push-Balanced [] none h
      (record { counts = λ b. omega (arith, q.counts b); fresh = q.fresh; once = q.once })
from_other-Balanced (some (some b)) h q =
    push-Balanced [] (some h.next) (adopt b h) (adopt-Balanced [] b h q)

assigned_managed-Balanced :
    (i : ℕ) (p here : Option (Option ℕ)) (h : Heap)
    → Balanced [] h
    → get_elem? h.pointers i ≡ here
    → Balanced [] (assigned_managed i p here h)
unfolding assigned_managed allocate
assigned_managed-Balanced i none here h q g = q
assigned_managed-Balanced i (some p) none h q g = q
assigned_managed-Balanced i (some none) (some old) h q g =
    swap_and_drop-Balanced [] i none old h
      (record { counts = λ b. omega (arith, q.counts b); fresh = q.fresh; once = q.once }) g
assigned_managed-Balanced i (some (some b)) (some old) h q g =
    swap_and_drop-Balanced [] i (some h.next) old (adopt b h) (adopt-Balanced [] b h q) g

-- Every operation keeps the balance, with no temporary left.
pub apply-Balanced : (o : Op) (h : Heap) → Balanced [] h → Balanced [] (apply o h)
unfolding apply copied_from dropped assigned swapped assigned_raw swap_and_drop retain
apply-Balanced from_raw h q = push-Balanced [] (some h.next) (allocate h) (allocate-Balanced [] h q)
apply-Balanced from_null h q =
    push-Balanced [] none h
      (record { counts = λ b. omega (arith, q.counts b); fresh = q.fresh; once = q.once })
apply-Balanced (copy i) h q = elim (Option-cases (get_elem? h.pointers i)) [
  | inl nothing ↦ rw nothing q
  | inr (p, g) ↦ rw g (push-Balanced [] p (retain p h) (retain-Balanced [] p i h q g))
]
apply-Balanced (drop i) h q = elim (Option-cases (get_elem? h.pointers i)) [
  | inl nothing ↦ rw nothing q
  | inr (p, g) ↦ rw g (
      release-Balanced [] p (with_pointers (remove_at i h.pointers) h)
        (remove-Balanced [] i p h q g))
]
apply-Balanced (assign i j) h q = elim (Option-cases (get_elem? h.pointers j)) [
  | inl nothing ↦ rw nothing q
  | inr (p, g) ↦ elim (Option-cases (get_elem? h.pointers i)) [
    | inl nothing ↦ rw (g, nothing) q
    | inr (old, k) ↦
        rw (g, k)
          (swap_and_drop-Balanced [] i p old (retain p h) (retain-Balanced [] p j h q g)
            (ap (λ ps. get_elem? ps i) (retain_pointers p h) ∙ k))
  ]
]
apply-Balanced (swap i j) h q = elim (Option-cases (get_elem? h.pointers i)) [
  | inl nothing ↦ rw nothing q
  | inr (p, g) ↦ elim (Option-cases (get_elem? h.pointers j)) [
    | inl nothing ↦ rw (g, nothing) q
    | inr (r, k) ↦
        rw (g, k)
          (record {
            counts = λ b. omega (
              arith,
              q.counts b,
              holders-set b h.pointers i p r g,
              holders-set b (set h.pointers i r) j r p (swap_half h.pointers i j p r g k),
            );
            fresh = q.fresh;
            once = q.once;
          })
  ]
]
apply-Balanced (assign_raw i) h q = elim (Option-cases (get_elem? h.pointers i)) [
  | inl nothing ↦ rw nothing q
  | inr (old, g) ↦
      rw g (swap_and_drop-Balanced [] i (some h.next) old (allocate h) (allocate-Balanced [] h q) g)
]
apply-Balanced (from_managed j) h q = from_other-Balanced (get_elem? h.pointers j) h q
apply-Balanced (assign_managed i j) h q =
    assigned_managed-Balanced i (get_elem? h.pointers j) (get_elem? h.pointers i) h q refl
apply-Balanced (assign_null i) h q = elim (Option-cases (get_elem? h.pointers i)) [
  | inl nothing ↦ rw nothing q
  | inr (old, g) ↦ rw g (
      swap_and_drop-Balanced [] i none old h
        (record { counts = λ b. omega (arith, q.counts b); fresh = q.fresh; once = q.once }) g)
]
