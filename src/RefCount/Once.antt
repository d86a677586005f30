-- ===== src/RefCount/Once.antt =====
-- Objects are destroyed once, and not while a pointer holds them.
use libtabula.Prelude.{
  ℕ, ◌-◌, ◌<◌, ◌≡◌, refl, sym, ap, ◌∙◌, Bool, true, false, ◌&&◌, false≢true, List, [], ◌∷◌, Option,
  none, some, ◌==◌, if◌then◌else◌, arith, get_elem?, set, get_elem?-set_self, get_elem?-lt,
  Bool-cases, inl, inr,
}
use libtabula.RefCount.{
  Heap, Op, apply, apply_all, empty_heap, update, allocate, adopt, retain, release, with_pointers,
  remove_at, swap_and_drop, copied_from, dropped, assigned, swapped, assigned_raw, assigned_managed,
  from_raw, from_null, copy, drop, assign, swap, assign_raw, assign_null, from_managed,
  assign_managed,
}
use libtabula.RefCount.Balance.{Balanced, holders, apply-Balanced}

apply_all-Balanced : (os : List Op) (h : Heap) → Balanced [] h → Balanced [] (apply_all os h)
unfolding apply_all
apply_all-Balanced [] h q = q
apply_all-Balanced (o ∷ os) h q = apply_all-Balanced os (apply o h) (apply-Balanced o h q)

empty-Balanced : Balanced [] empty_heap
empty-Balanced = record {
  counts = λ b. ground arith;
  fresh = λ b l. refl;
  once = λ b. ground arith;
}

-- The operation hands over no raw pointer that is managed already.
abbrev pub is_fresh : Op → Bool
is_fresh (from_managed j) = false
is_fresh (assign_managed i j) = false
is_fresh from_raw = true
is_fresh from_null = true
is_fresh (copy i) = true
is_fresh (drop i) = true
is_fresh (assign_raw i) = true
is_fresh (assign_null i) = true
is_fresh (assign i j) = true
is_fresh (swap i j) = true

abbrev pub all_fresh : List Op → Bool
all_fresh [] = true
all_fresh (o ∷ os) = is_fresh o && all_fresh os

release_pointers : (p : Option ℕ) (h : Heap) → (release p h).pointers ≡ h.pointers
unfolding release
release_pointers none h = refl
release_pointers (some b) h = elim (Bool-cases (h.refs b - 1 == 0)) [
  | inl last ↦ rw last refl
  | inr more ↦ rw more refl
]

release_objects : (p : Option ℕ) (h : Heap) → (release p h).objects ≡ h.objects
unfolding release
release_objects none h = refl
release_objects (some b) h = elim (Bool-cases (h.refs b - 1 == 0)) [
  | inl last ↦ rw last refl
  | inr more ↦ rw more refl
]

retain_objects : (p : Option ℕ) (h : Heap) → (retain p h).objects ≡ h.objects
unfolding retain
retain_objects none h = refl
retain_objects (some b) h = refl

swap_and_drop_objects :
    (i : ℕ) (temp : Option ℕ) (old : Option (Option ℕ)) (h : Heap)
    → (swap_and_drop i temp old h).objects ≡ h.objects
unfolding swap_and_drop
swap_and_drop_objects i temp none h = refl
swap_and_drop_objects i temp (some old) h =
    release_objects old (with_pointers (set h.pointers i temp) h)

copied_objects : (p : Option (Option ℕ)) (h : Heap) → (copied_from p h).objects ≡ h.objects
unfolding copied_from
copied_objects none h = refl
copied_objects (some p) h = retain_objects p h

dropped_objects : (i : ℕ) (p : Option (Option ℕ)) (h : Heap) → (dropped i p h).objects ≡ h.objects
unfolding dropped
dropped_objects i none h = refl
dropped_objects i (some p) h = release_objects p (with_pointers (remove_at i h.pointers) h)

assigned_objects :
    (i : ℕ) (p here : Option (Option ℕ)) (h : Heap) → (assigned i p here h).objects ≡ h.objects
unfolding assigned
assigned_objects i none here h = refl
assigned_objects i (some p) none h = refl
assigned_objects i (some p) (some old) h =
    swap_and_drop_objects i p (some old) (retain p h) ∙ retain_objects p h

swapped_objects :
    (i j : ℕ) (p q : Option (Option ℕ)) (h : Heap) → (swapped i j p q h).objects ≡ h.objects
unfolding swapped
swapped_objects i j none q h = refl
swapped_objects i j (some p) none h = refl
swapped_objects i j (some p) (some q) h = refl

raw_objects :
    (i : ℕ) (old : Option (Option ℕ)) (h : Heap) → (assigned_raw i old h).objects ≡ h.objects
unfolding assigned_raw allocate
raw_objects i none h = refl
raw_objects i (some old) h = swap_and_drop_objects i (some h.next) (some old) (allocate h)

apply_objects : (o : Op) (h : Heap) → is_fresh o ≡ true → (apply o h).objects ≡ h.objects
unfolding apply allocate
apply_objects from_raw h f = refl
apply_objects from_null h f = refl
apply_objects (copy i) h f = copied_objects (get_elem? h.pointers i) h
apply_objects (drop i) h f = dropped_objects i (get_elem? h.pointers i) h
apply_objects (assign i j) h f =
    assigned_objects i (get_elem? h.pointers j) (get_elem? h.pointers i) h
apply_objects (swap i j) h f =
    swapped_objects i j (get_elem? h.pointers i) (get_elem? h.pointers j) h
apply_objects (assign_raw i) h f = raw_objects i (get_elem? h.pointers i) h
apply_objects (assign_null i) h f = swap_and_drop_objects i none (get_elem? h.pointers i) h
apply_objects (from_managed j) h f = absurd (false≢true f)
apply_objects (assign_managed i j) h f = absurd (false≢true f)

apply_all_objects :
    (os : List Op) (h : Heap) → all_fresh os ≡ true → (apply_all os h).objects ≡ h.objects
unfolding apply_all
apply_all_objects [] h f = refl
apply_all_objects (o ∷ os) h f = elim (Bool-cases (is_fresh o)) [
  | inl first ↦
      apply_all_objects os (apply o h) (sym (ap (λ x. x && all_fresh os) first) ∙ f)
      ∙ apply_objects o h first
  | inr managed ↦ absurd (false≢true (sym (ap (λ x. x && all_fresh os) managed) ∙ f))
]

-- A pointer that gets its own raw pointer.
own_pointer :
    (i b : ℕ) (h : Heap)
    → get_elem? h.pointers i ≡ some (some b)
    → apply (assign_managed i i) h
      ≡ release (some b) (with_pointers (set h.pointers i (some h.next)) (adopt b h))
unfolding apply assigned_managed swap_and_drop allocate
own_pointer i b h g = rw g refl

pub DestroysItsOwn : ℕ → ℕ → Heap → Heap → Type 0
DestroysItsOwn i b h h' =
    (get_elem? h'.pointers i ≡ some (some h.next))
    × ((h'.objects h.next ≡ h.objects b) × (h'.deletions b ≡ 1))

own-destroyed :
    (i b : ℕ) (h : Heap)
    → Balanced [] h
    → get_elem? h.pointers i ≡ some (some b)
    → holders b h.pointers ≡ 1
    → DestroysItsOwn i b h (apply (assign_managed i i) h)
unfolding DestroysItsOwn allocate release
own-destroyed i b h q g one =
    let small : b < h.next = ground (arith, q.counts b, one, q.fresh b) in
    let apart : (b == h.next) ≡ false = ground (arith, small) in
    let single : h.refs b ≡ 1 = omega (arith, q.counts b, one) in
    let none_yet : h.deletions b ≡ 0 = ground (arith, q.once b, small, single) in
    let last : (update h.refs h.next 1 b - 1 == 0) ≡ true = rw (apart, single) refl in
    rw (own_pointer i b h g, last)
      (
        get_elem?-set_self h.pointers i (some h.next) (get_elem?-lt h.pointers i (some b) g),
        (ground arith, ground (arith, none_yet)),
      )

-- After any operations on the pointers of a program, self-assignments included, the count of a block
-- is the number of pointers that hold it, and its object was destroyed through it exactly once if there
-- is none, else not at all. If no raw pointer was handed over that was managed already, then each
-- block has an object of its own. If a pointer that alone holds its block is assigned its own raw
-- pointer, then it holds a new block with the same object, which is destroyed.
pub apply_all-once :
    (os : List Op) (b : ℕ)
    → let h = apply_all os empty_heap in
      b < h.next
      → ((h.refs b ≡ holders b h.pointers)
          × (h.deletions b ≡ (if holders b h.pointers == 0 then 1 else 0)))
        × ((all_fresh os ≡ true → h.objects b ≡ b)
            × ((i : ℕ)
                → get_elem? h.pointers i ≡ some (some b)
                → holders b h.pointers ≡ 1
                → DestroysItsOwn i b h (apply (assign_managed i i) h)))
apply_all-once os b l =
    let h = apply_all os empty_heap in
    let q = apply_all-Balanced os empty_heap empty-Balanced in
    let counts : h.refs b ≡ holders b h.pointers = omega (arith, q.counts b) in
    (
      (counts, ground (arith, counts, q.once b)),
      (
        λ f. ap (λ (o : ℕ → ℕ). o b) (apply_all_objects os empty_heap f),
        λ i g one. own-destroyed i b h q g one,
      ),
    )
