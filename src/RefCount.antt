-- ===== src/RefCount.antt =====
-- RefCountedPointer, src/refcounted.h, which shares the buffers of adapters and strings. The heap has
-- one block for each time that a raw pointer was handed to a RefCountedPointer: its count, and the
-- object that the pointer points at. A raw pointer that is managed already can be handed over again.
pub mod Balance
pub mod Once
pub mod Tests
use libtabula.Prelude.{
  ℕ, zero, suc, ◌+◌, ◌-◌, Bool, true, false, List, [], ◌∷◌, Option, none, some, ltb, ◌==◌,
  if◌then◌else◌, get_elem?, set,
}

-- `refs` is the count of each block, `deletions` how often the Destroyer was called through it,
-- `objects` the object of each block, which is named by its first block; `next` is the first block that
-- is not allocated yet, and `pointers` are the live RefCountedPointers.
pub record Heap : Type 0 where
  pub next : ℕ
  pub refs : ℕ → ℕ
  pub deletions : ℕ → ℕ
  pub objects : ℕ → ℕ
  pub pointers : List (Option ℕ)

abbrev pub empty_heap : Heap
empty_heap = record { next = 0; refs = λ b. 0; deletions = λ b. 0; objects = λ b. b; pointers = [] }

abbrev pub update : (ℕ → ℕ) → ℕ → ℕ → ℕ → ℕ
update f b v c = if c == b then v else f c

-- RefCountedPointer(T*) for a pointer that is not null: the new pointer's block.
unfoldable pub allocate : Heap → Heap
allocate h = record h { next = suc h.next; refs = update h.refs h.next 1 }

-- RefCountedPointer(T*) for the object that the block `b` manages already: a count of its own.
abbrev pub adopt : ℕ → Heap → Heap
adopt b h = record (allocate h) { objects = update h.objects h.next (h.objects b) }

-- The copy constructor: the count of the other's block.
unfoldable pub retain : Option ℕ → Heap → Heap
retain none h = h
retain (some b) h = record h { refs = update h.refs b (h.refs b + 1) }

-- The destructor.
unfoldable pub release : Option ℕ → Heap → Heap
release none h = h
release (some b) h =
    let less = record h { refs = update h.refs b (h.refs b - 1) } in
    if h.refs b - 1 == 0
    then record less { deletions = update h.deletions b (h.deletions b + 1) }
    else less

abbrev pub with_pointers : List (Option ℕ) → Heap → Heap
with_pointers ps h = record h { pointers = ps }

abbrev pub push_pointer : Option ℕ → Heap → Heap
push_pointer p h = with_pointers (p ∷ h.pointers) h

unfoldable pub remove_at : ℕ → List (Option ℕ) → List (Option ℕ)
remove_at n [] = []
remove_at zero (p ∷ ps) = ps
remove_at (suc n) (p ∷ ps) = p ∷ remove_at n ps

-- swap() of a temporary with the pointer at place i, and the destructor of the temporary.
swap_and_drop : ℕ → Option ℕ → Option (Option ℕ) → Heap → Heap
unfolding release
swap_and_drop i temp none h = h
swap_and_drop i temp (some old) h = release old (with_pointers (set h.pointers i temp) h)

-- What a program does with the pointers that it has, which it names by their places.
pub data Op : Type 0 where
  from_raw from_null : Op
  copy drop assign_raw assign_null : ℕ → Op
  from_managed : ℕ → Op
  assign swap assign_managed : ℕ → ℕ → Op

copied_from : Option (Option ℕ) → Heap → Heap
unfolding retain
copied_from none h = h
copied_from (some p) h = push_pointer p (retain p h)

dropped : ℕ → Option (Option ℕ) → Heap → Heap
unfolding release remove_at
dropped i none h = h
dropped i (some p) h = release p (with_pointers (remove_at i h.pointers) h)

-- assign(const ThisType&): a temporary copy, swap, destructor. A place out of range names nothing.
assigned : ℕ → Option (Option ℕ) → Option (Option ℕ) → Heap → Heap
unfolding swap_and_drop retain
assigned i none here h = h
assigned i (some p) none h = h
assigned i (some p) (some old) h = swap_and_drop i p (some old) (retain p h)

-- The places that are swapped, with what stands there.
swapped : ℕ → ℕ → Option (Option ℕ) → Option (Option ℕ) → Heap → Heap
swapped i j none there h = h
swapped i j (some p) none h = h
swapped i j (some p) (some q) h = with_pointers (set (set h.pointers i q) j p) h

assigned_raw : ℕ → Option (Option ℕ) → Heap → Heap
unfolding swap_and_drop allocate
assigned_raw i none h = h
assigned_raw i (some old) h = swap_and_drop i (some h.next) (some old) (allocate h)

-- RefCountedPointer(other.raw()).
from_other : Option (Option ℕ) → Heap → Heap
unfolding allocate
from_other none h = h
from_other (some none) h = push_pointer none h
from_other (some (some b)) h = push_pointer (some h.next) (adopt b h)

-- assign(other.raw()), where the other pointer may be the same.
assigned_managed : ℕ → Option (Option ℕ) → Option (Option ℕ) → Heap → Heap
unfolding swap_and_drop allocate
assigned_managed i none here h = h
assigned_managed i (some p) none h = h
assigned_managed i (some none) (some old) h = swap_and_drop i none (some old) h
assigned_managed i (some (some b)) (some old) h =
    swap_and_drop i (some h.next) (some old) (adopt b h)

unfoldable pub apply : Op → Heap → Heap
unfolding copied_from dropped assigned assigned_raw swapped swap_and_drop allocate from_other
    assigned_managed
apply from_raw h = push_pointer (some h.next) (allocate h)
apply from_null h = push_pointer none h
apply (copy i) h = copied_from (get_elem? h.pointers i) h
apply (drop i) h = dropped i (get_elem? h.pointers i) h
apply (assign i j) h = assigned i (get_elem? h.pointers j) (get_elem? h.pointers i) h
apply (swap i j) h = swapped i j (get_elem? h.pointers i) (get_elem? h.pointers j) h
apply (assign_raw i) h = assigned_raw i (get_elem? h.pointers i) h
apply (from_managed j) h = from_other (get_elem? h.pointers j) h
apply (assign_managed i j) h =
    assigned_managed i (get_elem? h.pointers j) (get_elem? h.pointers i) h
apply (assign_null i) h = swap_and_drop i none (get_elem? h.pointers i) h

unfoldable pub apply_all : List Op → Heap → Heap
apply_all [] h = h
apply_all (o ∷ os) h = apply_all os (apply o h)
