-- ===== src/RefCount/Tests.antt =====
-- Tests of reference counts, and their theorem at a concrete input.
use libtabula.Prelude.{ℕ, ◌≡◌, refl, true, get_elem?, List, [], ◌∷◌, some, arith}
use libtabula.RefCount.{
  Heap, Op, from_raw, drop, assign_managed, remove_at, copy, assign, apply, apply_all, empty_heap,
  allocate, retain, release,
}
use libtabula.RefCount.Once.{all_fresh, DestroysItsOwn, apply_all-once}
use libtabula.RefCount.Balance.{holders}

-- Two pointers to one object; one is assigned to itself, then the other is replaced.
abbrev program : List Op
program = from_raw ∷ copy 0 ∷ assign 0 0 ∷ from_raw ∷ assign 1 0 ∷ []

program_pointers : (apply_all program empty_heap).pointers ≡ some 1 ∷ some 1 ∷ some 0 ∷ []
unfolding apply_all apply allocate retain release
program_pointers = refl

apply_all-once_example :
    (((apply_all program empty_heap).refs 1 ≡ 2) × ((apply_all program empty_heap).deletions 1 ≡ 0))
    × ((all_fresh program ≡ true → (apply_all program empty_heap).objects 1 ≡ 1)
        × ((i : ℕ)
            → get_elem? (apply_all program empty_heap).pointers i ≡ some (some 1)
            → holders 1 (apply_all program empty_heap).pointers ≡ 1
            → DestroysItsOwn i 1
                (apply_all program empty_heap)
                (apply (assign_managed i i) (apply_all program empty_heap))))
unfolding apply_all apply allocate retain release
apply_all-once_example = apply_all-once program 1 (ground arith)

-- A pointer that gets its own raw pointer: the object 0 is destroyed, and destroyed once more with the
-- pointer.
abbrev reset_to_own : Heap
reset_to_own = apply_all (from_raw ∷ assign_managed 0 0 ∷ []) empty_heap

reset_to_own_case :
    (reset_to_own.pointers ≡ some 1 ∷ [])
    × ((reset_to_own.objects 1 ≡ 0)
        × ((reset_to_own.deletions 0 ≡ 1) × ((apply (drop 0) reset_to_own).deletions 1 ≡ 1)))
unfolding apply_all apply allocate retain release remove_at
reset_to_own_case = (refl, (refl, (refl, refl)))
