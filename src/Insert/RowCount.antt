-- ===== src/Insert/RowCount.antt =====
-- An insertion by the number of rows.
use libtabula.Prelude.{
  ℕ, suc, ◌+◌, ◌^◌, ◌≤◌, ◌<◌, ◌≡◌, refl, Bool, true, false, List, [], ◌∷◌, ◌++◌, map, All,
  length-append, append_assoc, append-nil, ap, Bool-cases, inl, inr, arith, length, ltb,
  if◌then◌else◌,
}
use libtabula.Prelude.Bytes.{Text, codes}
use libtabula.Insert.{
  Row, Verb, insert_into, replace_into, Session, Outcome, returned, logged, exec, loop, body, retry,
  flushed, first_row, next_row, after_loop, begun, fill_from, insertfrom, replacefrom,
  row_count_can_add, finish, leave, sent,
}
use libtabula.Insert.Groups.{insert_text, values, values_snoc}

-- The rows in groups of n, the open group being `group`.
abbrev pub chunks_from : ℕ → List Row → List Row → List (List Row)
chunks_from n group [] = group ∷ []
chunks_from n group (r ∷ rows) =
    if ltb n (suc (length group))
    then group ∷ chunks_from n (r ∷ []) rows
    else chunks_from n (group ++ r ∷ []) rows

chunks_from-bounded :
    (n : ℕ) (group rows : List Row)
    → 1 ≤ n
    → length group ≤ n
    → All (λ g. length g ≤ n) (chunks_from n group rows)
chunks_from-bounded n group [] h k = (k, tt)
chunks_from-bounded n group (r ∷ rows) h k = elim (Bool-cases (ltb n (suc (length group)))) [
  | inl full ↦ rw full (k, chunks_from-bounded n (r ∷ []) rows h h)
  | inr free ↦ rw free (
      chunks_from-bounded n (group ++ r ∷ []) rows h (ground (arith, length-append group (r ∷ []))))
]

module _ (verb : Verb) (n : ℕ) (answer : List Text → Text → Bool) (throws conn_throws : Bool)
    (some_row : 1 ≤ n) (no_wrap : n + 1 < 2 ^ 32)
    (accepts : (log : List Text) (t : Text) → answer log t ≡ true) where
  abbrev at : List Row → List Text → Session ℕ
  at group log = record { policy = length group; buffer = insert_text verb group; log = log }

  exec-sent :
      (s : Session ℕ)
      → exec verb (row_count_can_add n) answer throws conn_throws s
        ≡ sent (record (logged s.buffer s) { buffer = [] })
  unfolding exec
  exec-sent s = rw (accepts s.log s.buffer)

  can_add_full :
      (size cur : ℕ) (r : Row)
      → ltb n (suc cur) ≡ true
      → cur ≤ n
      → row_count_can_add n size r cur ≡ (false, 0)
  unfolding row_count_can_add
  can_add_full size cur r h k = ground arith

  can_add_free :
      (size cur : ℕ) (r : Row)
      → ltb n (suc cur) ≡ false
      → row_count_can_add n size r cur ≡ (true, suc cur)
  unfolding row_count_can_add
  can_add_free size cur r h = ground arith

  -- The loop and what follows it, from an open group.
  abbrev pub Commits : List (List Row) → List Text → Outcome ℕ → Type 0
  Commits groups log o =
      (f : Session ℕ) × (o ≡ returned f)
      × (f.buffer ≡ [])
      × (f.log ≡ (log ++ map (insert_text verb) groups) ++ codes "COMMIT" ∷ [])

  Commits-cons :
      (g : List Row) (groups : List (List Row)) (log : List Text) (o : Outcome ℕ)
      → Commits groups (log ++ insert_text verb g ∷ []) o
      → Commits (g ∷ groups) log o
  Commits-cons g groups log o (f, e, b, l) = (
    f,
    e,
    b,
    rw l (
        ap (λ t. t ++ codes "COMMIT" ∷ [])
          (append_assoc log (insert_text verb g ∷ []) (map (insert_text verb) groups))),
  )

  loop-Commits :
      (rows group : List Row) (x : Row) (log : List Text)
      → length (x ∷ group) ≤ n
      → Commits (chunks_from n (x ∷ group) rows) log (
          after_loop verb (row_count_can_add n) answer throws conn_throws (
            loop verb
              (row_count_can_add n)
              answer
              throws
              conn_throws
              rows
              false
              (at (x ∷ group) log)))
  unfolding loop after_loop body finish leave flushed retry
  loop-Commits [] group x log k = rw (exec-sent (at (x ∷ group) log)) (
      rw (accepts (log ++ insert_text verb (x ∷ group) ∷ []) (codes "COMMIT")) (
        record (at [] log) {
          log = (log ++ insert_text verb (x ∷ group) ∷ []) ++ codes "COMMIT" ∷ [];
          policy = length (x ∷ group);
        },
        refl,
        refl,
        refl,
      ))
  loop-Commits (r ∷ rows) group x log k = elim (Bool-cases (ltb n (suc (length (x ∷ group))))) [
    | inl more ↦
        let size = length (insert_text verb (x ∷ group)) in
        rw (more, can_add_full size (length (x ∷ group)) r more k)
          (rw (exec-sent (record (at (x ∷ group) log) { policy = 0 })) (
            rw (can_add_free 0 0 r (ground arith)) (
              rw (← append-nil (first_row verb r)) (
                Commits-cons (x ∷ group) (chunks_from n (r ∷ []) rows) log _
                  (loop-Commits rows [] r (log ++ insert_text verb (x ∷ group) ∷ []) some_row)))))
    | inr less ↦
        let one_more : suc (length (x ∷ group)) ≡ length (x ∷ (group ++ r ∷ [])) =
          ground (arith, length-append group (r ∷ [])) in
        let fits : length (x ∷ (group ++ r ∷ [])) ≤ n = ground (arith, one_more) in
        let size = length (insert_text verb (x ∷ group)) in
        rw (less, can_add_free size (length (x ∷ group)) r less)
          (rw (append_assoc (first_row verb x) (values group) (next_row r), ← values_snoc group r)
            (rw one_more (loop-Commits rows (group ++ r ∷ []) x log fits)))
  ]

  fill_from-Commits :
      (r : Row) (rows : List Row) (s : Session ℕ)
      → s.policy ≡ 0
      → All (λ g. length g ≤ n) (chunks_from n (r ∷ []) rows)
        × Commits
            (chunks_from n (r ∷ []) rows)
            (s.log ++ codes "START TRANSACTION" ∷ [])
            (fill_from verb (row_count_can_add n) answer throws conn_throws (r ∷ rows) s)
  unfolding fill_from begun loop body
  fill_from-Commits r rows s fresh = (
    chunks_from-bounded n (r ∷ []) rows some_row some_row,
    rw (accepts s.log (codes "START TRANSACTION"), fresh)
        (rw (can_add_free 0 0 r (ground arith)) (
          rw (← append-nil (first_row verb r))
            (loop-Commits rows [] r (s.log ++ codes "START TRANSACTION" ∷ []) some_row))),
  )

module _ (n : ℕ) (answer : List Text → Text → Bool) (throws conn_throws : Bool) (some_row : 1 ≤ n)
    (no_wrap : n + 1 < 2 ^ 32) (accepts : (log : List Text) (t : Text) → answer log t ≡ true) where
  -- If the server accepts everything, insertfrom() or replacefrom() with at most n rows each time, n
  -- at least one and n + 1 below 2 ^ 32, and with a policy that has counted no row yet, sends the rows in
  -- groups, commits, and returns with an empty buffer. A group is closed when the next row would be
  -- one too many, so none has more than n rows.
  pub insertfrom-Commits :
      (r : Row) (rows : List Row) (s : Session ℕ)
      → s.policy ≡ 0
      → All (λ g. length g ≤ n) (chunks_from n (r ∷ []) rows)
        × (Commits insert_into n answer throws conn_throws some_row no_wrap accepts
              (chunks_from n (r ∷ []) rows)
              (s.log ++ codes "START TRANSACTION" ∷ [])
              (insertfrom (row_count_can_add n) answer throws conn_throws (r ∷ rows) s)
            × Commits replace_into n answer throws conn_throws some_row no_wrap accepts
                (chunks_from n (r ∷ []) rows)
                (s.log ++ codes "START TRANSACTION" ∷ [])
                (replacefrom (row_count_can_add n) answer throws conn_throws (r ∷ rows) s))
  unfolding insertfrom replacefrom
  insertfrom-Commits r rows s fresh =
      let filled = λ (verb : Verb).
        fill_from-Commits verb n answer throws conn_throws some_row no_wrap accepts r rows s
          fresh in
      ((filled insert_into).0, ((filled insert_into).1, (filled replace_into).1))
