-- ===== src/Insert/Build.antt =====
-- The statements that Query builds of one row, of a range, or of an old and a new row: insert(),
-- replace() and update() of src/query.h. What insertfrom() sends is the measure for the ranges.
use libtabula.Prelude.{
  ℕ, ◌≡◌, refl, ap, subst, ◌∙◌, Bool, true, false, List, [], ◌∷◌, ◌++◌, append_assoc, append-nil,
  length,
}
use libtabula.Prelude.Bytes.{Text, codes}
use libtabula.Insert.{
  Row, Verb, insert_into, replace_into, verb_text, first_row, next_row, Session, Outcome, returned,
  exec, loop, body, after_loop, finish, leave, begun, fill_from, insertfrom, replacefrom,
}
use libtabula.Insert.Groups.{insert_text, values, values_snoc}

-- reset(), and the text that is streamed into the query then.
abbrev pub built : {S : Type 0} → Text → Session S → Session S
built t s = record s { buffer = t }

-- The loop over the rows behind the first.
unfoldable pub further_rows : List Row → Text
further_rows [] = []
further_rows (r ∷ rows) = next_row r ++ further_rows rows

-- The head of a statement of replace() for a range, which has no back quotes.
unfoldable pub bare_row : Row → Text
bare_row r =
    codes "REPLACE INTO "
    ++ (r.table
        ++ (codes " (" ++ (r.field_list ++ (codes ") VALUES (" ++ (r.value_list ++ codes ")")))))

-- A row as update() sees it: its table, equal_list(), and equal_list(" AND ", sql_use_compare).
pub record Entry : Type 0 where
  pub table : Text
  pub equal_list : Text
  pub and_list : Text

module _ {S : Type 0} where
  unfoldable pub insert : Row → Session S → Session S
  insert v s = built (first_row insert_into v) s

  unfoldable pub insert_range : List Row → Session S → Session S
  unfolding further_rows
  insert_range [] s = built [] s
  insert_range (r ∷ rows) s = built (first_row insert_into r ++ further_rows rows) s

  unfoldable pub replace : Row → Session S → Session S
  replace v s = built (first_row replace_into v) s

  unfoldable pub replace_range : List Row → Session S → Session S
  unfolding further_rows bare_row
  replace_range [] s = built [] s
  replace_range (r ∷ rows) s = built (bare_row r ++ further_rows rows) s

  unfoldable pub update : Entry → Entry → Session S → Session S
  update o n s =
      built
        (codes "UPDATE `"
          ++ (o.table ++ (codes "` SET " ++ (n.equal_list ++ (codes " WHERE " ++ o.and_list)))))
        s

-- A row whose table is written with back quotes.
abbrev pub back_quoted : Row → Row
back_quoted r = record r { table = codes "`" ++ (r.table ++ codes "`") }

further_rows-values : (rows : List Row) → further_rows rows ≡ values rows
unfolding further_rows
further_rows-values [] = refl
further_rows-values (r ∷ rows) = ap (λ t. next_row r ++ t) (further_rows-values rows)

insert_range-text :
    {S : Type 0} (r : Row) (rows : List Row) (s : Session S)
    → (insert_range (r ∷ rows) s).buffer ≡ insert_text insert_into (r ∷ rows)
unfolding insert_range
insert_range-text r rows s = ap (λ t. first_row insert_into r ++ t) (further_rows-values rows)

bare_row-back_quoted : (r : Row) → bare_row (back_quoted r) ≡ first_row replace_into r
unfolding bare_row first_row verb_text
bare_row-back_quoted r = ap (λ t. codes "REPLACE INTO `" ++ t) (append_assoc r.table (codes "`") _)

replace_range-text :
    {S : Type 0} (r : Row) (rows : List Row) (s : Session S)
    → (replace_range (back_quoted r ∷ rows) s).buffer ≡ insert_text replace_into (r ∷ rows)
unfolding replace_range
replace_range-text r rows s =
    ap (λ t. t ++ further_rows rows) (bare_row-back_quoted r)
    ∙ ap (λ t. first_row replace_into r ++ t) (further_rows-values rows)

module _ {S : Type 0} (can_add : ℕ → Row → S → Bool × S) (answer : List Text → Text → Bool)
    (throws conn_throws : Bool) (lets : (size : ℕ) (r : Row) (p : S) → (can_add size r p).0 ≡ true)
    (accepts : (log : List Text) (t : Text) → answer log t ≡ true) where
  -- One statement, and the COMMIT behind it.
  abbrev pub SendsOne : List Text → Text → Outcome S → Type 0
  SendsOne log t o =
      (f : Session S) × (o ≡ returned f) × (f.log ≡ (log ++ t ∷ []) ++ codes "COMMIT" ∷ [])

  loop-SendsOne :
      (verb : Verb) (rows group : List Row) (x : Row) (p : S) (log : List Text)
      → SendsOne log (insert_text verb (x ∷ (group ++ rows))) (
          after_loop verb can_add answer throws conn_throws (
            loop verb can_add answer throws conn_throws rows false
              (record { policy = p; buffer = insert_text verb (x ∷ group); log = log })))
  unfolding loop after_loop body finish leave exec
  loop-SendsOne verb [] group x p log =
      rw (append-nil group, accepts log (insert_text verb (x ∷ group)))
        (rw (accepts (log ++ insert_text verb (x ∷ group) ∷ []) (codes "COMMIT")) (
          record {
            policy = p;
            buffer = [];
            log = (log ++ insert_text verb (x ∷ group) ∷ []) ++ codes "COMMIT" ∷ [];
          },
          refl,
          refl,
        ))
  loop-SendsOne verb (r ∷ rows) group x p log =
      rw (lets (length (insert_text verb (x ∷ group))) r p) (
        rw
          (
            append_assoc (first_row verb x) (values group) (next_row r),
            ← values_snoc group r,
            ← append_assoc group (r ∷ []) rows,
          )
          (loop-SendsOne verb rows (group ++ r ∷ []) x _ log))

  fill_from-SendsOne :
      (verb : Verb) (r : Row) (rows : List Row) (s : Session S)
      → SendsOne
          (s.log ++ codes "START TRANSACTION" ∷ [])
          (insert_text verb (r ∷ rows))
          (fill_from verb can_add answer throws conn_throws (r ∷ rows) s)
  unfolding fill_from begun loop body
  fill_from-SendsOne verb r rows s =
      rw (accepts s.log (codes "START TRANSACTION"), lets 0 r s.policy)
        (subst
          (λ b. SendsOne (s.log ++ codes "START TRANSACTION" ∷ []) (insert_text verb (r ∷ rows)) (
            after_loop verb can_add answer throws conn_throws (
              loop verb can_add answer throws conn_throws rows false (record {
                policy = (can_add 0 r s.policy).1;
                buffer = b;
                log = s.log ++ codes "START TRANSACTION" ∷ [];
              }))))
          (append-nil (first_row verb r))
          (loop-SendsOne verb rows [] r (can_add 0 r s.policy).1
            (s.log ++ codes "START TRANSACTION" ∷ [])))

  -- If the policy lets every row in and the server accepts everything, insertfrom() sends the
  -- statement that insert() builds of the same rows, alone in a transaction. What replacefrom() sends
  -- is what replace() builds of them if the table of the first row has back quotes of its own.
  pub insert_range-insertfrom :
      (r : Row) (rows : List Row) (s : Session S)
      → SendsOne
          (s.log ++ codes "START TRANSACTION" ∷ [])
          (insert_range (r ∷ rows) s).buffer
          (insertfrom can_add answer throws conn_throws (r ∷ rows) s)
        × SendsOne
            (s.log ++ codes "START TRANSACTION" ∷ [])
            (replace_range (back_quoted r ∷ rows) s).buffer
            (replacefrom can_add answer throws conn_throws (r ∷ rows) s)
  unfolding insertfrom replacefrom
  insert_range-insertfrom r rows s = (
    rw (insert_range-text r rows s) (fill_from-SendsOne insert_into r rows s),
    rw (replace_range-text r rows s) (fill_from-SendsOne replace_into r rows s),
  )
