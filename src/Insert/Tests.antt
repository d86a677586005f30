-- ===== src/Insert/Tests.antt =====
-- Tests of insertions, and their theorems at concrete inputs.
use libtabula.Prelude.{
  ◌≤◌, ◌<◌, ◌+◌, ℕ, ◌≤◌, ◌≡◌, refl, Bool, true, List, [], ◌∷◌, All, arith, length, ltb,
}
use libtabula.Prelude.Bytes.{Text, codes}
use libtabula.Insert.{
  max_packet_can_add, Row, insert_into, verb_text, replacefrom, Session, returned, insertfrom,
  row_count_can_add, first_row, next_row,
}
use libtabula.Insert.Build.{
  SendsOne, insert_range, replace_range, further_rows, bare_row, insert_range-insertfrom,
}
use libtabula.Insert.Packet.{max_packet_bounds}
use libtabula.Insert.RowCount.{insertfrom-Commits}

abbrev row_of : Text → Row
row_of v = record { table = codes "t"; field_list = codes "v"; value_list = v }

abbrev fresh : Session ℕ
fresh = record { policy = 0; buffer = codes "select"; log = [] }

abbrev accepts_all : List Text → Text → Bool
accepts_all log t = true

abbrev refuses_third : List Text → Text → Bool
refuses_third log t = ltb (length log) 2

abbrev three : List Row
three = row_of (codes "1") ∷ row_of (codes "2") ∷ row_of (codes "3") ∷ []

insertfrom-Commits_example :
    All
      (λ g. length g ≤ 2)
      ((row_of (codes "1") ∷ row_of (codes "2") ∷ []) ∷ (row_of (codes "3") ∷ []) ∷ [])
    × (((f : Session ℕ) × (insertfrom (row_count_can_add 2) accepts_all true true three fresh
            ≡ returned f)
          × (f.buffer ≡ [])
          × (f.log
              ≡ codes "START TRANSACTION"
                ∷ codes "INSERT INTO `t` (v) VALUES (1),(2)"
                ∷ codes "INSERT INTO `t` (v) VALUES (3)"
                ∷ codes "COMMIT"
                ∷ []))
        × ((f : Session ℕ) × (replacefrom (row_count_can_add 2) accepts_all true true three fresh
              ≡ returned f)
            × (f.buffer ≡ [])
            × (f.log
                ≡ codes "START TRANSACTION"
                  ∷ codes "REPLACE INTO `t` (v) VALUES (1),(2)"
                  ∷ codes "REPLACE INTO `t` (v) VALUES (3)"
                  ∷ codes "COMMIT"
                  ∷ [])))
unfolding first_row next_row verb_text
insertfrom-Commits_example =
    insertfrom-Commits 2 accepts_all true true (ground arith) (ground arith) (λ log t. refl)
      (row_of (codes "1")) (row_of (codes "2") ∷ row_of (codes "3") ∷ []) fresh refl

max_packet_bounds_case :
    ((limit size : ℕ)
      → max_packet_can_add limit size (row_of (codes "1")) ≡ true
      → size + length (next_row (row_of (codes "1"))) ≤ limit)
    × ((limit : ℕ) × (max_packet_can_add limit 0 (row_of (codes "1")) ≡ true)
        × (limit < length (first_row insert_into (row_of (codes "1")))))
max_packet_bounds_case = max_packet_bounds (row_of (codes "1"))

abbrev lets_all : ℕ → Row → ℕ → Bool × ℕ
lets_all size r p = (true, p)

-- The statements of the two ranges, each alone in a transaction.
insert_range-insertfrom_example :
    SendsOne lets_all accepts_all true true
      (λ size r p. refl)
      (λ log t. refl)
      (codes "START TRANSACTION" ∷ [])
      (codes "INSERT INTO `t` (v) VALUES (1),(2),(3)")
      (insertfrom lets_all accepts_all true true three fresh)
    × SendsOne lets_all accepts_all true true
        (λ size r p. refl)
        (λ log t. refl)
        (codes "START TRANSACTION" ∷ [])
        (codes "REPLACE INTO `t` (v) VALUES (1),(2),(3)")
        (replacefrom lets_all accepts_all true true three fresh)
unfolding insert_range replace_range further_rows bare_row first_row next_row verb_text
insert_range-insertfrom_example =
    insert_range-insertfrom lets_all accepts_all true true (λ size r p. refl) (λ log t. refl)
      (row_of (codes "1")) (row_of (codes "2") ∷ row_of (codes "3") ∷ []) fresh

-- replace() for a range writes the table without back quotes, insert() writes it with them.
replace_range_case :
    (replace_range three fresh).buffer ≡ codes "REPLACE INTO t (v) VALUES (1),(2),(3)"
unfolding replace_range further_rows bare_row next_row
replace_range_case = refl
