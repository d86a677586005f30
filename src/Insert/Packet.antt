-- ===== src/Insert/Packet.antt =====
-- What MaxPacketInsertPolicy bounds.
use libtabula.Prelude.{ℕ, ◌+◌, ◌≤◌, ◌<◌, ◌≡◌, true, ◌++◌, length, length-append, arith}
use libtabula.Prelude.Bytes.{codes}
use libtabula.Insert.{Row, insert_into, verb_text, max_packet_can_add, first_row, next_row}

length-next_row : (r : Row) → length (next_row r) ≡ length r.value_list + 3
unfolding next_row
length-next_row r = omega (arith, length-append r.value_list (codes ")"))

length-first_row :
    (r : Row)
    → length (first_row insert_into r)
      ≡ length r.table + (length r.field_list + (length r.value_list + 27))
unfolding first_row verb_text
length-first_row r = omega (
  arith,
  length-append r.table
      (codes "` (" ++ (r.field_list ++ (codes ") VALUES (" ++ (r.value_list ++ codes ")")))),
  length-append r.field_list (codes ") VALUES (" ++ (r.value_list ++ codes ")")),
  length-append r.value_list (codes ")"),
)

-- A further row that the policy lets in keeps the statement within the maximum. The first row of a
-- statement is measured without the statement's beginning, though: for every row there is a maximum
-- with which the policy lets the row into an empty statement that is then longer than the maximum.
pub max_packet_bounds :
    (r : Row)
    → ((limit size : ℕ)
        → max_packet_can_add limit size r ≡ true
        → size + length (next_row r) ≤ limit)
      × ((limit : ℕ) × (max_packet_can_add limit 0 r ≡ true)
          × (limit < length (first_row insert_into r)))
unfolding max_packet_can_add
max_packet_bounds r = (
  (λ limit size h. ground (arith, length-next_row r, length-append r.value_list (codes ")"))),
  (
    length r.value_list + 3,
    ground (arith, length-append r.value_list (codes ")")),
    omega (arith, length-first_row r),
  ),
)
