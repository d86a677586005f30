-- ===== src/Insert.antt =====
-- Inserting a range of rows: Query::insertfrom() and replacefrom() (src/query.h), the insert policies
-- (src/insertpolicy.h) and the Transaction around it (src/transaction.h, src/transaction.cpp). A row
-- is the three texts that the code asks it for. The server is the parameter `answer`: whether it
-- accepts a statement after those that it got so far.
pub mod Groups
pub mod Whole
pub mod RowCount
pub mod Build
pub mod Begin
pub mod Packet
pub mod Tests
use libtabula.Prelude.{
  ℕ, zero, suc, ◌+◌, ◌-◌, ◌%◌, ◌^◌, Bool, true, false, not, ◌&&◌, List, [], ◌∷◌, ◌++◌, ltb, leb,
  if◌then◌else◌, length,
}
use libtabula.Prelude.Bytes.{Text, codes}

pub record Row : Type 0 where
  pub table : Text
  pub field_list : Text
  pub value_list : Text

-- RowCountInsertPolicy::can_add(): the answer and cur_rows_. `unsigned int` wraps at 2 ^ 32.
unfoldable pub row_count_can_add : ℕ → ℕ → Row → ℕ → Bool × ℕ
row_count_can_add max_rows size object cur_rows =
    let cur = suc cur_rows % 2 ^ 32 in if ltb max_rows cur then (false, 0) else (true, cur)

-- SizeThresholdInsertPolicy::can_add().
unfoldable pub size_threshold_can_add : ℕ → ℕ → Row → Bool
size_threshold_can_add limit size object = ltb size limit

-- MaxPacketInsertPolicy::can_add().
unfoldable pub max_packet_can_add : ℕ → ℕ → Row → Bool
max_packet_can_add limit size object =
    ltb size limit && leb (length (codes ",(" ++ (object.value_list ++ codes ")"))) (limit - size)

-- Which of the two functions builds the statements.
pub data Verb : Type 0 where
  insert_into replace_into : Verb

unfoldable pub verb_text : Verb → Text
verb_text insert_into = codes "INSERT INTO `"
verb_text replace_into = codes "REPLACE INTO `"

-- The beginning of a statement and a further row of it.
unfoldable pub first_row : Verb → Row → Text
unfolding verb_text
first_row verb r =
    verb_text verb
    ++ (r.table
        ++ (codes "` (" ++ (r.field_list ++ (codes ") VALUES (" ++ (r.value_list ++ codes ")")))))

unfoldable pub next_row : Row → Text
next_row r = codes ",(" ++ (r.value_list ++ codes ")")

-- The query's buffer, the policy's state, and the statements that the server got, in order.
pub record Session (S : Type 0) : Type 0 where
  pub policy : S
  pub buffer : Text
  pub log : List Text

-- How exec() ends: with true, with false, or with the exception BadQuery.
pub data Exec (S : Type 0) : Type 0 where
  sent refused threw : Session S → Exec S

-- How the loop ends: with the variables `success` and `empty`, or with an exception.
pub data Loop (S : Type 0) : Type 0 where
  ended : Bool → Bool → Session S → Loop S
  thrown : Session S → Loop S

pub data Outcome (S : Type 0) : Type 0 where
  returned raised : Session S → Outcome S

abbrev pub logged : {S : Type 0} → Text → Session S → Session S
logged t s = record s { log = s.log ++ t ∷ [] }

abbrev pub put_row : {S : Type 0} → Verb → Bool → Row → Session S → Session S
put_row verb empty r s = record s {
  buffer = s.buffer ++ (if empty then first_row verb r else next_row r);
}

-- A test of the policy with the length of the statement so far.
abbrev pub ask : {S : Type 0} → (ℕ → Row → S → Bool × S) → Row → Session S → Bool × Session S
ask can_add r s =
    let (can, p) = can_add (length s.buffer) r s.policy in (can, record s { policy = p })

-- `throws` is throw_exceptions() of the query, `conn_throws` that of its connection.
module _ {S : Type 0} (verb : Verb) (can_add : ℕ → Row → S → Bool × S)
    (answer : List Text → Text → Bool) (throws conn_throws : Bool) where
  -- exec() of a query without a template: success resets the buffer.
  unfoldable pub exec : Session S → Exec S
  exec s =
      if answer s.log s.buffer
      then sent (record (logged s.buffer s) { buffer = [] })
      else if throws
      then threw (logged s.buffer s)
      else refused (logged s.buffer s)

  -- The second test of the policy; `more` is the rest of the loop.
  retry : (Bool → Session S → Loop S) → Row → Bool × Session S → Loop S
  retry more r (true, s) = more false (put_row verb true r s)
  retry more r (false, s) = if throws then thrown s else ended false true s

  flushed : (Bool → Session S → Loop S) → Row → Exec S → Loop S
  unfolding retry
  flushed more r (sent s) = retry more r (ask can_add r s)
  flushed more r (refused s) = ended false false s
  flushed more r (threw s) = thrown s

  -- The body of the loop, behind the first test of the policy.
  body : (Bool → Session S → Loop S) → Row → Bool → Bool × Session S → Loop S
  unfolding flushed exec
  body more r empty (true, s) = more false (put_row verb empty r s)
  body more r true (false, s) = retry more r (ask can_add r s)
  body more r false (false, s) = flushed more r (exec s)

  unfoldable pub loop : List Row → Bool → Session S → Loop S
  unfolding body
  loop [] empty s = ended true empty s
  loop (r ∷ rows) empty s = body (loop rows) r empty (ask can_add r s)

  -- A statement of the transaction, by a query of its own: whether it raises an exception.
  abbrev pub execute : Text → Session S → Bool × Session S
  execute t s = (not (answer s.log t) && conn_throws, logged t s)

  -- The destructor of a transaction that is not finished; it eats exceptions.
  abbrev pub destroy : Session S → Session S
  destroy s = (execute (codes "ROLLBACK") s).1

  -- commit() or rollback(), and the destructor behind it.
  leave : Text → Session S → Outcome S
  leave t s = let (failed, s') = execute t s in if failed then raised (destroy s') else returned s'

  finish : Exec S → Outcome S
  unfolding leave
  finish (sent s) = leave (codes "COMMIT") s
  finish (refused s) = leave (codes "ROLLBACK") s
  finish (threw s) = raised (destroy s)

  after_loop : Loop S → Outcome S
  unfolding finish exec leave
  after_loop (ended false empty s) = leave (codes "ROLLBACK") s
  after_loop (ended true true s) = leave (codes "COMMIT") s
  after_loop (ended true false s) = finish (exec s)
  after_loop (thrown s) = raised (destroy s)

  begun : List Row → Bool × Session S → Outcome S
  unfolding after_loop loop
  begun rows (true, s) = raised s
  begun rows (false, s) = after_loop (loop rows true s)

  -- The body that insertfrom() and replacefrom() share but for the words of the statement.
  unfoldable pub fill_from : List Row → Session S → Outcome S
  unfolding begun
  fill_from [] s = returned (record s { buffer = [] })
  fill_from (r ∷ rows) s =
      begun (r ∷ rows) (execute (codes "START TRANSACTION") (record s { buffer = [] }))

module _ {S : Type 0} (can_add : ℕ → Row → S → Bool × S) (answer : List Text → Text → Bool)
    (throws conn_throws : Bool) where
  unfoldable pub insertfrom : List Row → Session S → Outcome S
  unfolding fill_from
  insertfrom rows s = fill_from insert_into can_add answer throws conn_throws rows s

  unfoldable pub replacefrom : List Row → Session S → Outcome S
  unfolding fill_from
  replacefrom rows s = fill_from replace_into can_add answer throws conn_throws rows s
