-- ===== src/Insert/Begin.antt =====
-- The constructors of Transaction (src/transaction.h, src/transaction.cpp), over one query whose text
-- is reset by an execute() that succeeds, and only then.
use libtabula.Prelude.{◌≡◌, refl, Bool, true, false, List, [], ◌∷◌, ◌++◌, if◌then◌else◌}
use libtabula.Prelude.Bytes.{Text, codes}

data IsolationLevel : Type 0 where
  read_uncommitted read_committed repeatable_read serializable : IsolationLevel

data IsolationScope : Type 0 where
  this_transaction session global : IsolationScope

unfoldable level_text : IsolationLevel → Text
level_text read_uncommitted = codes "READ UNCOMMITTED"
level_text read_committed = codes "READ COMMITTED"
level_text repeatable_read = codes "REPEATABLE READ"
level_text serializable = codes "SERIALIZABLE"

unfoldable scope_text : IsolationScope → Text
scope_text this_transaction = []
scope_text session = codes "SESSION "
scope_text global = codes "GLOBAL "

unfoldable start_text : Bool → Text
start_text consistent =
    codes "START TRANSACTION" ++ (if consistent then codes " WITH CONSISTENT SNAPSHOT" else [])

unfoldable set_text : IsolationLevel → IsolationScope → Text
unfolding level_text scope_text
set_text level scope =
    codes "SET " ++ (scope_text scope ++ (codes "TRANSACTION ISOLATION LEVEL " ++ level_text level))

-- The text of the query, and the statements that the server got, in order.
record Starter : Type 0 where
  pub text : Text
  pub log : List Text

-- A constructor ends with a transaction that is not finished, or with an exception.
data Begun : Type 0 where
  unfinished thrown_by : Starter → Begun

module _ (answer : List Text → Text → Bool) (conn_throws : Bool) where
  unfoldable execute_text : Starter → Begun
  execute_text s =
      if answer s.log s.text
      then unfinished (record { text = []; log = s.log ++ s.text ∷ [] })
      else if conn_throws
      then thrown_by (record { text = s.text; log = s.log ++ s.text ∷ [] })
      else unfinished (record { text = s.text; log = s.log ++ s.text ∷ [] })

  -- Transaction(conn, consistent).
  unfoldable begin : Bool → List Text → Begun
  unfolding execute_text start_text
  begin consistent log = execute_text (record { text = start_text consistent; log = log })

  unfoldable start_after : Bool → Begun → Begun
  unfolding execute_text
  start_after consistent (thrown_by s) = thrown_by s
  start_after consistent (unfinished s) =
      execute_text (record s { text = s.text ++ start_text consistent })

  -- Transaction(conn, level, scope, consistent).
  unfoldable begin_isolated : IsolationLevel → IsolationScope → Bool → List Text → Begun
  unfolding start_after execute_text
  begin_isolated level scope consistent log =
      start_after consistent (execute_text (record { text = set_text level scope; log = log }))

  -- If the server takes the level, the transaction begins as one without a level does behind it.
  begin_isolated-begin :
      (level : IsolationLevel) (scope : IsolationScope) (consistent : Bool) (log : List Text)
      → answer log (set_text level scope) ≡ true
      → begin_isolated level scope consistent log
        ≡ begin consistent (log ++ set_text level scope ∷ [])
  unfolding begin_isolated execute_text begin start_after
  begin_isolated-begin level scope consistent log h = rw h refl

  -- If it does not, and there are no exceptions, the statement that is to begin the transaction is
  -- sent behind the text of the statement that failed, and the transaction passes for begun whatever
  -- the server answers.
  begin_isolated_glued :
      (level : IsolationLevel) (scope : IsolationScope) (consistent : Bool) (log : List Text)
      → conn_throws ≡ false
      → answer log (set_text level scope) ≡ false
      → (s : Starter) × ((begin_isolated level scope consistent log ≡ unfinished s)
          × (s.log
              ≡ (log ++ set_text level scope ∷ [])
                ++ (set_text level scope ++ start_text consistent) ∷ []))
  unfolding begin_isolated execute_text start_after
  begin_isolated_glued level scope consistent log quiet refused =
      rw (refused, quiet)
        (started (
          answer (log ++ set_text level scope ∷ [])
            (set_text level scope ++ start_text consistent)))
    where
      started :
          (b : Bool)
          → (s : Starter) × (((if b
                  then unfinished (record {
                    text = [];
                    log =
                        (log ++ set_text level scope ∷ [])
                        ++ (set_text level scope ++ start_text consistent) ∷ [];
                  })
                  else unfinished (record {
                    text = set_text level scope ++ start_text consistent;
                    log =
                        (log ++ set_text level scope ∷ [])
                        ++ (set_text level scope ++ start_text consistent) ∷ [];
                  }))
                ≡ unfinished s)
              × (s.log
                  ≡ (log ++ set_text level scope ∷ [])
                    ++ (set_text level scope ++ start_text consistent) ∷ []))
      started true = (_, (refl, refl))
      started false = (_, (refl, refl))
