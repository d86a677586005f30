-- ===== src/Insert/Whole.antt =====
-- An insertion is committed as a whole or not at all.
use libtabula.Prelude.{◌≡◌, Bool, List, [], ◌∷◌, ◌++◌, map, ◌⊎◌}
use libtabula.Prelude.Bytes.{Text, codes}
use libtabula.Insert.{Row, Verb, Outcome, returned, raised}
use libtabula.Insert.Groups.{insert_text, Accepted, joined, Stopped}

-- The statements behind `base` hold all rows in order, the server accepted each, and `marks` follow.
pub record Full (answer : List Text → Text → Bool) (verb : Verb) (base : List Text) (all : List Row)
    (marks : List Text) (log : List Text) : Type 0 where
  pub groups : List (List Row)
  pub rows : all ≡ joined groups
  pub log_eq : log ≡ (base ++ map (insert_text verb) groups) ++ marks
  pub accepted : Accepted answer base (map (insert_text verb) groups)

-- They hold the first rows only, or all of them.
pub record Part (verb : Verb) (base : List Text) (all : List Row) (marks : List Text)
    (log : List Text) : Type 0 where
  pub before : List Text
  pub stopped : Stopped verb base all before
  pub log_eq : log ≡ before ++ marks

abbrev pub Verdict :
    {S : Type 0} → (List Text → Text → Bool) → Verb → List Text → List Row → Outcome S → Type 0
Verdict answer verb base all (returned s) =
    Full answer verb base all (codes "COMMIT" ∷ []) s.log
    ⊎ Part verb base all (codes "ROLLBACK" ∷ []) s.log
Verdict answer verb base all (raised s) =
    (s.log ≡ base)
    ⊎ (Full answer verb base all (codes "COMMIT" ∷ codes "ROLLBACK" ∷ []) s.log
        ⊎ (Part verb base all (codes "ROLLBACK" ∷ []) s.log
            ⊎ Part verb base all (codes "ROLLBACK" ∷ codes "ROLLBACK" ∷ []) s.log))
