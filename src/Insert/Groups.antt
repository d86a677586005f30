-- ===== src/Insert/Groups.antt =====
-- Which rows each statement of an insertion holds.
use mathlib.Core.List.{map-append}
use libtabula.Prelude.{
  ℕ, ◌≡◌, refl, Bool, true, false, List, [], ◌∷◌, ◌++◌, map, append_assoc, append-nil, ap, subst,
  sym, ◌∙◌, Bool-cases, inl, inr,
}
use libtabula.Prelude.Bytes.{Text}
use libtabula.Insert.{
  Row, Verb, Session, Exec, sent, refused, threw, Loop, ended, thrown, first_row, next_row, logged,
  exec, put_row, ask, retry, flushed, body, loop,
}

abbrev pub values : List Row → Text
values [] = []
values (r ∷ rows) = next_row r ++ values rows

-- The statement that inserts a group of rows.
abbrev pub insert_text : Verb → List Row → Text
insert_text verb [] = []
insert_text verb (r ∷ rows) = first_row verb r ++ values rows

abbrev pub is_nil : List Row → Bool
is_nil [] = true
is_nil (r ∷ rows) = false

abbrev pub joined : List (List Row) → List Row
joined [] = []
joined (g ∷ gs) = g ++ joined gs

joined_snoc :
    (gs : List (List Row)) (g rest : List Row)
    → joined (gs ++ g ∷ []) ++ rest ≡ joined gs ++ (g ++ rest)
joined_snoc [] g rest = ap (λ l. l ++ rest) (append-nil g)
joined_snoc (x ∷ gs) g rest =
    append_assoc x (joined (gs ++ g ∷ [])) rest
    ∙ ap (λ l. x ++ l) (joined_snoc gs g rest)
    ∙ sym (append_assoc x (joined gs) (g ++ rest))

pub values_snoc : (rows : List Row) (r : Row) → values (rows ++ r ∷ []) ≡ values rows ++ next_row r
values_snoc [] r = append-nil (next_row r)
values_snoc (x ∷ rows) r =
    ap (λ t. next_row x ++ t) (values_snoc rows r)
    ∙ sym (append_assoc (next_row x) (values rows) (next_row r))

-- The server accepts the statements, one behind the other.
abbrev pub Accepted : (List Text → Text → Bool) → List Text → List Text → Type 0
Accepted answer log [] = Unit
Accepted answer log (t ∷ ts) = (answer log t ≡ true) × Accepted answer (log ++ t ∷ []) ts

Accepted_snoc :
    (answer : List Text → Text → Bool) (log ts : List Text) (t : Text)
    → Accepted answer log ts
    → answer (log ++ ts) t ≡ true
    → Accepted answer log (ts ++ t ∷ [])
Accepted_snoc answer log [] t h a = (sym (ap (λ l. answer l t) (append-nil log)) ∙ a, tt)
Accepted_snoc answer log (u ∷ ts) t h a = (
  h.0,
  Accepted_snoc answer (log ++ u ∷ []) ts t h.1
      (ap (λ l. answer l t) (append_assoc log (u ∷ []) ts) ∙ a),
)

-- The statements that were sent hold the first rows of all.
pub record Stopped (verb : Verb) (base : List Text) (all : List Row) (log : List Text)
    : Type 0 where
  pub groups : List (List Row)
  pub rest : List Row
  pub rows : all ≡ joined groups ++ rest
  pub log_eq : log ≡ base ++ map (insert_text verb) groups

module _ {S : Type 0} (verb : Verb) (can_add : ℕ → Row → S → Bool × S)
    (answer : List Text → Text → Bool) (throws conn_throws : Bool) (base : List Text)
    (all : List Row) where
  -- `rest` is still to come; the rows before it are in statements that were sent, or in the buffer.
  pub record Progress (rest : List Row) (empty : Bool) (s : Session S) : Type 0 where
    pub groups : List (List Row)
    pub open_group : List Row
    pub rows : all ≡ joined groups ++ (open_group ++ rest)
    pub buffer : s.buffer ≡ insert_text verb open_group
    pub empty_iff : empty ≡ is_nil open_group
    pub log : s.log ≡ base ++ map (insert_text verb) groups
    pub accepted : Accepted answer base (map (insert_text verb) groups)

  put_row-Progress :
      (r : Row) (rest : List Row) (empty : Bool) (s : Session S)
      → Progress (r ∷ rest) empty s
      → Progress rest false (put_row verb empty r s)
  put_row-Progress r rest empty s p = extend p.open_group p.rows p.buffer p.empty_iff
    where
      extend :
          (group : List Row)
          → all ≡ joined p.groups ++ (group ++ r ∷ rest)
          → s.buffer ≡ insert_text verb group
          → empty ≡ is_nil group
          → Progress rest false (put_row verb empty r s)
      extend [] a b c = record {
        groups = p.groups;
        open_group = r ∷ [];
        rows = a;
        buffer = rw (c, b) (sym (append-nil (first_row verb r)));
        empty_iff = refl;
        log = p.log;
        accepted = p.accepted;
      }
      extend (x ∷ group) a b c = record {
        groups = p.groups;
        open_group = x ∷ (group ++ r ∷ []);
        rows = a ∙ ap (λ l. joined p.groups ++ x ∷ l) (sym (append_assoc group (r ∷ []) rest));
        buffer =
            rw (c, b)
              (append_assoc (first_row verb x) (values group) (next_row r)
                ∙ ap (λ t. first_row verb x ++ t) (sym (values_snoc group r)));
        empty_iff = refl;
        log = p.log;
        accepted = p.accepted;
      }

  -- Nothing but the policy's state changes.
  ask-Progress :
      (r : Row) (rest : List Row) (empty : Bool) (s : Session S)
      → Progress rest empty s
      → Progress rest empty (ask can_add r s).1
  ask-Progress r rest empty s p = record {
    groups = p.groups;
    open_group = p.open_group;
    rows = p.rows;
    buffer = p.buffer;
    empty_iff = p.empty_iff;
    log = p.log;
    accepted = p.accepted;
  }

  -- What exec() makes of a buffer that holds the open group.
  unfoldable pub ExecGood : List Row → Exec S → Type 0
  ExecGood rest (sent s) = Progress rest true s
  ExecGood rest (refused s) = Stopped verb base all s.log
  ExecGood rest (threw s) = Stopped verb base all s.log

  Progress-Stopped :
      (rest : List Row) (empty : Bool) (s : Session S)
      → Progress rest empty s
      → Stopped verb base all s.log
  Progress-Stopped rest empty s p = record {
    groups = p.groups;
    rest = p.open_group ++ rest;
    rows = p.rows;
    log_eq = p.log;
  }

  unfoldable pub LoopGood : Loop S → Type 0
  LoopGood (ended true empty s) = Progress [] empty s
  LoopGood (ended false empty s) = Stopped verb base all s.log
  LoopGood (thrown s) = Stopped verb base all s.log

  closed_log :
      (rest : List Row) (s : Session S) (p : Progress rest false s)
      → s.log ++ s.buffer ∷ [] ≡ base ++ map (insert_text verb) (p.groups ++ p.open_group ∷ [])
  closed_log rest s p =
      rw (p.log, p.buffer)
        (append_assoc base (map (insert_text verb) p.groups) (insert_text verb p.open_group ∷ [])
          ∙ ap (λ l. base ++ l) (sym (map-append (insert_text verb) p.groups (p.open_group ∷ []))))

  -- The open group becomes a statement that was sent and accepted.
  close-Progress :
      (rest : List Row) (s : Session S)
      → Progress rest false s
      → answer s.log s.buffer ≡ true
      → Progress rest true (record (logged s.buffer s) { buffer = [] })
  close-Progress rest s p good = record {
    groups = p.groups ++ p.open_group ∷ [];
    open_group = [];
    rows = p.rows ∙ sym (joined_snoc p.groups p.open_group rest);
    buffer = refl;
    empty_iff = refl;
    log = closed_log rest s p;
    accepted =
        subst (Accepted answer base)
          (sym (map-append (insert_text verb) p.groups (p.open_group ∷ [])))
          (Accepted_snoc answer base (map (insert_text verb) p.groups)
            (insert_text verb p.open_group) p.accepted (rw (← p.log, ← p.buffer) good));
  }

  -- It was sent.
  close-Stopped :
      (rest : List Row) (s : Session S)
      → Progress rest false s
      → Stopped verb base all (s.log ++ s.buffer ∷ [])
  close-Stopped rest s p = record {
    groups = p.groups ++ p.open_group ∷ [];
    rest = rest;
    rows = p.rows ∙ sym (joined_snoc p.groups p.open_group rest);
    log_eq = closed_log rest s p;
  }

  pub exec-Good :
      (rest : List Row) (s : Session S)
      → Progress rest false s
      → ExecGood rest (exec verb can_add answer throws conn_throws s)
  unfolding exec ExecGood
  exec-Good rest s p = elim (Bool-cases (answer s.log s.buffer)) [
    | inl accepted ↦ rw accepted (close-Progress rest s p accepted)
    | inr denied ↦ elim (Bool-cases throws) [
      | inl t ↦ rw (denied, t) (close-Stopped rest s p)
      | inr f ↦ rw (denied, f) (close-Stopped rest s p)
    ]
  ]

  retry-Good :
      (more : Bool → Session S → Loop S) (r : Row) (rest : List Row) (b : Bool) (s : Session S)
      → ((s : Session S) → Progress rest false s → LoopGood (more false s))
      → Progress (r ∷ rest) true s
      → LoopGood (retry verb can_add answer throws conn_throws more r (b, s))
  unfolding LoopGood retry
  retry-Good more r rest true s h p = h _ (put_row-Progress r rest true s p)
  retry-Good more r rest false s h p = elim (Bool-cases throws) [
    | inl t ↦ rw t (Progress-Stopped (r ∷ rest) true s p)
    | inr f ↦ rw f (Progress-Stopped (r ∷ rest) true s p)
  ]

  flushed-Good :
      (more : Bool → Session S → Loop S) (r : Row) (rest : List Row) (e : Exec S)
      → ((s : Session S) → Progress rest false s → LoopGood (more false s))
      → ExecGood (r ∷ rest) e
      → LoopGood (flushed verb can_add answer throws conn_throws more r e)
  unfolding LoopGood flushed ExecGood
  flushed-Good more r rest (sent s) h p =
      retry-Good more r rest (ask can_add r s).0 _ h (ask-Progress r (r ∷ rest) true s p)
  flushed-Good more r rest (refused s) h p = p
  flushed-Good more r rest (threw s) h p = p

  body-Good :
      (more : Bool → Session S → Loop S) (r : Row) (rest : List Row) (empty b : Bool)
      (s : Session S)
      → ((s : Session S) → Progress rest false s → LoopGood (more false s))
      → Progress (r ∷ rest) empty s
      → LoopGood (body verb can_add answer throws conn_throws more r empty (b, s))
  unfolding body
  body-Good more r rest empty true s h p = h _ (put_row-Progress r rest empty s p)
  body-Good more r rest true false s h p =
      retry-Good more r rest (ask can_add r s).0 _ h (ask-Progress r (r ∷ rest) true s p)
  body-Good more r rest false false s h p = flushed-Good more r rest _ h (exec-Good (r ∷ rest) s p)

  pub loop-Good :
      (rows : List Row) (empty : Bool) (s : Session S)
      → Progress rows empty s
      → LoopGood (loop verb can_add answer throws conn_throws rows empty s)
  unfolding loop
  loop-Good [] empty s p = unfold LoopGood in p
  loop-Good (r ∷ rows) empty s p =
      body-Good (loop verb can_add answer throws conn_throws rows) r rows empty _ _
        (λ f q. loop-Good rows false f q) (ask-Progress r (r ∷ rows) empty s p)
