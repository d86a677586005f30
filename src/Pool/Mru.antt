-- ===== src/Pool/Mru.antt =====
-- What find_mru() and grab() hand out.
use libtabula.Prelude.{
  ℕ, ◌≤◌, ◌≡◌, refl, true, false, List, [], ◌∷◌, ◌++◌, Option, none, some, arith, get_elem?, set,
  All, All-map, All-get_elem?,
}
use libtabula.Pool.{
  ConnectionInfo, new_info, Pool, Env, less, find_mru, max_element, add_new, grab,
  remove_old_connections,
}
use libtabula.Pool.Order.{max_element-IsMax, IsMax}

-- No free entry of the list was used later than `i`.
abbrev pub IsLatest : ConnectionInfo → List ConnectionInfo → Type 0
IsLatest i = All (λ z. z.in_use ≡ false → z.last_used ≤ i.last_used)

abbrev pub AllInUse : List ConnectionInfo → Type 0
AllInUse = All (λ z. z.in_use ≡ true)

abbrev pub lent : ℕ → ConnectionInfo → Pool → Pool
lent at i p = record p { infos = set p.infos at (record i { in_use = true }) }

-- The entry at `at` is free, was used last among the free ones, and is what `r` hands out.
pub record Lends (p : Pool) (r : Pool × Option ℕ) (at : ℕ) (i : ConnectionInfo) : Type 0 where
  pub there : get_elem? p.infos at ≡ some i
  pub free : i.in_use ≡ false
  pub latest : IsLatest i p.infos
  pub handed : r ≡ (lent at i p, some i.conn)

max_free : (i y : ConnectionInfo) → less i y ≡ false → y.in_use ≡ false → i.in_use ≡ false
unfolding less
max_free i y h f = ground arith

max-IsLatest :
    (i : ConnectionInfo) (xs : List ConnectionInfo) → i.in_use ≡ false → IsMax i xs → IsLatest i xs
unfolding less
max-IsLatest i xs f = All-map xs (λ z h g. ground arith)

find_mru_at :
    (p : Pool) (at : ℕ) (i : ConnectionInfo)
    → max_element p.infos ≡ some (at, i)
    → i.in_use ≡ false
    → find_mru p ≡ (lent at i p, some i.conn)
unfolding find_mru
find_mru_at p at i e f = rw (e, find_mru) (rw f)

pub find_mru-Lends :
    (p : Pool) (j : ℕ) (y : ConnectionInfo)
    → get_elem? p.infos j ≡ some y
    → y.in_use ≡ false
    → (at : ℕ) × (i : ConnectionInfo) × Lends p (find_mru p) at i
find_mru-Lends p j y e f = go p.infos refl
  where
    go :
        (xs : List ConnectionInfo)
        → p.infos ≡ xs
        → (at : ℕ) × (i : ConnectionInfo) × Lends p (find_mru p) at i
    go [] q = cc
    go (x ∷ xs) q =
        let (at, i, found, there, most) = max_element-IsMax x xs in
        let free : i.in_use ≡ false =
          max_free i y (All-get_elem? _ (x ∷ xs) j y most (rw (← q) e)) f in
        (
          at,
          i,
          record {
            there = rw q there;
            free = free;
            latest = rw q (max-IsLatest i (x ∷ xs) free most);
            handed = find_mru_at p at i (rw q found) free;
          },
        )

find_mru_busy :
    (p : Pool) (at : ℕ) (i : ConnectionInfo)
    → max_element p.infos ≡ some (at, i)
    → i.in_use ≡ true
    → find_mru p ≡ (p, none)
unfolding find_mru
find_mru_busy p at i e f = rw (e, find_mru) (rw f)

find_mru_no_max : (p : Pool) → max_element p.infos ≡ none → find_mru p ≡ (p, none)
unfolding find_mru
find_mru_no_max p e = rw (e, find_mru)

find_mru_empty : (p : Pool) → p.infos ≡ [] → find_mru p ≡ (p, none)
unfolding max_element
find_mru_empty p q = find_mru_no_max p (rw q)

pub find_mru-none : (p : Pool) → AllInUse p.infos → find_mru p ≡ (p, none)
find_mru-none p busy = go p.infos refl
  where
    go : (xs : List ConnectionInfo) → p.infos ≡ xs → find_mru p ≡ (p, none)
    go [] q = find_mru_empty p q
    go (x ∷ xs) q =
        let (at, i, found, there, most) = max_element-IsMax x xs in
        find_mru_busy p at i (rw q found) (All-get_elem? _ p.infos at i busy (rw q there))

-- If a free connection is left once the old ones are removed, then grab() hands out the one among
-- the free ones that was used last, marks it as in use, creates none and leaves every other entry
-- as it was.
pub grab-Lends :
    (env : Env) (p : Pool) (j : ℕ) (y : ConnectionInfo)
    → let live = remove_old_connections env.max_idle env.now p in
      get_elem? live.infos j ≡ some y
      → y.in_use ≡ false
      → (at : ℕ) × (i : ConnectionInfo) × Lends live (grab env p) at i
unfolding grab
grab-Lends env p j y e f =
    let live = remove_old_connections env.max_idle env.now p in
    let (at, i, l) = find_mru-Lends live j y e f in
    (at, i, record { there = l.there; free = l.free; latest = l.latest; handed = rw (l.handed) })

-- If every connection that is left once the old ones are removed is in use, then grab() creates
-- one, enters it at the end as in use and hands it out; where create() throws, it leaves with the
-- exception, and only the old connections are gone.
pub grab-add_new :
    (env : Env) (p : Pool)
    → let live = remove_old_connections env.max_idle env.now p in
      AllInUse live.infos
      → ((c : ℕ)
          → env.create ≡ some c
          → grab env p ≡ (
            record live {
              infos = live.infos ++ new_info c env.now_created ∷ [];
              created = c ∷ live.created;
            },
            some c,
          ))
        × (env.create ≡ none → grab env p ≡ (live, none))
unfolding grab add_new
grab-add_new env p busy =
    let live = remove_old_connections env.max_idle env.now p in
    ((λ c e. rw (find_mru-none live busy) (rw e)), (λ e. rw (find_mru-none live busy) (rw e)))
