-- ===== src/Pool.antt =====
-- ConnectionPool, src/cpool.h and src/cpool.cpp. A Connection* is a number. Each operation is
-- atomic, as the mutex makes it; what the subclass and the clock supply is an argument.
pub mod Order
pub mod Mru
pub mod Entries
pub mod Ownership
pub mod Accounts
pub mod Safe
pub mod Scoped
pub mod Tests
use libtabula.Prelude.{
  ℕ, zero, suc, ◌+◌, Bool, true, false, not, ◌&&◌, ◌||◌, List, [], ◌∷◌, ◌++◌, map, Option, none,
  some, leb, ltb, ◌==◌, if◌then◌else◌, set,
}

pub record ConnectionInfo : Type 0 where
  pub conn : ℕ
  pub last_used : ℕ
  pub in_use : Bool

-- The constructor of ConnectionInfo: a new connection is in use.
abbrev pub new_info : ℕ → ℕ → ConnectionInfo
new_info c now = record { conn = c; last_used = now; in_use = true }

abbrev pub bool_eq : Bool → Bool → Bool
bool_eq true b = b
bool_eq false b = not b

-- ConnectionInfo::operator<.
unfoldable pub less : ConnectionInfo → ConnectionInfo → Bool
less lhs rhs = if bool_eq lhs.in_use rhs.in_use then ltb lhs.last_used rhs.last_used else lhs.in_use

-- `infos` is pool_; `created` and `destroyed` record what create() returned and destroy() was
-- called with, the last call first.
pub record Pool : Type 0 where
  pub infos : List ConnectionInfo
  pub created : List ℕ
  pub destroyed : List ℕ

abbrev pub empty : Pool
empty = record { infos = []; created = []; destroyed = [] }

abbrev pub conns : List ConnectionInfo → List ℕ
conns = map λ i. i.conn

-- What a call of grab() meets: the clock when old connections are sought, max_idle_time(), what
-- create() returns (none if it throws) and the clock when the new connection is entered.
pub record Env : Type 0 where
  pub now : ℕ
  pub max_idle : ℕ
  pub create : Option ℕ
  pub now_created : ℕ

-- TooOld. The comparison with time(0) - tmax is one of signed 64-bit times.
unfoldable pub too_old : ℕ → ℕ → ConnectionInfo → Bool
too_old tmax now i = not i.in_use && leb (i.last_used + tmax) now

-- One entry of a sweep: remove(const PoolIt&) on it, or a step to the next one.
keep_or_remove : Bool → ConnectionInfo → List ConnectionInfo × List ℕ → List ConnectionInfo × List ℕ
keep_or_remove true i (kept, gone) = (kept, i.conn ∷ gone)
keep_or_remove false i (kept, gone) = (i ∷ kept, gone)

-- remove(const PoolIt&) on every entry that passes the test, in the order of the list: what is kept
-- and the connections that were destroyed.
unfoldable pub sweep : (ConnectionInfo → Bool) → List ConnectionInfo → List ConnectionInfo × List ℕ
unfolding keep_or_remove
sweep test [] = ([], [])
sweep test (i ∷ is) = keep_or_remove (test i) i (sweep test is)

abbrev swept : (ConnectionInfo → Bool) → Pool → Pool
swept test p = record p {
  infos = (sweep test p.infos).0;
  destroyed = (sweep test p.infos).1 ++ p.destroyed;
}

unfoldable pub remove_old_connections : ℕ → ℕ → Pool → Pool
remove_old_connections tmax now p = swept (too_old tmax now) p

unfoldable pub clear : Bool → Pool → Pool
clear all p = swept (λ i. all || not i.in_use) p

abbrev pub shrink : Pool → Pool
shrink = clear false

-- std::max_element: the first of the largest, with its place.
unfoldable pub max_element_from : ℕ → ConnectionInfo → ℕ → List ConnectionInfo → ℕ × ConnectionInfo
max_element_from at largest i [] = (at, largest)
max_element_from at largest i (x ∷ xs) =
    max_element_from (if less largest x then i else at) (if less largest x then x else largest)
      (suc i) xs

unfoldable pub max_element : List ConnectionInfo → Option (ℕ × ConnectionInfo)
max_element [] = none
max_element (x ∷ xs) = some (max_element_from 0 x 1 xs)

unfoldable pub find_mru : Pool → Pool × Option ℕ
find_mru p = elim (max_element p.infos) [
  | none ↦ (p, none)
  | some (at, mru) ↦
      if not mru.in_use
      then (record p { infos = set p.infos at (record mru { in_use = true }) }, some mru.conn)
      else (p, none)
]

-- pool_.push_back(ConnectionInfo(create())): none if create() throws, which leaves the pool as it
-- was.
unfoldable pub add_new : Env → Pool → Pool × Option ℕ
add_new env p = elim env.create [
  | none ↦ (p, none)
  | some c ↦ (
    record p { infos = p.infos ++ new_info c env.now_created ∷ []; created = c ∷ p.created },
    some c,
  )
]

or_add_new : Env → Pool × Option ℕ → Pool × Option ℕ
or_add_new env (p, some c) = (p, some c)
or_add_new env (p, none) = add_new env p

unfoldable pub grab : Env → Pool → Pool × Option ℕ
unfolding or_add_new
grab env p = or_add_new env (find_mru (remove_old_connections env.max_idle env.now p))

unfoldable pub release_in : ℕ → ℕ → List ConnectionInfo → List ConnectionInfo
release_in pc now [] = []
release_in pc now (i ∷ is) =
    if i.conn == pc
    then record i { in_use = false; last_used = now } ∷ is
    else i ∷ release_in pc now is

unfoldable pub release : ℕ → ℕ → Pool → Pool
unfolding release_in
release pc now p = record p { infos = release_in pc now p.infos }

-- What is left without the first entry of a connection, and that connection, if it was there.
unfoldable pub remove_in : ℕ → List ConnectionInfo → List ConnectionInfo × List ℕ
remove_in pc [] = ([], [])
remove_in pc (i ∷ is) =
    let (kept, gone) = remove_in pc is in
    if i.conn == pc then (is, i.conn ∷ []) else (i ∷ kept, gone)

unfoldable pub remove : ℕ → Pool → Pool
unfolding remove_in
remove pc p = record p {
  infos = (remove_in pc p.infos).0;
  destroyed = (remove_in pc p.infos).1 ++ p.destroyed;
}

-- Two locked steps; see `Op` for what other threads may do between them.
unfoldable pub exchange : ℕ → Env → Pool → Pool × Option ℕ
exchange pc env p = grab env (remove pc p)

-- The test and the body of the loop of safe_grab(): `up` answers for ping(), `again` goes on.
-- An exception of create() leaves the loop: none in the second place.
after_grab :
    (Pool → Option (Pool × Option ℕ)) → (ℕ → Bool) → Pool × Option ℕ → Option (Pool × Option ℕ)
after_grab again up (q, none) = some (q, none)
after_grab again up (q, some c) = elim (up c) [
  | true ↦ some (q, some c)
  | false ↦ again (remove c q)
]

-- The loop of safe_grab() on fuel. Round k meets `env k`, and `ping k c` is what ping() on the
-- connection c answers then. none means that the fuel ran out.
unfoldable pub safe_grab : (ℕ → Env) → (ℕ → ℕ → Bool) → ℕ → ℕ → Pool → Option (Pool × Option ℕ)
unfolding after_grab
safe_grab env ping zero k p = none
safe_grab env ping (suc fuel) k p =
    after_grab (safe_grab env ping fuel (suc k)) (ping k) (grab (env k) p)

-- The locked steps that threads may interleave.
pub data Op : Type 0 where
  grabs : Env → Op
  releases : ℕ → ℕ → Op
  removes : ℕ → Op
  clears : Bool → Op

unfoldable pub step : Op → Pool → Pool
step (grabs env) p = (grab env p).0
step (releases pc now) p = release pc now p
step (removes pc) p = remove pc p
step (clears all) p = clear all p

unfoldable pub run : List Op → Pool → Pool
run [] p = p
run (o ∷ os) p = run os (step o p)
