-- ===== src/Pool/Entries.antt =====
-- What the operations do to the list of entries: which entries stay, and that connections stay
-- distinct.
use libtabula.Prelude.{
  ℕ, zero, suc, ◌≡◌, ◌≢◌, refl, Bool, true, false, ◌⊎◌, inl, inr, List, [], ◌∷◌, ◌++◌, some, arith,
  get_elem?, set, All, All-get_elem?, All-append, get_elem?-set_ne, false≢true, Bool-cases, ◌==◌,
  sym, ◌∙◌,
}
use libtabula.Pool.{ConnectionInfo, sweep, keep_or_remove, remove_in, release_in}
use libtabula.Pool.Mru.{AllInUse}

abbrev pub Holds : ConnectionInfo → List ConnectionInfo → Type 0
Holds x xs = (i : ℕ) × (get_elem? xs i ≡ some x)

-- `c` is the connection of no entry.
abbrev pub NotIn : ℕ → List ConnectionInfo → Type 0
NotIn c = All (λ y. y.conn ≢ c)

-- No two entries have the same connection.
abbrev pub Distinct : List ConnectionInfo → Type 0
Distinct [] = Unit
Distinct (x ∷ xs) = NotIn x.conn xs × Distinct xs

module _ (test : ConnectionInfo → Bool) where
  pub sweep-Holds :
      (x : ConnectionInfo) (xs : List ConnectionInfo) (i : ℕ)
      → get_elem? xs i ≡ some x
      → test x ≡ false
      → Holds x (sweep test xs).0
  unfolding sweep
  sweep-Holds x [] i e h = cc
  sweep-Holds x (y ∷ ys) zero e h = let t : test y ≡ false = cc in rw (t, keep_or_remove) (0, e)
  sweep-Holds x (y ∷ ys) (suc i) e h = later (test y) (sweep-Holds x ys i e h)
    where
      later :
          (b : Bool) → Holds x (sweep test ys).0 → Holds x (keep_or_remove b y (sweep test ys)).0
      later true r = r
      later false (j, found) = (suc j, found)

  -- A sweep adds no entry.
  pub sweep_back :
      (x : ConnectionInfo) (xs : List ConnectionInfo) (i : ℕ)
      → get_elem? (sweep test xs).0 i ≡ some x
      → Holds x xs
  unfolding sweep
  sweep_back x [] i e = cc
  sweep_back x (y ∷ ys) i e = earlier (test y) i (sweep_back x ys) e
    where
      earlier :
          (b : Bool) (i : ℕ)
          → ((j : ℕ) → get_elem? (sweep test ys).0 j ≡ some x → Holds x ys)
          → get_elem? (keep_or_remove b y (sweep test ys)).0 i ≡ some x
          → Holds x (y ∷ ys)
      earlier true i back e = let (k, h) = back i e in (suc k, h)
      earlier false zero back e = (0, e)
      earlier false (suc i) back e = let (k, h) = back i e in (suc k, h)

  pub sweep-All {κ} :
      (P : ConnectionInfo → Type κ) (xs : List ConnectionInfo) → All P xs → All P (sweep test xs).0
  unfolding sweep
  sweep-All P [] h = tt
  sweep-All P (y ∷ ys) h = both (test y) h.0 (sweep-All P ys h.1)
    where
      both :
          (b : Bool) → P y → All P (sweep test ys).0 → All P (keep_or_remove b y (sweep test ys)).0
      both true p r = r
      both false p r = (p, r)

  pub sweep-Distinct : (xs : List ConnectionInfo) → Distinct xs → Distinct (sweep test xs).0
  unfolding sweep
  sweep-Distinct [] d = tt
  sweep-Distinct (y ∷ ys) d = both (test y) (sweep-All _ ys d.0) (sweep-Distinct ys d.1)
    where
      both :
          (b : Bool)
          → NotIn y.conn (sweep test ys).0
          → Distinct (sweep test ys).0
          → Distinct (keep_or_remove b y (sweep test ys)).0
      both true n r = r
      both false n r = (n, r)

pub append-Distinct :
    (xs : List ConnectionInfo) (y : ConnectionInfo)
    → NotIn y.conn xs
    → Distinct xs
    → Distinct (xs ++ y ∷ [])
append-Distinct [] y n d = (tt, tt)
append-Distinct (x ∷ xs) y n d =
    (All-append _ xs (y ∷ []) d.0 ((λ e. n.0 (sym e)), tt), append-Distinct xs y n.1 d.1)

-- A list with the same connections at the same places.
set-NotIn :
    (c at : ℕ) (i : ConnectionInfo) (xs : List ConnectionInfo)
    → i.conn ≢ c
    → NotIn c xs
    → NotIn c (set xs at i)
set-NotIn c at i [] h n = tt
set-NotIn c zero i (x ∷ xs) h n = (h, n.1)
set-NotIn c (suc at) i (x ∷ xs) h n = (n.0, set-NotIn c at i xs h n.1)

pub set-Distinct :
    (at : ℕ) (i j : ConnectionInfo) (xs : List ConnectionInfo)
    → get_elem? xs at ≡ some i
    → j.conn ≡ i.conn
    → Distinct xs
    → Distinct (set xs at j)
set-Distinct at i j [] e h d = tt
set-Distinct zero i j (x ∷ xs) e h d = let q : j.conn ≡ x.conn = cc in (rw q d.0, d.1)
set-Distinct (suc at) i j (x ∷ xs) e h d = (
  set-NotIn x.conn at j xs (λ q. All-get_elem? _ xs at i d.0 e (sym h ∙ q)) d.0,
  set-Distinct at i j xs e h d.1,
)

release_in-NotIn :
    (c pc now : ℕ) (xs : List ConnectionInfo) → NotIn c xs → NotIn c (release_in pc now xs)
unfolding release_in
release_in-NotIn c pc now [] n = tt
release_in-NotIn c pc now (x ∷ xs) n = ground (arith, release_in-NotIn c pc now xs n.1)

remove_in-NotIn : (c pc : ℕ) (xs : List ConnectionInfo) → NotIn c xs → NotIn c (remove_in pc xs).0
unfolding remove_in
remove_in-NotIn c pc [] n = tt
remove_in-NotIn c pc (x ∷ xs) n = ground (arith, remove_in-NotIn c pc xs n.1)

pub release_in-Distinct :
    (pc now : ℕ) (xs : List ConnectionInfo) → Distinct xs → Distinct (release_in pc now xs)
unfolding release_in
release_in-Distinct pc now [] d = tt
release_in-Distinct pc now (x ∷ xs) d =
    ground (arith, release_in-NotIn x.conn pc now xs d.0, release_in-Distinct pc now xs d.1)

pub remove_in-Distinct :
    (pc : ℕ) (xs : List ConnectionInfo) → Distinct xs → Distinct (remove_in pc xs).0
unfolding remove_in
remove_in-Distinct pc [] d = tt
remove_in-Distinct pc (x ∷ xs) d =
    ground (arith, remove_in-NotIn x.conn pc xs d.0, remove_in-Distinct pc xs d.1)

-- Either some entry is free, or all are in use.
pub free_or_busy :
    (xs : List ConnectionInfo)
    → ((j : ℕ) × (y : ConnectionInfo) × (get_elem? xs j ≡ some y) × (y.in_use ≡ false))
      ⊎ AllInUse xs
free_or_busy [] = inr tt
free_or_busy (x ∷ xs) = elim (Bool-cases x.in_use) [
  | inl busy ↦ elim (free_or_busy xs) [
    | inl (j, y, e, f) ↦ inl (suc j, y, e, f)
    | inr rest ↦ inr (busy, rest)
  ]
  | inr free ↦ inl (0, x, refl, free)
]

pub set-Holds :
    (x i j : ConnectionInfo) (at : ℕ) (xs : List ConnectionInfo)
    → get_elem? xs at ≡ some i
    → i.in_use ≡ false
    → x.in_use ≡ true
    → Holds x xs
    → Holds x (set xs at j)
set-Holds x i j at xs e free busy (k, h) =
    let apart : at ≢ k = λ q. false≢true (sym free ∙ same q ∙ busy) in
    (k, get_elem?-set_ne xs j apart ∙ h)
  where
    same : at ≡ k → i.in_use ≡ x.in_use
    same q = cc

pub append-Holds :
    (x : ConnectionInfo) (xs ys : List ConnectionInfo) → Holds x xs → Holds x (xs ++ ys)
append-Holds x [] ys (i, h) = cc
append-Holds x (y ∷ xs) ys (zero, h) = (0, h)
append-Holds x (y ∷ xs) ys (suc i, h) = let (j, e) = append-Holds x xs ys (i, h) in (suc j, e)

pub release_in-Holds :
    (x : ConnectionInfo) (pc now : ℕ) (xs : List ConnectionInfo)
    → x.conn ≢ pc
    → (i : ℕ) → get_elem? xs i ≡ some x
    → get_elem? (release_in pc now xs) i ≡ some x
unfolding release_in
release_in-Holds x pc now [] h i e = e
release_in-Holds x pc now (y ∷ xs) h zero e = ground arith
release_in-Holds x pc now (y ∷ xs) h (suc i) e = ground (arith, release_in-Holds x pc now xs h i e)

pub remove_in-Holds :
    (x : ConnectionInfo) (pc : ℕ) (xs : List ConnectionInfo)
    → x.conn ≢ pc
    → (i : ℕ) → get_elem? xs i ≡ some x
    → Holds x (remove_in pc xs).0
unfolding remove_in
remove_in-Holds x pc [] h i e = cc
remove_in-Holds x pc (y ∷ xs) h zero e = (0, ground arith)
remove_in-Holds x pc (y ∷ xs) h (suc i) e = elim (Bool-cases (y.conn == pc)) [
  | inl hit ↦ rw hit (i, e)
  | inr miss ↦ let (j, f) = remove_in-Holds x pc xs h i e in rw miss (suc j, f)
]
