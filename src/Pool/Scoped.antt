-- ===== src/Pool/Scoped.antt =====
-- ScopedConnection, src/scopedconnection.h and src/scopedconnection.cpp: a connection for a scope. What
-- is done in the scope, by its thread and others, is a sequence of steps.
use libtabula.Prelude.{
  ℕ, zero, suc, ◌≡◌, ◌≢◌, refl, sym, ap, subst, Bool, true, false, List, [], ◌∷◌, ◌++◌, Option,
  none, some, arith, get_elem?, get_elem?-set_self, get_elem?-lt, All-get_elem?, ◌==◌,
}
use libtabula.Pool.{
  ConnectionInfo, new_info, Pool, Env, empty, grab, release, release_in, safe_grab, Op, grabs, step,
  run,
}
use libtabula.Pool.Entries.{Holds, Distinct}
use libtabula.Pool.Ownership.{
  grab_cases, touches, step-Holds, AllFresh, step-Distinct, run-Distinct,
}

-- The constructor: safe_grab() or grab().
unfoldable pub acquire : Bool → (ℕ → Env) → (ℕ → ℕ → Bool) → ℕ → Pool → Option (Pool × Option ℕ)
acquire true env ping fuel p = safe_grab env ping fuel 0 p
acquire false env ping fuel p = some (grab (env 0) p)

-- The scope and the destructor at its end, at the time `now`; without a connection, which is an
-- exception of create(), there is neither.
unfoldable pub leave_scope : List Op → ℕ → Option (Pool × Option ℕ) → Option Pool
leave_scope os now none = none
leave_scope os now (some (p, none)) = some p
leave_scope os now (some (p, some c)) = some (release c now (run os p))

abbrev pub Untouched : List Op → ConnectionInfo → Type 0
Untouched [] x = Unit
Untouched (o ∷ os) x = (touches o x ≡ false) × Untouched os x

Holds-last : (xs : List ConnectionInfo) (x : ConnectionInfo) → Holds x (xs ++ x ∷ [])
Holds-last [] x = (0, refl)
Holds-last (y ∷ xs) x = let (i, e) = Holds-last xs x in (suc i, e)

-- What grab() hands out is in the pool, in use.
grab-Holds :
    (env : Env) (p : Pool) (c : ℕ)
    → (grab env p).1 ≡ some c
    → (x : ConnectionInfo) × (x.conn ≡ c) × (x.in_use ≡ true) × Holds x (grab env p).0.infos
grab-Holds env p =
    grab_cases
      (λ r.
        (c : ℕ)
        → r.1 ≡ some c
        → (x : ConnectionInfo) × (x.conn ≡ c) × (x.in_use ≡ true) × Holds x r.0.infos)
      env p
      (λ at i l c e. (
        record i { in_use = true },
        cc,
        refl,
        (at, get_elem?-set_self _ at _ (get_elem?-lt _ at i l.there)),
      ))
      (λ c' _ _ c e.
        (new_info c' env.now_created, cc, refl, Holds-last _ (new_info c' env.now_created)))
      (λ _ _ c e. cc)

run-Holds :
    (os : List Op) (p : Pool) (x : ConnectionInfo)
    → x.in_use ≡ true
    → Untouched os x
    → Holds x p.infos
    → Holds x (run os p).infos
unfolding run
run-Holds [] p x busy t h = h
run-Holds (o ∷ os) p x busy (t, ts) h =
    run-Holds os (step o p) x busy ts (step-Holds o p x busy t h)

-- The entry of a connection that is released is free from then on.
release_in-freed :
    (c now : ℕ) (x : ConnectionInfo) (xs : List ConnectionInfo) (i : ℕ)
    → Distinct xs
    → x.conn ≡ c
    → get_elem? xs i ≡ some x
    → get_elem? (release_in c now xs) i ≡ some (record x { in_use = false; last_used = now })
unfolding release_in
release_in-freed c now x [] i d h e = cc
release_in-freed c now x (y ∷ xs) zero d h e =
    let here : y ≡ x = cc in
    let hit : (y.conn == c) ≡ true = ground (arith, ap (λ (z : ConnectionInfo). z.conn) here, h) in
    rw hit (ap (λ (z : ConnectionInfo). some (record z { in_use = false; last_used = now })) here)
release_in-freed c now x (y ∷ xs) (suc i) d h e =
    let apart : x.conn ≢ y.conn = All-get_elem? _ xs i x d.0 e in
    let missed : (y.conn == c) ≡ false = ground (arith, apart, h) in
    rw missed (release_in-freed c now x xs i d.1 h e)

-- A scope with a connection ends with the pool `q`: the entry x of the connection is in use when the
-- scope begins and when its steps are done, and free in q, as of the time of the end.
pub Ends : ℕ → ℕ → List Op → Pool → Option Pool → Type 0
Ends c now os begun ended =
    (x : ConnectionInfo) × (q : Pool) × (x.conn ≡ c)
    × (x.in_use ≡ true)
    × (ended ≡ some q)
    × Holds x begun.infos
    × Holds x (run os begun).infos
    × Holds (record x { in_use = false; last_used = now }) q.infos

given-Ends :
    (os : List Op) (now c : ℕ) (p : Pool) (x : ConnectionInfo)
    → Distinct (run os p).infos
    → x.conn ≡ c
    → x.in_use ≡ true
    → Untouched os x
    → Holds x p.infos
    → Ends c now os p (leave_scope os now (some (p, some c)))
unfolding Ends leave_scope release
given-Ends os now c p x d h busy t held =
    let (i, e) = run-Holds os p x busy t held in
    (
      x,
      release c now (run os p),
      h,
      busy,
      refl,
      held,
      (i, e),
      (i, release_in-freed c now x (run os p).infos i d h e),
    )

-- After any interleaving of locked steps that starts with an empty pool, a ScopedConnection that takes
-- its connection with grab() keeps it in use to the end of its scope, whatever steps happen in
-- between, if none of them releases or removes this connection or clears the whole pool; then the
-- connection is free again, and last used at that time.
pub leave_scope-Ends :
    (earlier os : List Op) (env : Env) (ping : ℕ → ℕ → Bool) (fuel c now : ℕ)
    → AllFresh earlier empty
    → AllFresh (grabs env ∷ os) (run earlier empty)
    → (grab env (run earlier empty)).1 ≡ some c
    → ((x : ConnectionInfo) → x.conn ≡ c → Untouched os x)
    → Ends c now os
        (grab env (run earlier empty)).0
        (leave_scope os now (acquire false (λ k. env) ping fuel (run earlier empty)))
unfolding acquire step
leave_scope-Ends earlier os env ping fuel c now f g e t =
    let p = run earlier empty in
    let (x, h, busy, held) = grab-Holds env p c e in
    let d : Distinct (run os (grab env p).0).infos =
      run-Distinct os (grab env p).0 g.1
        (step-Distinct (grabs env) p g.0 (run-Distinct earlier empty f tt)) in
    subst (λ o. Ends c now os (grab env p).0 (leave_scope os now (some ((grab env p).0, o))))
      (sym e) (given-Ends os now c (grab env p).0 x d h busy (t x h) held)
