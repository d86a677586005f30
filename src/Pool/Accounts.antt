-- ===== src/Pool/Accounts.antt =====
-- Every connection that was created is in the pool or was destroyed, and only once.
use mathlib.Core.List.{Perm, perm_middle, map-append}
use mathlib.Core.List.Perm
use libtabula.Prelude.{
  ℕ, ◌≡◌, refl, Bool, true, false, List, [], ◌∷◌, ◌++◌, append_assoc, append-nil, subst, some,
  arith, set, get_elem?, ap, sym, ◌==◌, zero, suc, if◌then◌else◌,
}
use libtabula.Pool.{
  ConnectionInfo, Pool, empty, conns, sweep, keep_or_remove, clear, too_old, remove_old_connections,
  remove_in, remove, release_in, release, Op, grabs, releases, removes, clears, step, run,
}
use libtabula.Pool.Ownership.{grab_cases}

-- The connections created are those in the pool and those destroyed, each as often.
abbrev pub Accounts : Pool → Type 0
Accounts p = Perm p.created (conns p.infos ++ p.destroyed)

-- Moving connections from the pool to the destroyed ones.
abbrev Moves : List ConnectionInfo → List ConnectionInfo × List ℕ → Type 0
Moves xs r = Perm (conns xs) (conns r.0 ++ r.1)

sweep-Moves : (test : ConnectionInfo → Bool) (xs : List ConnectionInfo) → Moves xs (sweep test xs)
unfolding sweep
sweep-Moves test [] = Perm.nil
sweep-Moves test (x ∷ xs) = one (test x) (Perm.cons x.conn (sweep-Moves test xs))
  where
    one :
        (b : Bool)
        → Perm (conns (x ∷ xs)) (x.conn ∷ (conns (sweep test xs).0 ++ (sweep test xs).1))
        → Moves (x ∷ xs) (keep_or_remove b x (sweep test xs))
    one true m = Perm.trans m (Perm.symm (perm_middle (conns (sweep test xs).0) (sweep test xs).1))
    one false m = m

remove_in-Moves : (pc : ℕ) (xs : List ConnectionInfo) → Moves xs (remove_in pc xs)
unfolding remove_in
remove_in-Moves pc [] = Perm.nil
remove_in-Moves pc (x ∷ xs) = one (x.conn == pc) (Perm.cons x.conn (remove_in-Moves pc xs))
  where
    one :
        (b : Bool)
        → Perm (conns (x ∷ xs)) (x.conn ∷ (conns (remove_in pc xs).0 ++ (remove_in pc xs).1))
        → Moves
            (x ∷ xs)
            (if b then (xs, x.conn ∷ []) else (x ∷ (remove_in pc xs).0, (remove_in pc xs).1))
    one true m =
        subst (λ l. Perm (x.conn ∷ l) (conns xs ++ x.conn ∷ [])) (append-nil (conns xs))
          (Perm.symm (perm_middle (conns xs) []))
    one false m = m

moved :
    (p : Pool) (r : List ConnectionInfo × List ℕ)
    → Accounts p
    → Moves p.infos r
    → Perm p.created (conns r.0 ++ (r.1 ++ p.destroyed))
moved p r a m =
    subst (Perm p.created) (append_assoc (conns r.0) r.1 p.destroyed)
      (Perm.trans a (Perm.append_right p.destroyed m))

conns-set :
    (xs : List ConnectionInfo) (at : ℕ) (i j : ConnectionInfo)
    → get_elem? xs at ≡ some i
    → j.conn ≡ i.conn
    → conns (set xs at j) ≡ conns xs
conns-set [] at i j e h = refl
conns-set (x ∷ xs) zero i j e h = let q : j.conn ≡ x.conn = cc in ap (λ c. c ∷ conns xs) q
conns-set (x ∷ xs) (suc at) i j e h = ap (λ l. x.conn ∷ l) (conns-set xs at i j e h)

conns-release_in : (pc now : ℕ) (xs : List ConnectionInfo) → conns (release_in pc now xs) ≡ conns xs
unfolding release_in
conns-release_in pc now [] = refl
conns-release_in pc now (x ∷ xs) = ground (arith, conns-release_in pc now xs)

added_one :
    (p : Pool) (i : ConnectionInfo)
    → Accounts p
    → Perm (i.conn ∷ p.created) (conns (p.infos ++ i ∷ []) ++ p.destroyed)
added_one p i a =
    let flat : conns (p.infos ++ i ∷ []) ++ p.destroyed ≡ conns p.infos ++ i.conn ∷ p.destroyed =
      rw map-append (append_assoc (conns p.infos) (i.conn ∷ []) p.destroyed) in
    subst (Perm (i.conn ∷ p.created)) (sym flat)
      (Perm.trans (Perm.cons i.conn a) (Perm.symm (perm_middle (conns p.infos) p.destroyed)))

step-Accounts : (o : Op) (p : Pool) → Accounts p → Accounts (step o p)
unfolding step clear remove release remove_old_connections
step-Accounts (grabs env) p a =
    let a' = moved p (sweep (too_old env.max_idle env.now) p.infos) a (sweep-Moves _ p.infos) in
    grab_cases (λ r. Accounts r.0) env p
      (λ at i l. rw (conns-set _ at i (record i { in_use = true }) l.there refl) a')
      (λ c _ _. added_one (remove_old_connections env.max_idle env.now p) _ a') (λ _ _. a')
step-Accounts (releases pc now) p a = rw (conns-release_in pc now p.infos) a
step-Accounts (removes pc) p a = moved p (remove_in pc p.infos) a (remove_in-Moves pc p.infos)
step-Accounts (clears all) p a = moved p (sweep _ p.infos) a (sweep-Moves _ p.infos)

run-Accounts_from : (os : List Op) (p : Pool) → Accounts p → Accounts (run os p)
unfolding run
run-Accounts_from [] p a = a
run-Accounts_from (o ∷ os) p a = run-Accounts_from os (step o p) (step-Accounts o p a)

-- After any interleaving of locked steps that starts with an empty pool, the connections that
-- create() returned are exactly those in the pool together with those that destroy() was called
-- with, each as often: none is lost, none is destroyed twice or while it stays in the pool.
pub run-Accounts : (os : List Op) → Accounts (run os empty)
run-Accounts os = run-Accounts_from os empty Perm.nil

sweep_all :
    (test : ConnectionInfo → Bool) (xs : List ConnectionInfo)
    → ((x : ConnectionInfo) → test x ≡ true)
    → (sweep test xs).0 ≡ []
unfolding sweep
sweep_all test [] h = refl
sweep_all test (x ∷ xs) h = rw (h x, keep_or_remove) (sweep_all test xs h)

-- clear(true) at the end leaves an empty pool, and then every connection ever created has been
-- destroyed, each exactly as often as it was created.
pub run-clear :
    (os : List Op)
    → let p = clear true (run os empty) in (p.infos ≡ []) × Perm p.created p.destroyed
unfolding clear
run-clear os =
    let p = run os empty in
    let none_left = sweep_all (λ i. true) p.infos (λ x. refl) in
    let all_moved = moved p (sweep (λ i. true) p.infos) (run-Accounts os) (sweep-Moves _ p.infos) in
    (none_left, rw none_left at all_moved)
