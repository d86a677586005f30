-- ===== src/Pool/Ownership.antt =====
-- Who may use a connection: which steps touch an entry in use, and what is lent to whom.
use libtabula.Prelude.{
  ℕ, zero, suc, ◌≡◌, ◌≢◌, refl, Bool, true, false, inl, inr, List, [], ◌∷◌, ◌++◌, Option, none,
  some, arith, get_elem?, All, All-map, All-get_elem?, false≢true, subst, ◌==◌, sym, ap, ◌∙◌,
}
use libtabula.Pool.{
  ConnectionInfo, new_info, Pool, Env, empty, grab, clear, too_old, remove_old_connections, remove,
  release, Op, grabs, releases, removes, clears, step, run,
}
use libtabula.Pool.Mru.{AllInUse, Lends, lent, grab-Lends, grab-add_new}
use libtabula.Pool.Entries.{
  Holds, NotIn, Distinct, sweep-Holds, sweep-All, sweep-Distinct, append-Distinct, set-Distinct,
  release_in-Distinct, remove_in-Distinct, free_or_busy, sweep_back, set-Holds, append-Holds,
  release_in-Holds, remove_in-Holds,
}

abbrev pub live : Env → Pool → Pool
live env p = remove_old_connections env.max_idle env.now p

abbrev pub added : Env → ℕ → Pool → Pool
added env c p = record p {
  infos = p.infos ++ new_info c env.now_created ∷ [];
  created = c ∷ p.created;
}

-- grab() lends a free entry, adds one, or fails.
pub grab_cases {ℓ} :
    (P : Pool × Option ℕ → Type ℓ) (env : Env) (p : Pool)
    → ((at : ℕ) (i : ConnectionInfo)
        → Lends (live env p) (grab env p) at i
        → P (lent at i (live env p), some i.conn))
    → ((c : ℕ)
        → AllInUse (live env p).infos
        → env.create ≡ some c
        → P (added env c (live env p), some c))
    → (AllInUse (live env p).infos → env.create ≡ none → P (live env p, none))
    → P (grab env p)
grab_cases P env p lends adds fails = elim (free_or_busy (live env p).infos) [
  | inl (j, y, e, f) ↦ let (at, i, l) = grab-Lends env p j y e f in rw (l.handed) (lends at i l)
  | inr busy ↦ create env.create refl busy
]
  where
    create : (o : Option ℕ) → env.create ≡ o → AllInUse (live env p).infos → P (grab env p)
    create none e busy = rw ((grab-add_new env p busy).1 e) (fails busy e)
    create (some c) e busy = rw ((grab-add_new env p busy).0 c e) (adds c busy e)

-- The steps that are meant for the entry `x`, or for all.
abbrev pub touches : Op → ConnectionInfo → Bool
touches (grabs env) x = false
touches (releases pc now) x = x.conn == pc
touches (removes pc) x = x.conn == pc
touches (clears all) x = all

live-Holds :
    (env : Env) (p : Pool) (x : ConnectionInfo)
    → x.in_use ≡ true
    → Holds x p.infos
    → Holds x (live env p).infos
unfolding remove_old_connections too_old
live-Holds env p x busy (i, e) = sweep-Holds (too_old env.max_idle env.now) x p.infos i e (rw busy)

-- An entry in use stays in the pool as it is under every step but a release or a removal of its
-- own connection and a clearing of the whole pool: no grab, no other thread's release or removal
-- and no shrink destroys it, lends it or changes its time.
pub step-Holds :
    (o : Op) (p : Pool) (x : ConnectionInfo)
    → x.in_use ≡ true
    → touches o x ≡ false
    → Holds x p.infos
    → Holds x (step o p).infos
unfolding step clear remove release
step-Holds (grabs env) p x busy t h =
    let h' = live-Holds env p x busy h in
    grab_cases (λ r. Holds x r.0.infos) env p
      (λ at i l. set-Holds x i _ at _ l.there l.free busy h') (λ c _ _. append-Holds x _ _ h')
      (λ _ _. h')
step-Holds (releases pc now) p x busy t (i, e) =
    (i, release_in-Holds x pc now p.infos (λ q. ground arith) i e)
step-Holds (removes pc) p x busy t (i, e) = remove_in-Holds x pc p.infos (λ q. ground arith) i e
step-Holds (clears all) p x busy t (i, e) = sweep-Holds _ x p.infos i e (rw (t, busy))

-- create() returns no connection that the pool holds.
abbrev pub IsFresh : Op → Pool → Type 0
IsFresh (grabs env) p = (c : ℕ) → env.create ≡ some c → NotIn c p.infos
IsFresh _ p = Unit

abbrev pub AllFresh : List Op → Pool → Type 0
AllFresh [] p = Unit
AllFresh (o ∷ os) p = IsFresh o p × AllFresh os (step o p)

pub step-Distinct : (o : Op) (p : Pool) → IsFresh o p → Distinct p.infos → Distinct (step o p).infos
unfolding step clear remove release remove_old_connections
step-Distinct (grabs env) p f d =
    let d' = sweep-Distinct (too_old env.max_idle env.now) p.infos d in
    grab_cases (λ r. Distinct r.0.infos) env p (λ at i l. set-Distinct at i _ _ l.there refl d')
      (λ c _ e. append-Distinct _ _ (sweep-All _ _ p.infos (f c e)) d') (λ _ _. d')
step-Distinct (releases pc now) p f d = release_in-Distinct pc now p.infos d
step-Distinct (removes pc) p f d = remove_in-Distinct pc p.infos d
step-Distinct (clears all) p f d = sweep-Distinct _ p.infos d

pub run-Distinct :
    (os : List Op) (p : Pool) → AllFresh os p → Distinct p.infos → Distinct (run os p).infos
unfolding run
run-Distinct [] p f d = d
run-Distinct (o ∷ os) p f d = run-Distinct os (step o p) f.1 (step-Distinct o p f.0 d)

-- No entry in use has the connection `c`.
abbrev pub NotLent : ℕ → Pool → Type 0
NotLent c p = All (λ x. x.in_use ≡ true → x.conn ≢ c) p.infos

lent_once :
    (at : ℕ) (i : ConnectionInfo) (xs : List ConnectionInfo)
    → Distinct xs
    → get_elem? xs at ≡ some i
    → i.in_use ≡ false
    → All (λ x. x.in_use ≡ true → x.conn ≢ i.conn) xs
lent_once at i [] d e f = tt
lent_once zero i (x ∷ xs) d e f =
    let here : x ≡ i = cc in
    (
      (λ busy q. false≢true (sym f ∙ ap (λ (y : ConnectionInfo). y.in_use) (sym here) ∙ busy)),
      All-map xs (λ y apart busy q. apart (q ∙ ap (λ (z : ConnectionInfo). z.conn) (sym here))) d.0,
    )
lent_once (suc at) i (x ∷ xs) d e f =
    ((λ busy q. All-get_elem? _ xs at i d.0 e (sym q)), lent_once at i xs d.1 e f)

grab-NotLent :
    (env : Env) (p : Pool)
    → IsFresh (grabs env) p
    → Distinct p.infos
    → (c : ℕ) → (grab env p).1 ≡ some c
    → NotLent c p
unfolding remove_old_connections
grab-NotLent env p fresh d =
    grab_cases (λ r. (c : ℕ) → r.1 ≡ some c → NotLent c p) env p
      (λ at i l c e.
        let (k, h) = sweep_back (too_old env.max_idle env.now) i p.infos at l.there in
        let same : i.conn ≡ c = cc in
        subst (λ n. NotLent n p) same (lent_once k i p.infos d h l.free))
      (λ c' _ created c e. All-map p.infos (λ x apart busy. apart) (fresh c (created ∙ e)))
      (λ _ _ c e. cc)

-- Whatever the threads did before, grab() never hands out a connection that is in use: after any
-- interleaving of locked steps that starts with an empty pool, where create() never returns a
-- connection that the pool holds, no entry in use has the connection that the next grab() returns.
pub grab-run-NotLent :
    (os : List Op) (env : Env) (c : ℕ)
    → AllFresh os empty
    → IsFresh (grabs env) (run os empty)
    → (grab env (run os empty)).1 ≡ some c
    → NotLent c (run os empty)
grab-run-NotLent os env c fs f e =
    grab-NotLent env (run os empty) f (run-Distinct os empty fs tt) c e
