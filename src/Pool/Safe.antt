-- ===== src/Pool/Safe.antt =====
-- The loop of safe_grab() ends.
use libtabula.Prelude.{ℕ, suc, ◌+◌, ◌≤◌, ◌≡◌, Bool, true, Option, some, length}
use libtabula.Pool.{Pool, Env}

module _ (env : ℕ → Env) (ping : ℕ → ℕ → Bool) where
  -- The loop that began in round k with `n` entries returns, in a round m, a connection that answers
  -- its ping there; all the rounds before found a dead one. Each of these removed an entry, so that the
  -- entries that are left and the dead are those that were there, and one more at most.
  abbrev pub Returns : ℕ → ℕ → Option (Pool × Option ℕ) → Type 0
  Returns k n r =
      (q : Pool) × (c : ℕ) × (m : ℕ) × ((r ≡ some (q, some c))
        × ((ping m c ≡ true) × ((k ≤ m) × (length q.infos + m ≤ suc n + k))))
