-- ===== src/Driver/Flags.antt =====
-- What setting an option leaves as it was.
use libtabula.Prelude.{
  ℕ, ◌≡◌, refl, sym, ap, ◌∙◌, Bool, true, false, [], ◌∷◌, ◌++◌, some, leb, if_either, false≢true,
  not, ◌&&◌, arith, if◌then◌else◌,
}
use libtabula.Driver.{
  OptionError, err_none, err_api_limit, err_api_reject, err_connected, err_disconnected, Setting,
  Api, Driver,
}
use libtabula.Driver.Client.{is_sane, set_bit, clear_bit, accepted, set_by_api, set_by_flag}
use libtabula.Driver.Settings.{set, ssl_set}
use libtabula.Driver.Each.{set_each}
use libtabula.Driver.Connecting.{is_queued, settle, set_option}

-- An option leaves the connection and both lists, and, if there is a connection, the client flags.
abbrev pub Keeps : {W : Type 0} → Driver W → OptionError × Driver W → Type 0
Keeps {W} d r =
    (r.1.is_connected ≡ d.is_connected)
    × ((r.1.applied_options ≡ d.applied_options)
        × ((r.1.pending_options ≡ d.pending_options)
            × (d.is_connected ≡ true → r.1.client_flag ≡ d.client_flag)))

module _ {W : Type 0} (api : Api W) where
  by_flag-Keeps :
      (o : ℕ) (b : Bool) (d : Driver W) → d.is_connected ≡ false → Keeps d (set_by_flag api o b d)
  unfolding set_by_flag
  by_flag-Keeps o b d down =
      if_either (Keeps d) _ _ _
        (λ e. (refl, (refl, (refl, λ up. absurd (false≢true (sym down ∙ up))))))
        (λ e. (refl, (refl, (refl, λ up. refl))))

  pub set-Keeps : (o : Setting) (d : Driver W) → Keeps d (set api o d)
  unfolding set_by_api ssl_set
  set-Keeps =
      set_each api Keeps (λ o a d. (refl, (refl, (refl, λ up. refl))))
        (λ d. (refl, (refl, (refl, λ up. refl)))) by_flag-Keeps
        (λ b d. (refl, (refl, (refl, λ up. refl)))) (λ d. (refl, (refl, (refl, λ up. refl))))
        (λ d. (refl, (refl, (refl, λ up. refl)))) (λ d a b c. (refl, (refl, (refl, λ up. refl))))

  -- The versions in which an option has to wait for the connection.
  abbrev pub some_wait : Bool
  some_wait = leb 50013 api.version && not (leb 50106 api.version)

  accepted-queued : (b : Bool) → is_queued (accepted b) ≡ false
  unfolding accepted is_queued
  accepted-queued true = refl
  accepted-queued false = refl

  -- An option is queued only without a connection, and only in those versions.
  abbrev Waits : Driver W → OptionError × Driver W → Type 0
  Waits d r = is_queued r.0 ≡ true → (some_wait ≡ true) × (d.is_connected ≡ false)

  by_flag-Waits :
      (o : ℕ) (b : Bool) (d : Driver W) → d.is_connected ≡ false → Waits d (set_by_flag api o b d)
  unfolding set_by_flag is_queued
  by_flag-Waits o b d down =
      if_either (Waits d) (is_sane api o)
        (
          err_none,
          record d {
            client_flag = if b then set_bit d.client_flag o else clear_bit d.client_flag o;
          },
        )
        (err_api_reject, d) (λ e q. absurd (false≢true q)) (λ e q. absurd (false≢true q))

  pub set-Waits :
      (o : Setting) (d : Driver W)
      → is_queued (set api o d).0 ≡ true
      → (some_wait ≡ true) × (d.is_connected ≡ false)
  unfolding set_by_api ssl_set is_queued
  set-Waits =
      set_each api Waits (λ o a d q. absurd (false≢true (sym (accepted-queued _) ∙ q)))
        (λ d q. absurd (false≢true (sym (accepted-queued _) ∙ q))) by_flag-Waits
        (λ b d q. absurd (false≢true q)) (λ d q. absurd (false≢true q))
        (λ d q. absurd (false≢true q)) (λ d a b c q. (ground (arith, a, b), c))

  -- An option that was set, queued or refused, by what set_option() returns.
  abbrev pub Settled : Setting → Driver W → Bool × Driver W → Type 0
  Settled o d (good, e) =
      (e.is_connected ≡ d.is_connected)
      × ((d.is_connected ≡ true → e.client_flag ≡ d.client_flag)
          × (if good
              then if is_queued e.option_error
                then (some_wait ≡ true)
                  × ((d.is_connected ≡ false)
                      × ((e.pending_options ≡ d.pending_options ++ some o ∷ [])
                          × (e.applied_options ≡ d.applied_options)))
                else (e.option_error ≡ err_none)
                  × ((e.applied_options ≡ d.applied_options ++ o ∷ [])
                      × (e.pending_options ≡ d.pending_options))
              else (e.applied_options ≡ d.applied_options)
                × (e.pending_options ≡ d.pending_options)))

  settle-Settled :
      (o : Setting) (d : Driver W) (r : OptionError × Driver W)
      → Keeps d r
      → Waits d r
      → Settled o d (settle o r.0 r.1)
  unfolding settle is_queued
  settle-Settled o d (err_none, e) k w =
      (k.0, (k.1.1.1, (refl, (ap (λ l. l ++ o ∷ []) k.1.0, k.1.1.0))))
  settle-Settled o d (err_disconnected, e) k w =
      (k.0, (k.1.1.1, ((w refl).0, ((w refl).1, (ap (λ l. l ++ some o ∷ []) k.1.1.0, k.1.0)))))
  settle-Settled o d (err_api_limit, e) k w = (k.0, (k.1.1.1, (k.1.0, k.1.1.0)))
  settle-Settled o d (err_api_reject, e) k w = (k.0, (k.1.1.1, (k.1.0, k.1.1.0)))
  settle-Settled o d (err_connected, e) k w = (k.0, (k.1.1.1, (k.1.0, k.1.1.0)))

  -- What set_option() returns tells whether the option is kept: it is false exactly if the option is
  -- in neither list, and true if one list got it at its end. The connection stays, and the client
  -- flags stay if there is one. An option waits only without a connection, in the versions 50013 to
  -- 50105 of the C API.
  pub set_option-Settled : (o : Setting) (d : Driver W) → Settled o d (set_option api o d)
  unfolding set_option
  set_option-Settled o d = settle-Settled o d (set api o d) (set-Keeps o d) (set-Waits o d)
