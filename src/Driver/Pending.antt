-- ===== src/Driver/Pending.antt =====
-- The queue of options and the connection.
use libtabula.Prelude.{
  ℕ, ◌≡◌, refl, sym, ap, ◌∙◌, subst, Bool, true, false, List, [], ◌∷◌, ◌++◌, some, leb, if_either,
  false≢true, arith, if◌then◌else◌, Bool-cases, inl, inr,
}
use libtabula.Driver.{
  OptionError, err_none, err_disconnected, Setting, reconnect, truth, opt_reconnect, Api, Driver,
}
use libtabula.Driver.Client.{set_by_api}
use libtabula.Driver.Settings.{set, impl_reconnect}
use libtabula.Driver.Connecting.{
  Ended, returned, undefined, ◌>>=◌, is_queued, settle, copy_failed, set_option, set_option_default,
  apply_each, apply_pending_options, disconnect, connect_to, connect_if, assign_connected, connect,
}
use libtabula.Driver.Flags.{some_wait, Settled, set_option-Settled}

module _ {W : Type 0} (api : Api W) where
  -- The operations of a program on a driver.
  pub data Op : Type 0 where
    op_set op_default : Setting → Op
    op_connect op_disconnect : Op

  unfoldable pub step : Op → Driver W → Ended (Driver W)
  unfolding set_option set_option_default connect disconnect
  step (op_set o) d = returned (set_option api o d).1
  step (op_default o) d = returned (set_option_default api o d).1
  step op_connect d = do r ← connect api d; returned r.1
  step op_disconnect d = returned (disconnect api d)

  unfoldable pub run : List Op → Driver W → Ended (Driver W)
  unfolding step
  run [] d = returned d
  run (op ∷ ops) d = do e ← step op d; run ops e

  -- A new connection, from a driver that has none: what mysql_real_connect() says is returned and
  -- kept as the mark of the connection.
  abbrev pub joined : Driver W → Bool × Driver W
  joined d =
      let (good, w) = api.mysql_real_connect d.client_flag d.mysql in
      (good, record d { is_connected = good; option_error = err_none; mysql = w })

  -- A driver in whose queue nothing waits, by its members.
  abbrev idle : Bool → OptionError → List Setting → ℕ → W → Driver W
  idle c e applied flag w = record {
    is_connected = c;
    option_error = e;
    applied_options = applied;
    pending_options = [];
    client_flag = flag;
    mysql = w;
  }

  connect_to-idle :
      (applied : List Setting) (flag : ℕ) (w : W)
      → (connect_to api (idle false err_none applied flag w) >>= λ r.
          returned (assign_connected api r))
        ≡ returned (joined (idle false err_none applied flag w))
  unfolding connect_to apply_pending_options apply_each copy_failed assign_connected
  connect_to-idle applied flag w = elim (Bool-cases (api.mysql_real_connect flag w).0) [
    | inl good ↦ rw good
    | inr bad ↦ rw bad
  ]

  connect-idle :
      (c : Bool) (e : OptionError) (applied : List Setting) (flag : ℕ) (w : W)
      → connect api (idle c e applied flag w)
        ≡ returned (joined (disconnect api (idle c e applied flag w)))
  unfolding connect disconnect apply_pending_options apply_each copy_failed connect_if
  connect-idle true e applied flag w =
      connect_to-idle applied 0 (api.mysql_memset (api.mysql_close w))
  connect-idle false e applied flag w = connect_to-idle applied flag w

  -- If no option waits, connect() closes the connection that there is, and makes a new one: what
  -- mysql_real_connect() says is returned and kept as the mark of the connection, and the options
  -- that were applied stay.
  pub connect-joined :
      (d : Driver W) → d.pending_options ≡ [] → connect api d ≡ returned (joined (disconnect api d))
  connect-joined d h =
      let same : d ≡ record d { pending_options = [] } =
        ap (λ p. record d { pending_options = p }) h in
      subst (λ e. connect api e ≡ returned (joined (disconnect api e))) (sym same)
        (connect-idle d.is_connected d.option_error d.applied_options d.client_flag d.mysql)

  disconnect-pending : (d : Driver W) → (disconnect api d).pending_options ≡ d.pending_options
  unfolding disconnect
  disconnect-pending d =
      if_either (λ (e : Driver W). e.pending_options ≡ d.pending_options) d.is_connected _ _
        (λ up. refl) (λ down. refl)

  pick :
      (b : Bool) {A B P : Type 0}
      → (b ≡ true → A → P)
      → (b ≡ false → B → P)
      → (if b then A else B)
      → P
  pick true f g x = f refl x
  pick false f g x = g refl x

  set_option-idle :
      (o : Setting) (d : Driver W)
      → some_wait api ≡ false
      → d.pending_options ≡ []
      → (set_option api o d).1.pending_options ≡ []
  set_option-idle o d never h = idle_after (set_option api o d) (set_option-Settled api o d)
    where
      idle_after : (r : Bool × Driver W) → Settled api o d r → r.1.pending_options ≡ []
      idle_after (false, e) s = s.1.1.1 ∙ h
      idle_after (true, e) s =
          pick (is_queued e.option_error) (λ q waits. absurd (false≢true (sym never ∙ waits.0)))
            (λ q kept. kept.1.1 ∙ h) s.1.1

  set_option_default-idle :
      (o : Setting) (d : Driver W)
      → some_wait api ≡ false
      → d.pending_options ≡ []
      → (set_option_default api o d).1.pending_options ≡ []
  unfolding set_option_default
  set_option_default-idle o d never h = by_applied d.applied_options
    where
      by_applied :
          (l : List Setting)
          → (elim l as (λ x. Bool × Driver W) [
            | [] ↦ set_option api o d
            | ◌∷◌ a more ↦ (true, d)
          ]).1.pending_options
            ≡ []
      by_applied [] = set_option-idle o d never h
      by_applied (a ∷ l) = h

  -- An operation that comes to its end with no option waiting.
  Idles : Ended (Driver W) → Type 0
  Idles r = (e : Driver W) × ((r ≡ returned e) × (e.pending_options ≡ []))

  step-Idles :
      (op : Op) (d : Driver W) → some_wait api ≡ false → d.pending_options ≡ [] → Idles (step op d)
  unfolding step Idles
  step-Idles (op_set o) d never h = ((set_option api o d).1, (refl, set_option-idle o d never h))
  step-Idles (op_default o) d never h =
      ((set_option_default api o d).1, (refl, set_option_default-idle o d never h))
  step-Idles op_connect d never h = (
    (joined (disconnect api d)).1,
    (ap (λ r. r >>= λ p. returned p.1) (connect-joined d h), disconnect-pending d ∙ h),
  )
  step-Idles op_disconnect d never h = (disconnect api d, (refl, disconnect-pending d ∙ h))

  -- In the versions in which no option waits for the connection, each sequence of operations on a
  -- driver with an empty queue comes to its end with an empty queue: no null pointer is used.
  pub run-Idles :
      (ops : List Op) (d : Driver W)
      → some_wait api ≡ false
      → d.pending_options ≡ []
      → (e : Driver W) × ((run ops d ≡ returned e) × (e.pending_options ≡ []))
  unfolding run Idles
  run-Idles [] d never h = (d, (refl, h))
  run-Idles (op ∷ ops) d never h =
      let (e, (now, idle_now)) = step-Idles op d never h in
      let (f, (later, idle_later)) = run-Idles ops e never idle_now in
      (f, (ap (λ r. r >>= run ops) now ∙ later, idle_later))

  -- The option to reconnect without a connection, in the versions in which it waits.
  module _ (waits : some_wait api ≡ true) (b : Bool) where
    new_enough : leb 50013 api.version ≡ true
    new_enough = ground (arith, waits)

    too_old : leb 50106 api.version ≡ false
    too_old = ground (arith, waits)

    set-reconnect :
        (d : Driver W) → d.is_connected ≡ false → set api (reconnect b) d ≡ (err_disconnected, d)
    unfolding set impl_reconnect
    set-reconnect d down =
        let stays : (if d.is_connected
              then set_by_api api opt_reconnect (truth b) d
              else (err_disconnected, d))
            ≡ (err_disconnected, d) =
          ap (λ c. if c then set_by_api api opt_reconnect (truth b) d else (err_disconnected, d))
            down in
        rw (too_old, new_enough) stays

    set_option-reconnect :
        (d : Driver W)
        → d.is_connected ≡ false
        → set_option api (reconnect b) d ≡ settle (reconnect b) err_disconnected d
    unfolding set_option
    set_option-reconnect d down = ap (λ r. settle (reconnect b) r.0 r.1) (set-reconnect d down)

    apply-undefined :
        (e : OptionError) (applied : List Setting) (flag : ℕ) (w : W)
        → connect api (settle (reconnect b) err_disconnected (idle false e applied flag w)).1
          ≡ undefined
    unfolding settle connect disconnect apply_pending_options apply_each is_queued
    apply-undefined e applied flag w =
        let d : Driver W = record (idle false err_none applied flag w) {
          pending_options = some (reconnect b) ∷ [];
        } in
        rw (set_option-reconnect d refl, settle)

    -- In the versions 50013 to 50105, the option to reconnect that is set before the connection is
    -- made is queued and reported as set, and then connect() is undefined: the loop over the queue
    -- puts the option back into the queue that it runs over.
    pub connect-undefined :
        (d : Driver W)
        → d.is_connected ≡ false
        → d.pending_options ≡ []
        → ((set_option api (reconnect b) d).0 ≡ true)
          × (connect api (set_option api (reconnect b) d).1 ≡ undefined)
    unfolding settle
    connect-undefined d down h =
        let queued = set_option-reconnect d down in
        let same : d ≡ idle false d.option_error d.applied_options d.client_flag d.mysql =
          λ i. record d { pending_options = h i; is_connected = down i } in
        (
          ap (λ r. r.0) queued,
          ap (λ r. connect api r.1) queued
              ∙ ap (λ e. connect api (settle (reconnect b) err_disconnected e).1) same
              ∙ apply-undefined d.option_error d.applied_options d.client_flag d.mysql,
        )

  skip_default :
      (p a : Setting) (l : List Setting) (e : Driver W)
      → e.applied_options ≡ a ∷ l
      → set_option_default api p e ≡ (true, e)
  unfolding set_option_default
  skip_default p a l e h =
      let same : e ≡ record e { applied_options = a ∷ l } =
        ap (λ m. record e { applied_options = m }) h in
      subst (λ d. set_option_default api p d ≡ (true, d)) (sym same) refl

  skip_added :
      (p o : Setting) (l : List Setting) (e : Driver W)
      → e.applied_options ≡ l ++ o ∷ []
      → set_option_default api p e ≡ (true, e)
  skip_added p o [] e h = skip_default p o [] e h
  skip_added p o (a ∷ l) e h = skip_default p a (l ++ o ∷ []) e h

  -- Once an option was applied, set_option_default() does not set any other one, whatever its type.
  pub set_option_default-set_option :
      (o p : Setting) (d : Driver W)
      → (set_option api o d).0 ≡ true
      → is_queued (set_option api o d).1.option_error ≡ false
      → set_option_default api p (set_option api o d).1 ≡ (true, (set_option api o d).1)
  set_option_default-set_option o p d good h =
      after (set_option api o d) (set_option-Settled api o d) h good
    where
      after :
          (r : Bool × Driver W)
          → Settled api o d r
          → is_queued r.1.option_error ≡ false
          → r.0 ≡ true
          → set_option_default api p r.1 ≡ (true, r.1)
      after (false, e) s h good = absurd (false≢true good)
      after (true, e) s h good =
          pick (is_queued e.option_error) (λ q waits. absurd (false≢true (sym h ∙ q)))
            (λ q kept. skip_added p o d.applied_options e kept.1.0) s.1.1
