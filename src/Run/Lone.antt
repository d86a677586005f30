-- ===== src/Run/Lone.antt =====
-- A lone argument is the parameter of a template with one parameter.
use libtabula.Prelude.{
  ◌≡◌, refl, Bool, true, false, [], ◌∷◌, some, ◌==◌, length, arith, ◌∙◌, get_elem?,
}
use libtabula.Prelude.Bytes.{Text}
use libtabula.Adapter.{of_text, copied}
use libtabula.Query.{Params, ok, push}
use libtabula.Query.Expand.{render, proc-render}
use libtabula.Run.Ends.{lone_in_flag, and-false}
use libtabula.Run.{
  Runner, Ran, done, bad_query, too_few, out_of_fuel, by_text, flag, unflag, lone, only, expand,
  with_text, dispatch, call,
}

unflag_twice : {R : Type 0} (x : Ran R) → unflag (unflag x) ≡ unflag x
unflag_twice (done r q) = refl
unflag_twice (bad_query q) = refl
unflag_twice (too_few q) = refl
unflag_twice (out_of_fuel q) = refl

module _ (escape : Text → Text) {R : Type 0} (send : Text → Runner → Ran R) (own_test : Bool) where
  expand-render :
      (p : Params) (q : Runner) (t : Text)
      → p.bound ≡ false
      → (length q.elems == 2) ≡ true
      → render escape (get_elem? p.items) q.elems ≡ some t
      → expand escape false p q ≡ ok (record { out = t; given = p; own = q.defaults })
  unfolding expand
  expand-render p q t u two r =
      let some_elems : (length q.elems == 0) ≡ false = ground arith in
      rw some_elems (proc-render escape q.elems _ t u r)

  -- A query whose template has one parameter and the text behind it takes a lone text, as if it were
  -- that parameter: what goes to the driver is the template with the text rendered in its place. The
  -- flag processing_ is up meanwhile, and down afterwards.
  pub call-render :
      (text : Text) (q : Runner) (t : Text)
      → q.processing ≡ false
      → (length q.elems == 2) ≡ true
      → render escape (get_elem? (of_text text false ∷ [])) q.elems ≡ some t
      → call escape send own_test 5 (by_text text) q
        ≡ unflag (send t (record q { out = t; processing = true }))
  unfolding call dispatch with_text push copied of_text
  call-render text q t down two r =
      let q' : Runner = record q { out = t; processing = true } in
      let is_lone : lone q ≡ true = unfold lone in ground (arith, down, two) in
      let not_lone : lone q' ≡ false = lone_in_flag q' refl in
      rw (is_lone, expand-render (only (of_text text false)) (flag true q) t refl two r)
        (unflag_twice _ ∙ rw (and-false own_test (lone q') not_lone, not_lone))
