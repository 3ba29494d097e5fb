-- ===== src/Factory/Laws.antt =====
-- The closer closes every handler that can be closed, once, and reports the first error; level names
-- are read without regard to case and white space around them.
use gklog.Base.{List, [], ◌∷◌, Option, none, some, true, false, ◌≡◌, ◌≢◌, ◌↔◌, refl, ap, ◌∙◌, arith}
use gklog.Text.{Bytes, codes, same_iff}
use gklog.Text.Trim.{trim_space, trim_space_idem}
use gklog.Errors.{Error}
use gklog.Slog.{level_debug, level_info, level_warn, level_error, CloserOps}
use gklog.Factory.{
  HandlerListCloser, keep_first, close_one, close_all, close, parse_level, trim_upper,
}

module _ {H W : Type 0} (closers : CloserOps H W) where
  abbrev with_run :
      Option (W → Option Error × W) → List (W → Option Error × W) → List (W → Option Error × W)
  with_run none rest = rest
  with_run (some run) rest = run ∷ rest

  -- The close methods of the handlers that have one.
  unfoldable pub closable : List H → List (W → Option Error × W)
  closable [] = []
  closable (h ∷ handlers) = with_run (closers.close h) (closable handlers)

  abbrev with_error : Option Error → List Error → List Error
  with_error none errs = errs
  with_error (some e) errs = e ∷ errs

  -- Running actions in turn, whatever they return; the errors in order.
  unfoldable pub run_each : List (W → Option Error × W) → W → List Error × W
  run_each [] w = ([], w)
  run_each (run ∷ runs) w =
      let (e, w') = run w in let (errs, w'') = run_each runs w' in (with_error e errs, w'')

  abbrev first_of : List Error → Option Error
  first_of [] = none
  first_of (e ∷ errs) = some e

  -- What the loop computes from a state of `first` and the world.
  abbrev closed_by : List (W → Option Error × W) → Option Error → W → Option Error × W
  closed_by runs first w = (keep_first first (first_of (run_each runs w).0), (run_each runs w).1)

  keep_first-with_error :
      (first e : Option Error) (errs : List Error)
      → keep_first (keep_first first e) (first_of errs)
        ≡ keep_first first (first_of (with_error e errs))
  keep_first-with_error none none errs = refl
  keep_first-with_error none (some e) errs = refl
  keep_first-with_error (some f) e errs = refl

  close_one-with_run :
      (handlers : List H) (rest : List (W → Option Error × W))
      → ((first : Option Error) (w : W)
          → close_all closers handlers (first, w) ≡ closed_by rest first w)
      → (o : Option (W → Option Error × W)) (first : Option Error) (w : W)
      → close_all closers handlers (close_one closers o (first, w))
        ≡ closed_by (with_run o rest) first w
  unfolding close_one run_each
  close_one-with_run handlers rest ih none first w = ih first w
  close_one-with_run handlers rest ih (some run) first w =
      let (e, w') = run w in
      ih (keep_first first e) w'
      ∙ ap (λ x. (x, (run_each rest w').1)) (keep_first-with_error first e (run_each rest w').0)

  close_all-run_each :
      (handlers : List H) (first : Option Error) (w : W)
      → close_all closers handlers (first, w) ≡ closed_by (closable handlers) first w
  unfolding close_all closable
  close_all-run_each [] none w = unfold run_each in refl
  close_all-run_each [] (some e) w = unfold run_each in refl
  close_all-run_each (h ∷ handlers) first w =
      close_one-with_run handlers (closable handlers) (close_all-run_each handlers)
        (closers.close h) first w

  first_close :
      (c : HandlerListCloser H) (w : W)
      → c.closed ≡ false
      → close closers c w ≡ (
        (first_of (run_each (closable c.handlers) w).0, record c { closed = true }),
        (run_each (closable c.handlers) w).1,
      )
  unfolding close
  first_close c w h =
      rw h
        (ap (λ x. ((x.0, record c { closed = true }), x.1)) (close_all-run_each c.handlers none w))

  -- The first Close runs the Close of every handler that has one, in order and whatever the others
  -- return, and reports the first of their errors; a second one does nothing and reports none.
  pub close_once :
      (c : HandlerListCloser H) (w : W)
      → c.closed ≡ false
      → (close closers c w ≡ (
        (first_of (run_each (closable c.handlers) w).0, record c { closed = true }),
        (run_each (closable c.handlers) w).1,
      ))
        × ((w' : W)
            → close closers (close closers c w).0.1 w' ≡ ((none, (close closers c w).0.1), w'))
  close_once c w h = (first_close c w h, λ w'. rw (first_close c w h) (unfold close in refl))

-- A level is read by the trimmed name in upper case: each of the names gives its level, and a text
-- that is none of them gives the level of WARN; white space around the name makes no difference.
parse_level_iff :
    (unicode_upper : Bytes → Bytes) (s : Bytes)
    → ((parse_level unicode_upper s ≡ level_debug) ↔ (trim_upper unicode_upper s ≡ codes "DEBUG"))
      × ((parse_level unicode_upper s ≡ level_info) ↔ (trim_upper unicode_upper s ≡ codes "INFO"))
      × ((parse_level unicode_upper s ≡ level_error) ↔ (trim_upper unicode_upper s ≡ codes "ERROR"))
      × ((parse_level unicode_upper s ≡ level_warn) ↔ (
          (trim_upper unicode_upper s ≢ codes "DEBUG")
          × (trim_upper unicode_upper s ≢ codes "INFO")
          × (trim_upper unicode_upper s ≢ codes "ERROR")))
      × (parse_level unicode_upper (trim_space s) ≡ parse_level unicode_upper s)
unfolding parse_level
parse_level_iff unicode_upper s =
    let name = trim_upper unicode_upper s in
    let d = same_iff name (codes "DEBUG") in
    let i = same_iff name (codes "INFO") in
    let e = same_iff name (codes "ERROR") in
    (
      (ground (arith, d), ground (arith, d)),
      (ground (arith, d, i), ground (arith, d, i)),
      (ground (arith, d, i, e), ground (arith, d, i, e)),
      (ground (arith, d, i, e), ground (arith, d, i, e)),
      rw trim_space_idem,
    )
