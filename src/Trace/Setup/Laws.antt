-- ===== src/Trace/Setup/Laws.antt =====
-- Which shutdowns Close runs, what it reports, and what a failing Setup leaves behind.
use gklog.Base.{
  List, [], ◌∷◌, ◌++◌, Option, none, some, inl, inr, ◌≡◌, ◌↔◌, refl, sym, ap, ◌∙◌, reverse,
  if◌then◌else◌, is_empty, Bool-cases, append_assoc, append-nil,
}
use gklog.Text.{Bytes}
use gklog.Text.Trim.{trim_space}
use gklog.Errors.{Error, of_list, to_list, unwrap}
use gklog.Trace.Otel.{default_instrumentation_name, tracer_name}
use gklog.Trace.Setup.{
  Options, Sdk, setup, stored_name, append_error, run_shutdowns, shutdown_result, close,
}

abbrev as_list : Option Error → List Error
as_list none = []
as_list (some e) = e ∷ []

-- Actions in turn, each in the world that the one before it left; their errors in order.
unfoldable pub each : {W : Type 0} → List (W → Option Error × W) → W → List Error × W
each [] w = ([], w)
each (run ∷ runs) w =
    let (e, w') = run w in let (errs, w'') = each runs w' in (as_list e ++ errs, w'')

append_error-as_list :
    (errs : List Error) (e : Option Error) → append_error errs e ≡ errs ++ as_list e
append_error-as_list errs none = sym (append-nil errs)
append_error-as_list errs (some e) = refl

run_shutdowns-each :
    {W : Type 0} (runs : List (W → Option Error × W)) (errs : List Error) (w : W)
    → run_shutdowns runs (errs, w) ≡ (errs ++ (each runs w).0, (each runs w).1)
unfolding run_shutdowns each
run_shutdowns-each [] errs w = ap (λ x. (x, w)) (sym (append-nil errs))
run_shutdowns-each (run ∷ runs) errs w =
    ap (λ x. run_shutdowns runs (x, (run w).1)) (append_error-as_list errs (run w).0)
    ∙ run_shutdowns-each runs (errs ++ as_list (run w).0) (run w).1
    ∙ ap (λ x. (x, (each runs (run w).1).1))
        (append_assoc errs (as_list (run w).0) (each runs (run w).1).0)

to_list-of_list : (errs : List Error) → to_list (of_list errs) ≡ errs
to_list-of_list [] = refl
to_list-of_list (e ∷ errs) = ap (λ t. e ∷ t) (to_list-of_list errs)

-- The errors that a result of Close wraps.
abbrev pub wrapped_errors : Option Error → List Error
wrapped_errors none = []
wrapped_errors (some e) = unwrap e

result-errors : (errs : List Error) → wrapped_errors (shutdown_result errs) ≡ errs
unfolding unwrap
result-errors [] = refl
result-errors (e ∷ errs) = ap (λ t. e ∷ t) (to_list-of_list errs)

result_none : (errs : List Error) → (shutdown_result errs ≡ none) ↔ (errs ≡ [])
result_none [] = (λ h. refl, λ h. refl)
result_none (e ∷ errs) = (λ h. cc, λ h. cc)

none_iff :
    {W : Type 0} (shutdowns : List (W → Option Error × W)) (w : W)
    → ((close shutdowns w).0 ≡ none) ↔ ((each (reverse shutdowns) w).0 ≡ [])
unfolding close
none_iff shutdowns w =
    rw (run_shutdowns-each (reverse shutdowns) [] w) (result_none (each (reverse shutdowns) w).0)

-- Close runs every shutdown, the last one first, whatever the others return; the errors that its own
-- error wraps are all of theirs in that order, and it reports no error exactly if there is none.
pub close-each :
    {W : Type 0} (shutdowns : List (W → Option Error × W)) (w : W)
    → (wrapped_errors (close shutdowns w).0 ≡ (each (reverse shutdowns) w).0)
      × ((close shutdowns w).1 ≡ (each (reverse shutdowns) w).1)
      × (((close shutdowns w).0 ≡ none) ↔ ((each (reverse shutdowns) w).0 ≡ []))
unfolding close
close-each shutdowns w =
    let e = run_shutdowns-each (reverse shutdowns) [] w in
    (
      ap (λ x. wrapped_errors (shutdown_result x.0)) e
          ∙ result-errors (each (reverse shutdowns) w).0,
      ap (λ x. x.1) e,
      none_iff shutdowns w,
    )

-- The tracers that are made after Setup have the name of its options without white space around it,
-- or the default one if it is blank: also when Setup fails, and whatever name was set before.
pub tracer_name-setup :
    {R X W : Type 0} (sdk : Sdk R X W) (opts : Options) (before : Option Bytes) (w : W)
    → tracer_name (setup sdk opts before w).0.1 ≡ (
        if is_empty (trim_space opts.instrumentation_name)
        then default_instrumentation_name
        else trim_space opts.instrumentation_name)
unfolding setup stored_name tracer_name
tracer_name-setup sdk opts before w =
    elim (Bool-cases (is_empty (trim_space opts.instrumentation_name))) [
      | inl e ↦ rw e refl
      | inr e ↦ rw (e, e) refl
    ]
