-- ===== src/Tests/Routing.antt =====
-- The theorems on the router, applied, over handlers that are numbers.
use gklog.Base.{
  ℕ, ◌+◌, List, [], ◌∷◌, ◌++◌, Option, none, some, true, false, map, ◌≡◌, refl, length,
}
use gklog.Base.Int.{pos}
use gklog.Text.{codes}
use gklog.Text.Trim.{trim_space}
use gklog.Slog.Steps.{Step, bind, enter}
use gklog.Slog.{Record, string_attr, keys, value_string, resolve}
use gklog.Rotation.{no_config}
use gklog.Router.{
  RouterOptions, Router, new_router, Children, lookup, concern_of, first_value, or_fallback,
  FileMaker, apply_state, child_for, with_attrs, attr_concern,
}
use gklog.Router as Router
use gklog.Router.{router_ops}
use gklog.Router.Correlated.{event, handle-both_sinks}
use gklog.Text.Keys.{has}
use gklog.Correlation.Context.{normalize}
use gklog.Correlation.Carry.{from_context}
use gklog.Correlation.Attrs.{attrs_of}
use gklog.Correlation.Handler.{SlogHandler, enhance}
use gklog.Correlation.Handler as Correlation
use gklog.Correlation.Handler.Strict.{at, diagnostics}
use gklog.Router.Keep.{Event, run, child_for-run, present, handle-tee}
use gklog.Router.Derive.{derive_all, within, bound, apply_state-derive_all, concern_of_lem}
use gklog.Tee as Tee
use gklog.Tests.World.{calling, entry, numbered}

abbrev options : RouterOptions
options = record {
  fallback_concern = [];
  rotation = no_config;
  concern_attr = [];
  path_for_concern = none;
  level_for_concern = none;
}

abbrev router : Router ℕ
router = record {
  dir = codes "logs";
  level = pos 0;
  rotation = no_config;
  fallback_concern = codes "default";
  combined = some 3;
  concern_attr = [];
  path_for_concern = λ concern. concern ++ codes ".jsonl";
  level_for_concern = λ concern. pos 0;
  attrs = [];
  groups = [];
}

router_lem : new_router (codes "logs") (pos 0) (some 3) options ≡ router
unfolding new_router trim_space
router_lem = refl

-- Each new handler is a new number.
abbrev files : FileMaker ℕ (List ℕ)
files = record {
  mkdir_all = λ dir w. w;
  file_json = λ path level rotation w. (length w + 6, w ++ 0 ∷ []);
}

abbrev dotted : Record
dotted = record entry { message = codes "mcp.tool.started" }

abbrev first_event : Event ℕ
first_event = record { by = router; ctx = none; of = dotted }

abbrev other_event : Event ℕ
other_event = record { by = router; ctx = none; of = entry }

child_for-run_example :
    (h : Option ℕ) × (lookup
        (concern_of router dotted)
        (Router.handle numbered files router none dotted ([], [])).0
      ≡ some h)
    × (child_for files router
          (concern_of router dotted)
          (run numbered files (first_event ∷ other_event ∷ []) ([], []))
        ≡ (h, run numbered files (first_event ∷ other_event ∷ []) ([], [])))
child_for-run_example = child_for-run numbered files first_event (other_event ∷ []) router [] []

abbrev opened : Children ℕ
opened = (codes "default", some 7) ∷ []

fallback_known : lookup (concern_of router entry) opened ≡ some (some 7)
unfolding lookup concern_of
fallback_known = refl

handle-tee_example : Router.handle numbered files router none entry (opened, []) ≡ (
  opened,
  (Tee.handle numbered
      (record {
        children =
            present (apply_state numbered router (some 3))
            ++ present (apply_state numbered router (some 7));
      })
      none
      entry
      []).1,
)
handle-tee_example = handle-tee numbered files router none entry opened [] (some 7) fallback_known

abbrev calls : List Step
calls = bind (string_attr (codes "a") (codes "1") ∷ []) ∷ enter (codes "rpc") ∷ enter [] ∷ []

apply_state-derive_all_example :
    apply_state numbered
      (derive_all (new_router (codes "logs") (pos 0) (some 3) options) calls)
      (some 3)
    ≡ some (
        bound numbered
          (string_attr (codes "a") (codes "1") ∷ [])
          (within numbered (codes "rpc" ∷ []) 3))
apply_state-derive_all_example =
    apply_state-derive_all numbered (codes "logs") (pos 0) (some 3) options calls 3

-- A router with a concern attribute that is bound and empty; the one of the record is not asked.
abbrev by_attr : Router ℕ
by_attr = record router {
  concern_attr = codes "app";
  attrs = string_attr (codes "app") [] ∷ string_attr (codes "app") (codes "b") ∷ [];
}

concern_of_lem_example : concern_of by_attr dotted ≡ codes "default"
unfolding value_string resolve
concern_of_lem_example = concern_of_lem by_attr dotted

abbrev traced : SlogHandler (Router ℕ)
traced = record { next = router; attrs = []; strict = true; required = codes "tenant" ∷ [] }

no_attr : has [] (keys (attrs_of (from_context calling))) ≡ false
unfolding from_context attrs_of normalize trim_space
no_attr = refl

handle-both_sinks_example :
    let (children', w') =
      run numbered files
        (map (event router calling) (diagnostics traced (from_context calling) entry 9))
        (opened, []) in
    Correlation.handle (router_ops numbered files) (at 9) traced calling entry (opened, []) ≡ (
      none,
      (
        children',
        (Tee.handle numbered
            (record {
              children =
                  present (apply_state numbered router (some 3))
                  ++ present (apply_state numbered router (some 7));
            })
            calling
            (enhance traced (from_context calling) entry)
            w').1,
      ),
    )
handle-both_sinks_example =
    handle-both_sinks numbered files traced calling entry 9 opened [] (some 7) no_attr
      fallback_known
