-- ===== src/Trace/Setup.antt =====
-- trace/setup.go: Setup and the closer that it returns. The SDK, its OTLP exporter and url.Parse are
-- parameters; the contexts with a timeout of 5 seconds that they are given are left out. The variable
-- instrumentationName is passed along.
pub mod Laws
use gklog.Base.{
  ℕ, List, [], ◌∷◌, ◌++◌, Option, none, some, Bool, true, false, not, ◌&&◌, ◌⊎◌, inl, inr, ◌≡◌,
  refl, ap, ◌∙◌, sym, reverse, if◌then◌else◌, is_empty, Bool-cases, append_assoc, append-nil,
}
use gklog.Text.{Bytes, codes, same}
use gklog.Text.Trim.{trim_space}
use gklog.Errors.{Error, otel_setup_error, shutdown_error, of_list, to_list, unwrap}
use gklog.Trace.Otel.{Tag, string, default_instrumentation_name, tracer_name}

pub record Options : Type 0 where
  pub service_name : Bytes
  pub service_namespace : Bytes
  pub instrumentation_name : Bytes
  pub endpoint : Bytes

-- `R` is a resource and `X` an exporter. `install` makes a provider of them and sets the globals; its
-- first result is the provider's Shutdown. `parse_url` gives the scheme and the host.
pub record Sdk (R X W : Type 0) : Type 0 where
  pub default_resource : R
  pub merge_default : List Tag → W → (Error ⊎ R) × W
  pub parse_url : Bytes → Option (Bytes × Bytes)
  pub new_exporter : (insecure : Bool) → (endpoint : Bytes) → W → (Error ⊎ X) × W
  pub install : R → Option X → W → (W → Option Error × W) × W

abbrev wrapped : {A W : Type 0} → Bytes → (Error ⊎ A) × W → (Error ⊎ A) × W
wrapped op (inl e, w) = (inl (otel_setup_error op e), w)
wrapped op (inr a, w) = (inr a, w)

abbrev tag_if : Bytes → Bytes → List Tag
tag_if key value =
    if not (is_empty value) then record { key = key; value = string value } ∷ [] else []

unfoldable pub resource_tags : Options → List Tag
resource_tags opts =
    tag_if (codes "service.name") (trim_space opts.service_name)
    ++ tag_if (codes "service.namespace") (trim_space opts.service_namespace)

-- The endpoint to dial, and whether without TLS: a URL gives its host.
abbrev dial : Bytes → Option (Bytes × Bytes) → Bool × Bytes
dial endpoint none = (false, endpoint)
dial endpoint (some (scheme, host)) =
    if not (is_empty host) then (same scheme (codes "http"), host) else (false, endpoint)

-- The name that Setup stores.
unfoldable pub stored_name : Options → Bytes
stored_name opts =
    if is_empty (trim_space opts.instrumentation_name)
    then default_instrumentation_name
    else trim_space opts.instrumentation_name

module _ {R X W : Type 0} (sdk : Sdk R X W) where
  unfoldable pub build_resource : Options → W → (Error ⊎ R) × W
  unfolding resource_tags
  build_resource opts w =
      if is_empty (resource_tags opts)
      then (inr sdk.default_resource, w)
      else wrapped (codes "merge resource") (sdk.merge_default (resource_tags opts) w)

  unfoldable pub new_trace_exporter : Bytes → W → (Error ⊎ X) × W
  new_trace_exporter endpoint w =
      let (insecure, target) = dial endpoint (sdk.parse_url endpoint) in
      wrapped (codes "otlp exporter") (sdk.new_exporter insecure target w)

  -- The exporter of an endpoint, `none` if there is no endpoint.
  maybe_exporter : Bytes → W → (Error ⊎ Option X) × W
  unfolding new_trace_exporter
  maybe_exporter endpoint w =
      let (x, w') = new_trace_exporter endpoint w in
      if is_empty endpoint
      then (inr none, w)
      else (elim x [ inl e ↦ inl e | inr x ↦ inr (some x) ], w')

  with_exporter : R → (Error ⊎ Option X) × W → (Error ⊎ List (W → Option Error × W)) × W
  with_exporter resource (inl e, w) = (inl e, w)
  with_exporter resource (inr exporter, w) =
      let (shutdown, w') = sdk.install resource exporter w in (inr (shutdown ∷ []), w')

  with_resource : Options → (Error ⊎ R) × W → (Error ⊎ List (W → Option Error × W)) × W
  unfolding maybe_exporter with_exporter
  with_resource opts (inl e, w) = (inl e, w)
  with_resource opts (inr resource, w) =
      with_exporter resource (maybe_exporter (trim_space opts.endpoint) w)

  -- The variable instrumentationName after Setup stands in the middle.
  unfoldable pub setup :
      Options → Option Bytes → W → ((Error ⊎ List (W → Option Error × W)) × Option Bytes) × W
  unfolding build_resource with_resource stored_name
  setup opts instrumentation w =
      let (r, w') = with_resource opts (build_resource opts w) in ((r, some (stored_name opts)), w')

-- `if err := shutdown(ctx); err != nil { errs = append(errs, err) }`
abbrev append_error : List Error → Option Error → List Error
append_error errs none = errs
append_error errs (some e) = errs ++ e ∷ []

abbrev shutdown_result : List Error → Option Error
shutdown_result [] = none
shutdown_result (e ∷ errs) = some (shutdown_error (of_list (e ∷ errs)))

module _ {W : Type 0} where
  run_shutdowns : List (W → Option Error × W) → List Error × W → List Error × W
  run_shutdowns [] st = st
  run_shutdowns (shutdown ∷ shutdowns) (errs, w) =
      let (e, w') = shutdown w in run_shutdowns shutdowns (append_error errs e, w')

  -- traceCloser.Close, from the last shutdown to the first.
  unfoldable pub close : List (W → Option Error × W) → W → Option Error × W
  unfolding run_shutdowns
  close shutdowns w =
      let (errs, w') = run_shutdowns (reverse shutdowns) ([], w) in (shutdown_result errs, w')
