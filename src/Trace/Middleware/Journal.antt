-- ===== src/Trace/Middleware/Journal.antt =====
-- What one request leaves in a journal of everything that the middleware does to the world.
use gklog.Base.{
  ℕ, List, [], ◌∷◌, ◌++◌, Option, none, true, ◌≡◌, refl, sym, ap, ◌∙◌, leb, if◌then◌else◌, is_empty,
  append-nil, append_assoc, Bool-cases, inl, inr,
}
use gklog.Base.Int.{ℤ, pos}
use gklog.Text.{Bytes, codes}
use gklog.Errors.{Error}
use gklog.Time.{sub_time, milliseconds}
use gklog.NetHttp.{Header, header_get}
use gklog.Slog.{Attr, Record, kept, add_attrs, HandlerOps, level_info}
use gklog.Slog.Loggers.{Heap, Bound, handler_at, State, logger_with, log_attrs}
use gklog.Trace.Ids.{Chain, SpanIds, request_id_header, logger_with_context}
use gklog.Trace.Otel.{Tag, int, StatusCode, error, start_span}
use gklog.Trace.Response.{
  HttpOps, ResponseWriter, new_response_writer, Program, Outcome, returned, panicked, serve,
}
use gklog.Trace.Middleware.{
  Request, Server, Prepared, summary_attrs, beside, request_id_for, prepare_request, report_request,
  after_handler, finish_request, serve_request,
}

pub data Action : Type 0 where
  started : (span : ℕ) (name : Bytes) → Action
  header_set : (key value : Bytes) → Action
  tagged : (span : ℕ) → List Tag → Action
  status_set : (span : ℕ) → StatusCode → Bytes → Action
  error_recorded : (span : ℕ) → Error → Action
  logged : Record → Action
  ended : (span : ℕ) → Action
  -- anything that other code does
  other : ℕ → Action

abbrev pub Journal : Type 0
Journal = List Action

-- A handler that writes its records down with the attributes bound to it in front.
abbrev pub journal_ops : HandlerOps Bound Journal
journal_ops = record {
  enabled = λ h ctx level. true;
  handle = λ h ctx r w. (none, w ++ logged (record r { attrs = h ++ r.attrs }) ∷ []);
  with_attrs = λ h attrs. h ++ attrs;
  with_group = λ h name. h;
}

-- The rest of what is not in the repository: the clock, the numbers of spans, the identifiers.
pub record Outside : Type 0 where
  pub time : Journal → ℕ
  pub now : ℕ
  pub pc : ℕ
  pub uuid : Journal → Bytes
  pub fresh : Journal → ℕ
  pub span_ids : SpanIds
  pub extract : Header → Chain → Chain
  pub http : HttpOps Journal
  pub status_text : ℕ → Bytes
  pub duration_text : ℤ → Bytes

abbrev pub journaled : Outside → Server Journal
journaled out = record {
  clock = λ w. (out.time w, w);
  runtime = record { now = λ w. (out.now, w); caller = λ w. out.pc };
  otel = record {
    span_ids = out.span_ids;
    extract = out.extract;
    start =
        λ tracer name kind tags ctx w. ((ctx, out.fresh w), w ++ started (out.fresh w) name ∷ []);
    set_attributes = λ span tags w. w ++ tagged span tags ∷ [];
    set_status = λ span code text w. w ++ status_set span code text ∷ [];
    record_error = λ span e w. w ++ error_recorded span e ∷ [];
    end_span = λ span w. w ++ ended span ∷ [];
  };
  new_uuid = λ w. (out.uuid w, w);
  http = out.http;
  set_header = λ key value w. w ++ header_set key value ∷ [];
  status_text = out.status_text;
  duration_text = out.duration_text;
}

-- The summary of a request that was answered, as a record of the logger that has the attributes.
abbrev pub summary : Outside → ResponseWriter → ℤ → Bound → Record
summary out rw latency h = record {
  time = out.now;
  level = level_info;
  message = codes "request";
  pc = out.pc;
  attrs = h ++ summary_attrs out.duration_text rw latency;
}

-- What a request that was answered leaves behind its handler: the measurements on the span, an error
-- status for a server error, and one record. A panic leaves none of this.
abbrev pub report : Outside → Prepared → Outcome → ResponseWriter → State Bound Journal → Journal
report out p panicked rw st = []
report out p returned rw (heap, w) =
    let latency = sub_time (out.time w) p.start in
    tagged p.span (
      record { key = codes "http.response.status_code"; value = int (pos rw.status) }
      ∷ record { key = codes "http.response.body.size"; value = int (pos rw.bytes) }
      ∷ record { key = codes "http.server.duration_ms"; value = int (milliseconds latency) }
      ∷ [])
    ∷ ((if leb 500 rw.status then status_set p.span error (out.status_text rw.status) ∷ [] else [])
        ++ logged (summary out rw latency (handler_at heap p.log)) ∷ [])

-- Making a logger does nothing but that.
logger_with-world :
    {H W : Type 0} (ops : HandlerOps H W) (l : ℕ) (attrs : List Attr) (heap : Heap H) (w : W)
    → (logger_with ops l attrs (heap, w)).1.1 ≡ w
unfolding logger_with
logger_with-world ops l attrs heap w = elim (Bool-cases (is_empty attrs)) [
  | inl e ↦ rw e refl
  | inr e ↦ rw e refl
]

-- One action, perhaps another, and a last one.
pub three_behind :
    (w : Journal) (a b c : Action) → ((w ++ a ∷ []) ++ b ∷ []) ++ c ∷ [] ≡ w ++ a ∷ b ∷ c ∷ []
three_behind w a b c = append_assoc (w ++ a ∷ []) _ _ ∙ append_assoc w _ _

module _ (out : Outside) (instrumentation : Option Bytes) where
  report_request-report :
      (p : Prepared) (rw' : ResponseWriter) (heap : Heap Bound) (w : Journal)
      → report_request journal_ops (journaled out) instrumentation p rw' (heap, w)
        ≡ (heap, w ++ report out p returned rw' (heap, w))
  unfolding report_request log_attrs add_attrs kept
  report_request-report p rw' heap w = elim (Bool-cases (leb 500 rw'.status)) [
    | inl e ↦ rw e (ap (λ x. (heap, x)) (three_behind w _ _ _))
    | inr e ↦ rw e (ap (λ x. (heap, x)) (append_assoc w _ _))
  ]

  after_handler-report :
      (p : Prepared) (served : Outcome × (ResponseWriter × State Bound Journal))
      → after_handler journal_ops (journaled out) instrumentation p served
        ≡ (served.0, (served.1.1.0, served.1.1.1 ++ report out p served.0 served.1.0 served.1.1))
  unfolding after_handler
  after_handler-report p (returned, (rw', (heap, w))) =
      ap (λ st. (returned, st)) (report_request-report p rw' heap w)
  after_handler-report p (panicked, (rw', (heap, w))) =
      ap (λ x. (panicked, (heap, x))) (sym (append-nil w))

  request_id_for-world :
      (r : Request) (w : Journal)
      → (request_id_for journal_ops (journaled out) instrumentation r w).1 ≡ w
  unfolding request_id_for
  request_id_for-world r w = elim (Bool-cases (is_empty (header_get r.header request_id_header))) [
    | inl e ↦ rw e refl
    | inr e ↦ rw e refl
  ]

  prepare_request-world :
      (r : Request) (heap : Heap Bound) (w : Journal)
      → (prepare_request journal_ops (journaled out) instrumentation r (heap, w)).1.1
        ≡ w
          ++ started
              (prepare_request journal_ops (journaled out) instrumentation r (heap, w)).0.span
              (r.method ++ (codes " " ++ r.path))
            ∷ header_set request_id_header
                (prepare_request journal_ops (journaled out) instrumentation r (heap, w)).0.id
            ∷ []
  unfolding prepare_request start_span logger_with_context
  prepare_request-world r heap w =
      rw (logger_with-world, request_id_for-world r w) (append_assoc w _ _)

  -- What one request does, whatever its handler does: it starts a span and sets the header of the
  -- response, then comes all that the handler does, then the report if the handler returned, and
  -- none if it panicked, and last the span is ended, in both cases. The result tells a panic on.
  pub serve_request-journal :
      (next : Chain → Program (State Bound Journal)) (r : Request) (heap : Heap Bound) (w : Journal)
      → let (p, st) = prepare_request journal_ops (journaled out) instrumentation r (heap, w) in
        let (outcome, (rw', (heap', w'))) =
          serve (beside out.http) (next p.ctx) (new_response_writer, st) in
        (st.1
          ≡ w
            ++ started p.span (r.method ++ (codes " " ++ r.path))
              ∷ header_set request_id_header p.id
              ∷ [])
        × (serve_request journal_ops (journaled out) instrumentation next r (heap, w)
            ≡ (outcome, (heap', (w' ++ report out p outcome rw' (heap', w')) ++ ended p.span ∷ [])))
  unfolding serve_request finish_request
  serve_request-journal next r heap w =
      let (p, st) = prepare_request journal_ops (journaled out) instrumentation r (heap, w) in
      let served = serve (beside out.http) (next p.ctx) (new_response_writer, st) in
      (
        prepare_request-world r heap w,
        ap (λ x. finish_request journal_ops (journaled out) instrumentation p x)
            (after_handler-report p served),
      )
