-- ===== src/Trace/Middleware.antt =====
-- trace/middleware.go: RequestLogger. http.StatusText and Duration.String are parameters, and so is
-- the package uuid.
pub mod Identify
pub mod Journal
use gklog.Base.{
  ℕ, List, [], ◌∷◌, ◌++◌, Option, none, some, Bool, true, false, not, ◌≡◌, refl, sym, ap, ◌∙◌, leb,
  if◌then◌else◌, is_empty, append_assoc, Bool-cases, inl, inr,
}
use gklog.Base.Int.{ℤ, pos}
use gklog.Text.{Bytes, codes}
use gklog.Text.Decimal.{decimal}
use gklog.Time.{sub_time, milliseconds, int_text}
use gklog.Errors.{Error}
use gklog.NetHttp.{Header, header_get}
use gklog.Slog.{Attr, scalar, string_attr, HandlerOps, level_info}
use gklog.Slog.Loggers.{
  Heap, handler_at, alloc, handler_at-alloc, Runtime, State, logger_with, log_attrs,
}
use gklog.Ctx.{logger, request_id}
use gklog.Logger.{logger_from_context}
use gklog.Trace.Ids.{
  Chain, SpanIds, request_id_header, with_request_metadata, request_id_of, id_from_context,
  span_id_from_context, logger_attrs, logger_with_context, store_logger,
}
use gklog.Trace.Otel.{Tag, string, int, server, error, Otel, IsOtel, start_span}
use gklog.Trace.Response.{
  HttpOps, ResponseWriter, new_response_writer, Program, Outcome, returned, panicked, serve,
}
use gklog.Clock.{Clock, system, or_system}

pub record Request : Type 0 where
  pub method : Bytes
  pub path : Bytes
  pub remote_addr : Bytes
  pub header : Header
  pub ctx : Chain

-- What is not in the repository: the clocks, OpenTelemetry, uuid.New, the response and two functions
-- that render.
pub record Server (W : Type 0) : Type 0 where
  pub clock : W → ℕ × W
  pub runtime : Runtime W
  pub otel : Otel W
  pub new_uuid : W → Bytes × W
  pub http : HttpOps W
  pub set_header : Bytes → Bytes → W → W
  pub status_text : ℕ → Bytes
  pub duration_text : ℤ → Bytes

-- What the lines above `next.ServeHTTP` make.
pub record Prepared : Type 0 where
  pub start : ℕ
  pub id : Bytes
  pub ctx : Chain
  pub span : ℕ
  pub log : ℕ

abbrev span_tags : Request → Bytes → List Tag
span_tags r id =
    record { key = codes "http.request.method"; value = string r.method }
    ∷ record { key = codes "url.path"; value = string r.path }
    ∷ record { key = codes "client.address"; value = string r.remote_addr }
    ∷ record { key = codes "http.request.header.x_request_id"; value = string id }
    ∷ []

abbrev pub request_attrs : Request → List Attr
request_attrs r =
    string_attr (codes "method") r.method
    ∷ string_attr (codes "path") r.path
    ∷ string_attr (codes "remote_addr") r.remote_addr
    ∷ []

-- The attributes of the summary record.
abbrev pub summary_attrs : (ℤ → Bytes) → ResponseWriter → ℤ → List Attr
summary_attrs duration_text rw latency =
    record { key = codes "status"; value = scalar (decimal rw.status) (decimal rw.status) }
    ∷ record { key = codes "bytes"; value = scalar (decimal rw.bytes) (decimal rw.bytes) }
    ∷ record {
      key = codes "latency";
      value = scalar (duration_text latency) (duration_text latency);
    }
    ∷ []

-- An http.ResponseWriter acts on the world beside the loggers.
abbrev pub beside : {H W : Type 0} → HttpOps W → HttpOps (State H W)
beside http = record {
  write_header = λ s st. (st.0, http.write_header s st.1);
  write = λ b st. ((http.write b st.1).0, (st.0, (http.write b st.1).1));
}

module _ {H W : Type 0} (ops : HandlerOps H W) (srv : Server W)
    (instrumentation : Option Bytes) where
  request_id_for : Request → W → Bytes × W
  request_id_for r w =
      let given = header_get r.header request_id_header in
      if is_empty given then srv.new_uuid w else (given, w)

  unfoldable pub prepare_request : Request → State H W → Prepared × State H W
  unfolding request_id_for
  prepare_request r (heap, w) =
      let (start, w1) = srv.clock w in
      let (id, w2) = request_id_for r w1 in
      let ctx1 = srv.otel.extract r.header (with_request_metadata r.ctx id) in
      let ((ctx2, span), w3) =
        start_span srv.otel instrumentation (r.method ++ (codes " " ++ r.path)) server
          (span_tags r id) ctx1 w2 in
      let (l, (heap', w4)) =
        logger_with_context ops srv.otel.span_ids ctx2 0 (request_attrs r) (heap, w3) in
      (
        record { start = start; id = id; ctx = store_logger ctx2 l; span = span; log = l },
        (heap', srv.set_header request_id_header id w4),
      )

  -- What follows `next.ServeHTTP` if that returns.
  unfoldable pub report_request : Prepared → ResponseWriter → State H W → State H W
  report_request p rw (heap, w) =
      let (t, w1) = srv.clock w in
      let latency = sub_time t p.start in
      let w2 =
        srv.otel.set_attributes p.span
          (record { key = codes "http.response.status_code"; value = int (pos rw.status) }
            ∷ record { key = codes "http.response.body.size"; value = int (pos rw.bytes) }
            ∷ record { key = codes "http.server.duration_ms"; value = int (milliseconds latency) }
            ∷ [])
          w1 in
      let w3 =
        if leb 500 rw.status
        then srv.otel.set_status p.span error (srv.status_text rw.status) w2
        else w2 in
      log_attrs ops srv.runtime p.log (some p.ctx) level_info (codes "request")
        (summary_attrs srv.duration_text rw latency) (heap, w3)

  -- A panic of the handler leaves out what follows the call.
  unfoldable pub after_handler :
      Prepared → Outcome × (ResponseWriter × State H W) → Outcome × State H W
  unfolding report_request
  after_handler p (returned, (rw, st)) = (returned, report_request p rw st)
  after_handler p (panicked, (rw, st)) = (panicked, st)

  -- The deferred End of the span, which runs on a panic too; the panic goes on behind it.
  unfoldable pub finish_request : Prepared → Outcome × State H W → Outcome × State H W
  finish_request p (outcome, (heap, w)) = (outcome, (heap, srv.otel.end_span p.span w))

  unfoldable pub serve_request :
      (Chain → Program (State H W)) → Request → State H W → Outcome × State H W
  unfolding prepare_request after_handler finish_request
  serve_request next r st =
      let (p, st1) = prepare_request r st in
      let served = serve (beside srv.http) (next p.ctx) (new_response_writer, st1) in
      finish_request p (after_handler p served)

-- requestLoggerWithClock and RequestLogger: the clock may be nil.
module _ {H W : Type 0} (ops : HandlerOps H W) (srv : Server W) (time_now : W → ℕ × W)
    (instrumentation : Option Bytes) where
  unfoldable pub request_logger_with_clock :
      (Chain → Program (State H W)) → Option (Clock W) → Request → State H W → Outcome × State H W
  unfolding serve_request
  request_logger_with_clock next request_clock =
      serve_request ops (record srv { clock = (or_system time_now request_clock).now })
        instrumentation next

  unfoldable pub request_logger :
      (Chain → Program (State H W)) → Request → State H W → Outcome × State H W
  unfolding request_logger_with_clock
  request_logger next = request_logger_with_clock next (some (system time_now))
