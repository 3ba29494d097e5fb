-- ===== src/Tests/Serving.antt =====
-- The theorems on a whole request and a whole query, applied to a handler that writes a part and panics,
-- and to a query that fails.
use gklog.Base.{ℕ, refl, [], ◌∷◌, ◌++◌, none, some, ◌≡◌, length}
use gklog.Base.Int.{pos}
use gklog.Text.{Bytes, codes}
use gklog.Time.{sub_time}
use gklog.Errors.{Error}
use gklog.Ctx.{Binding, request_id}
use gklog.Logger.{logger_from_context}
use gklog.Trace.Query.{EndData, query_start_of, trace_query_start, trace_query_end}
use gklog.Trace.Query.Laws.{KeepsStart}
use gklog.Trace.Query.Journal.{querying, query_report, trace_query_end-journal}
use gklog.NetHttp
use gklog.Slog.{string_attr}
use gklog.Slog.Loggers.{Heap, Bound, State, handler_at, logger_with}
use gklog.Trace.Otel.{start_span}
use gklog.Trace.Ids.{
  Chain, request_id_header, request_id_of, id_from_context, span_id_from_context,
  logger_with_context, with_request_metadata,
}
use gklog.Trace.Response.{Program, writes, panics, new_response_writer, serve}
use gklog.Trace.Middleware.{Request, beside, prepare_request, serve_request}
use gklog.Trace.Middleware.Journal.{
  Journal, started, header_set, ended, other, Outside, journal_ops, journaled, report,
  serve_request-journal,
}

abbrev outside : Outside
outside = record {
  time = λ w. length w;
  now = 9;
  pc = 3;
  uuid = λ w. codes "uuid";
  fresh = λ w. length w;
  span_ids = λ ctx. some (codes "t", codes "s");
  extract = λ h ctx. ctx;
  http = record {
    write_header = λ s w. w ++ other s ∷ [];
    write = λ b w. ((length b, none), w ++ other 0 ∷ []);
  };
  status_text = λ s. codes "Status";
  duration_text = λ d. codes "1s";
}

abbrev loggers : Heap Bound
loggers = record { default_handler = string_attr (codes "app") (codes "a") ∷ []; made = [] }

abbrev post : Request
post = record {
  method = codes "POST";
  path = codes "/x";
  remote_addr = codes "::1";
  header = some [];
  ctx = [];
}

abbrev failing : Chain → Program (State Bound Journal)
failing ctx = writes (codes "part") (λ n e. panics)

serve_request-journal_example :
    let (p, st) = prepare_request journal_ops (journaled outside) none post (loggers, []) in
    let (outcome, (rw', (heap', w'))) =
      serve (beside outside.http) (failing p.ctx) (new_response_writer, st) in
    (st.1 ≡ [] ++ started p.span (codes "POST /x") ∷ header_set request_id_header p.id ∷ [])
    × (serve_request journal_ops (journaled outside) none failing post (loggers, [])
        ≡ (outcome, (heap', (w' ++ report outside p outcome rw' (heap', w')) ++ ended p.span ∷ [])))
serve_request-journal_example = serve_request-journal outside none failing post loggers []

-- The journal of that request.
panicking :
    (serve_request journal_ops (journaled outside) none failing post (loggers, [])).1.1
    ≡ started 0 (codes "POST /x")
      ∷ header_set request_id_header (codes "uuid")
      ∷ other 0
      ∷ ended 0
      ∷ []
unfolding serve_request serve request_id_of id_from_context span_id_from_context start_span
    logger_with_context logger_with with_request_metadata NetHttp.get
panicking = refl

-- A context under a span holds one more value.
abbrev under : ℕ → Chain → Chain
under span ctx = Binding.foreign span [] ∷ ctx

under-KeepsStart : KeepsStart (querying outside under)
unfolding query_start_of
under-KeepsStart tracer name kind tags ctx w = refl

abbrev as_is : Bytes → Bytes
as_is s = s

-- A query that fails, on a context that is given another request identifier under way.
abbrev lost : EndData
lost = record { command_tag = []; rows_affected = pos 0; err = some (Error.foreign (codes "lost")) }

trace_query_end-journal_example :
    let (ctx', w1) =
      trace_query_start
        (querying outside under)
        (journaled outside).clock
        as_is
        none
        []
        (codes "select 1")
        (other 1 ∷ []) in
    let w2 = w1 ++ other 2 ∷ [] in
    (w1 ≡ (other 1 ∷ []) ++ started 1 (codes "db.query") ∷ [])
    × (trace_query_end journal_ops
          (journaled outside).runtime
          (querying outside under)
          (journaled outside).clock
          outside.duration_text
          (request_id (codes "r") ∷ ctx')
          lost
          (loggers, w2)
        ≡ (
          loggers,
          w2
              ++ query_report outside 1 lost (sub_time (length w2) 1) (
                  handler_at loggers
                    (logger_from_context 0 (some (request_id (codes "r") ∷ ctx')))),
        ))
trace_query_end-journal_example =
    trace_query_end-journal outside under as_is none [] (request_id (codes "r") ∷ [])
      (codes "select 1") loggers (other 1 ∷ []) (other 2 ∷ []) lost under-KeepsStart refl
