-- ===== src/Tests/Tracing.antt =====
-- The theorems on the package trace, applied.
use gklog.Base.{
  ℕ, suc, List, [], ◌∷◌, ◌++◌, Option, none, some, true, false, reverse, ◌↔◌, ◌≡◌, refl, length,
  if◌then◌else◌, is_empty,
}
use gklog.Base.Int.{pos}
use gklog.Text.{Bytes, codes}
use gklog.Time.{sub_time}
use gklog.Errors.{Error, foreign}
use gklog.NetHttp.{header_get}
use gklog.Slog.{string_attr, HandlerOps}
use gklog.Slog.Loggers.{Heap, Bound, bound_recorder, handler_at}
use gklog.Ctx.{Binding}
use gklog.Logger.{logger_from_context}
use gklog.Trace.Ids.{request_id_of, request_id_header}
use gklog.Trace.Otel.{Otel, IsOtel}
use gklog.Trace.Op.{op_end, op_record, still, op_end-record}
use gklog.Trace.Response.{
  Program, done, sets, writes, serve, net_http, new_response_writer, unsent, Wire, or_ok,
}
use gklog.Trace.Response.Laws.{serve_agrees}
use gklog.Trace.Middleware.{Request, Server, prepare_request}
use gklog.Trace.Middleware.Identify.{Identifies, prepare_request-Identifies}
use gklog.Trace.Setup as Setup
use gklog.Trace.Setup.Laws.{each, wrapped_errors, close-each}

-- OpenTelemetry that only counts: the world is a number.
abbrev counting : Otel ℕ
counting = record {
  span_ids = λ ctx. some (codes "t", codes "s");
  extract = λ h ctx. ctx;
  start = λ tracer name kind tags ctx w. ((Binding.foreign w [] ∷ ctx, w), suc w);
  set_attributes = λ span tags w. w;
  set_status = λ span code text w. w;
  record_error = λ span e w. w;
  end_span = λ span w. w;
}

counting-IsOtel : IsOtel counting
unfolding request_id_of
counting-IsOtel = record {
  extract-request_id = λ h ctx. refl;
  start-request_id = λ tracer name kind tags ctx w. refl;
}

abbrev ticking : ℕ → ℕ × ℕ
ticking w = (w, suc w)

abbrev quiet : HandlerOps Bound ℕ
quiet = record {
  enabled = λ h ctx level. true;
  handle = λ h ctx r w. (none, w);
  with_attrs = λ h attrs. h ++ attrs;
  with_group = λ h name. h;
}

abbrev one_logger : Heap Bound
one_logger = record { default_handler = string_attr (codes "app") (codes "a") ∷ []; made = [] }

op_end-record_example :
    (op_end bound_recorder
      (record { now = still 9; caller = λ w. 3 })
      (still 70_000_000)
      (pos 50_000_000)
      none
      (codes "store.get")
      10_000_000
      (some none)
      (one_logger, [])).1
    ≡ op_record
        (pos 50_000_000)
        (codes "store.get")
        none
        (sub_time 70_000_000 10_000_000)
        9
        3
        (handler_at one_logger (logger_from_context 0 none))
      ∷ []
op_end-record_example =
    op_end-record (pos 50_000_000) none (codes "store.get") 10_000_000 70_000_000 9 3 (some none)
      one_logger []

abbrev created : Program Wire
created = sets 201 (writes (codes "ok") (λ n e. done))

-- net/http that takes every part of a body.
abbrev takes_all : Bytes → Wire → ℕ × Option Error
takes_all b w = (length b, none)

serve_agrees_example :
    let (rw', w) = (serve (net_http false takes_all) created (new_response_writer, unsent)).1 in
    (or_ok w.sent ≡ rw'.status) × (w.body ≡ rw'.bytes)
serve_agrees_example =
    serve_agrees false takes_all created (refl, refl, λ n e. tt) (refl, λ n e. tt)

-- A part of the body, and a status too late.
abbrev late : Program Wire
late = writes (codes "a") (λ n e. sets 500 done)

abbrev server_of : Server ℕ
server_of = record {
  clock = ticking;
  runtime = record { now = ticking; caller = λ w. 0 };
  otel = counting;
  new_uuid = λ w. (codes "uuid", suc w);
  http = record { write_header = λ s w. w; write = λ b w. ((length b, none), w) };
  set_header = λ key value w. w;
  status_text = λ s. codes "Status";
  duration_text = λ d. codes "1s";
}

abbrev get_root : Request
get_root = record {
  method = codes "GET";
  path = codes "/";
  remote_addr = codes "::1";
  header = some [];
  ctx = [];
}

prepare_request-Identifies_example :
    (is_empty (prepare_request quiet server_of none get_root (one_logger, 5)).0.id ≡ false)
    × ((prepare_request quiet server_of none get_root (one_logger, 5)).0.id ≡ (
        if is_empty (header_get (some []) request_id_header)
        then (prepare_request quiet server_of none get_root (one_logger, 5)).0.id
        else header_get (some []) request_id_header))
    × Identifies quiet get_root
        (prepare_request quiet server_of none get_root (one_logger, 5)).0
        one_logger
        (prepare_request quiet server_of none get_root (one_logger, 5)).1.0
prepare_request-Identifies_example =
    prepare_request-Identifies quiet server_of counting-IsOtel (λ w. refl) none get_root one_logger
      5

abbrev shutdowns : List (List ℕ → Option Error × List ℕ)
shutdowns =
    (λ w. (some (foreign (codes "a")), w ++ 1 ∷ []))
    ∷ (λ w. (some (foreign (codes "b")), w ++ 2 ∷ []))
    ∷ []

close-each_example :
    (wrapped_errors (Setup.close shutdowns []).0 ≡ foreign (codes "b") ∷ foreign (codes "a") ∷ [])
    × ((Setup.close shutdowns []).1 ≡ 2 ∷ 1 ∷ [])
    × (((Setup.close shutdowns []).0 ≡ none) ↔ ((each (reverse shutdowns) []).0 ≡ []))
unfolding each
close-each_example = close-each shutdowns []
