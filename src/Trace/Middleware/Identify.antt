-- ===== src/Trace/Middleware/Identify.antt =====
-- The identifier of a request on the context and the logger that the next handler gets.
use gklog.Base.{
  ℕ, List, ◌∷◌, ◌++◌, Option, some, false, ◌≡◌, refl, sym, ap, ◌∙◌, if◌then◌else◌, is_empty,
  append_assoc, Bool-cases, inl, inr,
}
use gklog.Text.{Bytes, codes}
use gklog.NetHttp.{header_get}
use gklog.Slog.{Attr, string_attr, HandlerOps}
use gklog.Slog.Loggers.{Heap, handler_at, handler_at-alloc, logger_with}
use gklog.Logger.{logger_from_context}
use gklog.Trace.Ids.{
  Chain, SpanIds, request_id_header, with_request_metadata, request_id_of, if_present,
  id_from_context, span_id_from_context, logger_attrs, logger_with_context, store_logger,
}
use gklog.Ctx.{request_id}
use gklog.Trace.Otel.{Tag, server, IsOtel, start_span}
use gklog.Trace.Middleware.{
  Request, Server, Prepared, request_attrs, request_id_for, prepare_request,
}

-- What the next handler gets: a context with the identifier of the request, and on it a logger that
-- binds this identifier first and what is known of the request last.
pub record Identifies {H W : Type 0} (ops : HandlerOps H W) (r : Request) (p : Prepared)
    (before after : Heap H) : Type 0 where
  pub on_context : request_id_of p.ctx ≡ p.id
  pub logger : logger_from_context 0 (some p.ctx) ≡ p.log
  pub ids : List Attr
  pub bound :
      handler_at after p.log
      ≡ ops.with_attrs before.default_handler
          (string_attr (codes "request_id") p.id ∷ (ids ++ request_attrs r))

-- The attributes of a logger on a context with an identifier.
logger_attrs-request_id :
    (ids : SpanIds) (ctx : Chain) (id : Bytes) (attrs : List Attr)
    → request_id_of ctx ≡ id
    → is_empty id ≡ false
    → (between : List Attr) × (logger_attrs ids ctx attrs
        ≡ string_attr (codes "request_id") id ∷ (between ++ attrs))
unfolding logger_attrs
logger_attrs-request_id ids ctx id attrs e n =
    let traced = if_present (codes "trace_id") (id_from_context ids ctx) in
    let spanned = if_present (codes "span_id") (span_id_from_context ids ctx) in
    (
      traced ++ spanned,
      rw (e, n)
          (ap (λ rest. string_attr (codes "request_id") id ∷ rest)
            (sym (append_assoc traced spanned attrs))),
    )

-- A logger that is given attributes is a new one.
logger_with-cons :
    {H W : Type 0} (ops : HandlerOps H W) (attrs : List Attr) (a : Attr) (more : List Attr)
    (heap : Heap H) (w : W)
    → attrs ≡ a ∷ more
    → handler_at (logger_with ops 0 attrs (heap, w)).1.0 (logger_with ops 0 attrs (heap, w)).0
      ≡ ops.with_attrs heap.default_handler (a ∷ more)
unfolding logger_with
logger_with-cons ops attrs a more heap w e =
    rw e (handler_at-alloc (ops.with_attrs heap.default_handler (a ∷ more)) heap)

stored-Identifies :
    {H W : Type 0} (ops : HandlerOps H W) (ids : SpanIds) (r : Request) (ctx : Chain) (id : Bytes)
    (start span : ℕ) (heap : Heap H) (w : W)
    → request_id_of ctx ≡ id
    → is_empty id ≡ false
    → Identifies ops r
        (record {
          start = start;
          id = id;
          ctx = store_logger ctx (logger_with_context ops ids ctx 0 (request_attrs r) (heap, w)).0;
          span = span;
          log = (logger_with_context ops ids ctx 0 (request_attrs r) (heap, w)).0;
        })
        heap
        (logger_with_context ops ids ctx 0 (request_attrs r) (heap, w)).1.0
unfolding logger_with_context
stored-Identifies ops ids r ctx id start span heap w e n =
    let (between, q) = logger_attrs-request_id ids ctx id (request_attrs r) e n in
    record {
      on_context = unfold request_id_of in e;
      logger = unfold logger_from_context in refl;
      ids = between;
      bound = logger_with-cons ops _ _ _ heap w q;
    }

module _ {H W : Type 0} (ops : HandlerOps H W) (srv : Server W) (laws : IsOtel srv.otel)
    (fresh : (w : W) → is_empty (srv.new_uuid w).0 ≡ false) (instrumentation : Option Bytes) where
  request_id_for-given :
      (r : Request) (w : W) → is_empty (request_id_for ops srv instrumentation r w).0 ≡ false
  unfolding request_id_for
  request_id_for-given r w = elim (Bool-cases (is_empty (header_get r.header request_id_header))) [
    | inl e ↦ rw e (fresh w)
    | inr e ↦ rw e e
  ]

  given_kept :
      (r : Request) (w : W)
      → (request_id_for ops srv instrumentation r w).0 ≡ (
          if is_empty (header_get r.header request_id_header)
          then (request_id_for ops srv instrumentation r w).0
          else header_get r.header request_id_header)
  unfolding request_id_for
  given_kept r w = elim (Bool-cases (is_empty (header_get r.header request_id_header))) [
    | inl e ↦ rw e refl
    | inr e ↦ rw e refl
  ]

  kept_id :
      (r : Request) (name id : Bytes) (tags : List Tag) (w : W)
      → request_id_of
          (start_span srv.otel instrumentation name server tags
            (srv.otel.extract r.header (with_request_metadata r.ctx id))
            w).0.0
        ≡ id
  unfolding start_span with_request_metadata
  kept_id r name id tags w =
      laws.start-request_id _ name server tags _ w
      ∙ laws.extract-request_id r.header (request_id id ∷ r.ctx)
      ∙ unfold request_id_of in refl

  -- Every request gets an identifier that is not empty, the one in its header if there is one; the
  -- next handler finds it on its context, and finds there a logger made from the default one, which
  -- binds the identifier first and the method, the path and the remote address last.
  pub prepare_request-Identifies :
      (r : Request) (heap : Heap H) (w : W)
      → (is_empty (prepare_request ops srv instrumentation r (heap, w)).0.id ≡ false)
        × ((prepare_request ops srv instrumentation r (heap, w)).0.id ≡ (
            if is_empty (header_get r.header request_id_header)
            then (prepare_request ops srv instrumentation r (heap, w)).0.id
            else header_get r.header request_id_header))
        × Identifies ops r
            (prepare_request ops srv instrumentation r (heap, w)).0
            heap
            (prepare_request ops srv instrumentation r (heap, w)).1.0
  unfolding prepare_request
  prepare_request-Identifies r heap w =
      let n = request_id_for-given r (srv.clock w).1 in
      (
        n,
        given_kept r (srv.clock w).1,
        stored-Identifies ops srv.otel.span_ids r _ _ _ _ heap _ (kept_id r _ _ _ _) n,
      )
