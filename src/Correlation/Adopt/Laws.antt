-- ===== src/Correlation/Adopt/Laws.antt =====
-- What inbound identifiers can make of a fresh context.
use gklog.Base.{
  ℕ, suc, [], true, ◌≡◌, ◌∙◌, ◌⊎◌, inl, inr, arith, if◌then◌else◌, Bool-cases, Option-cases,
}
use gklog.Text.{Bytes}
use gklog.Correlation.Ident.{
  Draw, IsSource, valid_trace_id, valid_span_id, parse_traceparent, new_span_id,
}
use gklog.Correlation.Ident.Fresh.{valid-new_span_id}
use gklog.Correlation.Ident.Traceparent.{parse_traceparent_iff}
use gklog.Correlation.Context.{Context, valid, traceparent}
use gklog.Correlation.Context.Span.{
  IsLively, valid_parts, parse_traceparent-traceparent, count_of_span,
}
use gklog.Correlation.Adopt.{
  remote_span, adopt_traceparent, adopt_trace, adopt_span, adopt_parent, adopt,
}

-- A context that can be rendered, whose parent is missing or well formed.
pub record IsSound (c : Context) : Type 0 where
  pub trace_ok : valid_trace_id c.trace_id ≡ true
  pub span_ok : valid_span_id c.span_id ≡ true
  pub parent_ok : (c.parent_span_id ≡ []) ⊎ (valid_span_id c.parent_span_id ≡ true)

module _ (draw : Draw) (source : IsSource draw) (lively : IsLively draw) where
  remote_span-IsSound :
      (span : Bytes) (c : Context) (k : ℕ)
      → valid_trace_id c.trace_id ≡ true
      → valid_span_id span ≡ true
      → IsSound (remote_span draw span c k).0
  unfolding remote_span
  remote_span-IsSound span c k ht hs = record {
    trace_ok = ht;
    span_ok = valid-new_span_id draw source k ∙ (lively k).1;
    parent_ok = inr hs;
  }

  adopt_traceparent-IsSound :
      (tp : Bytes) (c : Context) (k : ℕ)
      → IsSound c
      → IsSound (adopt_traceparent draw (parse_traceparent tp) c k).0
  unfolding adopt_traceparent
  adopt_traceparent-IsSound tp c k h = elim (Option-cases (parse_traceparent tp)) [
    | inl e ↦ rw e h
    | inr ((t, s), e) ↦
        let r = (parse_traceparent_iff tp t s).0 e in
        rw e (remote_span-IsSound s (record c { trace_id = t }) k r.trace_ok r.span_ok)
  ]

  adopt_trace-IsSound : (trace : Bytes) (c : Context) → IsSound c → IsSound (adopt_trace trace c)
  unfolding adopt_trace
  adopt_trace-IsSound trace c h = ground arith

  adopt_span-IsSound :
      (span : Bytes) (c : Context) (k : ℕ) → IsSound c → IsSound (adopt_span draw span c k).0
  unfolding adopt_span
  adopt_span-IsSound span c k h = elim (Bool-cases (valid_span_id span)) [
    | inl e ↦ rw e (remote_span-IsSound span c k h.trace_ok e)
    | inr e ↦ rw e h
  ]

  adopt_parent-IsSound :
      (parent : Bytes) (c : Context) → IsSound c → IsSound (adopt_parent parent c)
  unfolding adopt_parent
  adopt_parent-IsSound parent c h = ground arith

  -- If the random source works and gives no zeros, a sound context stays sound whatever the four
  -- inbound values are.
  pub adopt-IsSound :
      (tp trace span parent : Bytes) (c : Context) (k : ℕ)
      → IsSound c
      → IsSound (adopt draw tp trace span parent c k).0
  unfolding adopt
  adopt-IsSound tp trace span parent c k h = adopt_parent-IsSound parent _ (
      adopt_span-IsSound span _ _
        (adopt_trace-IsSound trace _ (adopt_traceparent-IsSound tp c k h)))

pick_parent :
    (draw : Draw) (sender c : Context) (parent fresh : Bytes) (k : ℕ)
    → ◌≡◌ {A = Context × ℕ}
        (
          if valid_span_id parent
              then record c { trace_id = sender.trace_id; span_id = fresh; parent_span_id = parent }
              else record c {
                trace_id = sender.trace_id;
                span_id = fresh;
                parent_span_id = sender.span_id;
              },
          k,
        )
        (
          record c {
            trace_id = sender.trace_id;
            span_id = fresh;
            parent_span_id = if valid_span_id parent then parent else sender.span_id;
          },
          k,
        )
pick_parent draw sender c parent fresh k = elim (Bool-cases (valid_span_id parent)) [
  | inl e ↦ rw e
  | inr e ↦ rw e
]

-- The identifiers of a valid sender are taken over: its trace, and its span as the parent, unless a
-- well-formed parent span is sent beside it, which then wins.
pub adopt-of_valid :
    (draw : Draw) (sender c : Context) (parent : Bytes) (k : ℕ)
    → valid sender ≡ true
    → adopt draw (traceparent sender) sender.trace_id sender.span_id parent c k ≡ (
      record c {
        trace_id = sender.trace_id;
        span_id = (new_span_id draw (suc k)).0;
        parent_span_id = if valid_span_id parent then parent else sender.span_id;
      },
      suc (suc k),
    )
unfolding adopt
adopt-of_valid draw sender c parent k h =
    let (ht, hs) = valid_parts sender h in
    rw (parse_traceparent-traceparent, h, ht, hs)
      (rw (count_of_span draw k, count_of_span draw (suc k))
        (pick_parent draw sender c parent (new_span_id draw (suc k)).0 (suc (suc k))))
