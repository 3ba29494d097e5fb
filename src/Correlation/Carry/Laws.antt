-- ===== src/Correlation/Carry/Laws.antt =====
-- What Ensure promises about the context it returns and the one it was given.
use gklog.Base.{
  ◌≢◌, ◌<◌, suc, ap, length, ℕ, none, some, true, false, Bool-cases, inl, inr, ◌≡◌, refl, arith,
  is_empty,
}
use gklog.Text.{Bytes}
use gklog.Text.Trim.{trim_space}
use gklog.Ctx.{Ctx}
use gklog.Correlation.Ident.{Draw, IsSource}
use gklog.Correlation.Ident.Fresh.{is_empty-new_trace_id}
use gklog.Correlation.Context.{Context, valid, new_context}
use gklog.Correlation.Context.Span.{IsLively, new_context-valid}
use gklog.Correlation.Carry.{from_context, with_context, ensure_trace, ensure_request, ensure}

-- A Context that is stored is found again, also on a nil context.
from_context-with_context : (ctx : Ctx) (c : Context) → from_context (with_context ctx c) ≡ c
unfolding from_context with_context
from_context-with_context none c = refl
from_context-with_context (some chain) c = refl

module _ (draw : Draw) (source : IsSource draw) where
  is_empty-new_context :
      (request_id : Bytes) (k : ℕ) → is_empty (new_context draw request_id k).0.trace_id ≡ false
  unfolding new_context
  is_empty-new_context request_id k = is_empty-new_trace_id draw source k

  is_empty-ensure_trace :
      (request_id : Bytes) (c : Context) (k : ℕ)
      → is_empty (ensure_trace draw request_id c k).0.trace_id ≡ false
  unfolding ensure_trace
  is_empty-ensure_trace request_id c k = ground (arith, is_empty-new_context request_id k)

  ensure_request-trace :
      (request_id : Bytes) (c : Context) → (ensure_request request_id c).trace_id ≡ c.trace_id
  unfolding ensure_request
  ensure_request-trace request_id c = ground arith

  is_empty-ensure_request :
      (request_id : Bytes) (c : Context)
      → is_empty (trim_space request_id) ≡ false
      → is_empty (ensure_request request_id c).request_id ≡ false
  unfolding ensure_request
  is_empty-ensure_request request_id c h = ground arith

  pub carried :
      (ctx : Ctx) (request_id : Bytes) (k : ℕ)
      → from_context (ensure draw ctx request_id k).0.0 ≡ (ensure draw ctx request_id k).0.1
  unfolding ensure
  carried ctx request_id k = from_context-with_context ctx _

  trace_of_ensure :
      (ctx : Ctx) (request_id : Bytes) (k : ℕ)
      → is_empty (ensure draw ctx request_id k).0.1.trace_id ≡ false
  unfolding ensure
  trace_of_ensure ctx request_id k =
      let c = (ensure_trace draw request_id (from_context ctx) k).0 in
      rw (ensure_request-trace request_id c) (is_empty-ensure_trace request_id (from_context ctx) k)

  request_of_ensure :
      (ctx : Ctx) (request_id : Bytes) (k : ℕ)
      → is_empty (trim_space request_id) ≡ false
      → is_empty (ensure draw ctx request_id k).0.1.request_id ≡ false
  unfolding ensure
  request_of_ensure ctx request_id k h = is_empty-ensure_request request_id _ h

  -- If reads that succeed fill the buffer, the correlation that Ensure returns is the one that the
  -- context it returns carries, and it has a trace.
  ensure_carries :
      (ctx : Ctx) (request_id : Bytes) (k : ℕ)
      → (from_context (ensure draw ctx request_id k).0.0 ≡ (ensure draw ctx request_id k).0.1)
        × (is_empty (ensure draw ctx request_id k).0.1.trace_id ≡ false)
  ensure_carries ctx request_id k = (carried ctx request_id k, trace_of_ensure ctx request_id k)

  -- A correlation with a trace and a request identifier is kept as it is.
  ensure-of_full :
      (ctx : Ctx) (c : Context) (request_id : Bytes) (k : ℕ)
      → from_context ctx ≡ c
      → is_empty c.trace_id ≡ false
      → is_empty c.request_id ≡ false
      → ensure draw ctx request_id k ≡ ((with_context ctx c, c), k)
  unfolding ensure
  ensure-of_full ctx c request_id k e ht hr = rw (e, ht, hr)

  -- If reads that succeed fill the buffer, then on a context that Ensure returned for a request
  -- identifier that is not blank, a second Ensure
  -- finds what the first one stored and makes no draw, whatever request identifier it is given. The
  -- context that it returns is no longer the same: it is wrapped once more.
  pub ensure_again :
      (ctx : Ctx) (request_id other : Bytes) (k : ℕ)
      → is_empty (trim_space request_id) ≡ false
      → ensure draw (ensure draw ctx request_id k).0.0 other (ensure draw ctx request_id k).1 ≡ (
        (
          with_context (ensure draw ctx request_id k).0.0 (ensure draw ctx request_id k).0.1,
          (ensure draw ctx request_id k).0.1,
        ),
        (ensure draw ctx request_id k).1,
      )
  ensure_again ctx request_id other k h =
      ensure-of_full _ _ other _ (carried ctx request_id k) (trace_of_ensure ctx request_id k)
        (request_of_ensure ctx request_id k h)

ensure_request-valid :
    (request_id : Bytes) (c : Context) → valid (ensure_request request_id c) ≡ valid c
unfolding ensure_request valid
ensure_request-valid request_id c = elim (Bool-cases (is_empty c.request_id)) [
  | inl e ↦ rw e refl
  | inr e ↦ rw e refl
]

-- Ensure builds a valid correlation where there is no trace.
pub ensure-valid :
    (draw : Draw) (source : IsSource draw) (lively : IsLively draw) (ctx : Ctx) (request_id : Bytes)
    (k : ℕ)
    → is_empty (from_context ctx).trace_id ≡ true
    → valid (ensure draw ctx request_id k).0.1 ≡ true
unfolding ensure ensure_trace
ensure-valid draw source lively ctx request_id k e =
    rw (e, ensure_request-valid request_id (new_context draw request_id k).0)
      (new_context-valid draw source lively request_id k)

depth : Ctx → ℕ
depth none = 0
depth (some chain) = suc (length chain)

depth-with_context : (ctx : Ctx) (c : Context) → depth ctx < depth (with_context ctx c)
unfolding depth with_context
depth-with_context none c = omega arith
depth-with_context (some chain) c = omega arith

-- Ensure never returns the context that it was given, also when that carries a full correlation: a
-- value is added to the chain on every path.
ensure-ne :
    (draw : Draw) (ctx : Ctx) (request_id : Bytes) (k : ℕ)
    → (ensure draw ctx request_id k).0.0 ≢ ctx
unfolding ensure
ensure-ne draw ctx request_id k e = absurd (omega (arith, ap depth e, depth-with_context ctx _))
