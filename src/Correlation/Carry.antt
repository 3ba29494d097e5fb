-- ===== src/Correlation/Carry.antt =====
-- correlation/correlation.go: FromContext, WithContext and Ensure.
pub mod Laws
use gklog.Base.{ℕ, List, [], ◌∷◌, Option, none, some, if◌then◌else◌, is_empty}
use gklog.Text.{Bytes}
use gklog.Text.Trim.{trim_space}
use gklog.Ctx.{Ctx, Binding, correlation}
use gklog.Correlation.Ident.{Draw}
use gklog.Correlation.Context.{Context, zero_context, new_context}

-- The newest Context of the chain, or the zero value.
abbrev find_correlation : List Binding → Context
find_correlation [] = zero_context
find_correlation (correlation c ∷ chain) = c
find_correlation (_ ∷ chain) = find_correlation chain

unfoldable pub from_context : Ctx → Context
from_context none = zero_context
from_context (some chain) = find_correlation chain

unfoldable pub with_context : Ctx → Context → Ctx
with_context none c = some (correlation c ∷ [])
with_context (some chain) c = some (correlation c ∷ chain)

-- The first `if` of Ensure.
ensure_trace : Draw → Bytes → Context → ℕ → Context × ℕ
ensure_trace draw request_id c k =
    if is_empty c.trace_id then new_context draw request_id k else (c, k)

-- The second one.
ensure_request : Bytes → Context → Context
ensure_request request_id c =
    if is_empty c.request_id then record c { request_id = trim_space request_id } else c

unfoldable pub ensure : Draw → Ctx → Bytes → ℕ → (Ctx × Context) × ℕ
unfolding ensure_trace ensure_request
ensure draw ctx request_id k =
    let (c, k') = ensure_trace draw request_id (from_context ctx) k in
    let c' = ensure_request request_id c in ((with_context ctx c', c'), k')
