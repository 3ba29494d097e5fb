-- ===== src/Correlation/Context.antt =====
-- correlation/correlation.go: the Context value, its constructors and its identity attributes.
-- A value type is a record; a slice that a method copies before it writes is a list.
pub mod Identity
pub mod Slices
pub mod Span
use gklog.Base.{
  ℕ, List, [], ◌∷◌, ◌++◌, Option, none, some, Bool, true, false, not, ◌&&◌, ◌||◌, ◌≡◌,
  if◌then◌else◌, is_empty,
}
use gklog.Text.{Bytes, codes, same}
use gklog.Text.Trim.{trim_space}
use gklog.Correlation.Ident.{Draw, valid_trace_id, valid_span_id, new_trace_id, new_span_id}

pub record IdentityAttribute : Type 0 where
  pub key : Bytes
  pub value : Bytes

pub record Context : Type 0 where
  pub trace_id : Bytes
  pub span_id : Bytes
  pub parent_span_id : Bytes
  pub request_id : Bytes
  pub identity_attributes : List IdentityAttribute

-- Context{}
abbrev pub zero_context : Context
zero_context = record {
  trace_id = [];
  span_id = [];
  parent_span_id = [];
  request_id = [];
  identity_attributes = [];
}

unfoldable pub with_request_id : Context → Bytes → Context
with_request_id c request_id = record c { request_id = trim_space request_id }

unfoldable pub valid : Context → Bool
valid c = valid_trace_id c.trace_id && valid_span_id c.span_id

unfoldable pub traceparent : Context → Bytes
traceparent c =
    if not (valid c)
    then []
    else codes "00-" ++ (c.trace_id ++ (codes "-" ++ (c.span_id ++ codes "-01")))

-- Child: the span becomes the parent, if there is one.
child_parent : Context → Context
child_parent c = if not (is_empty c.span_id) then record c { parent_span_id = c.span_id } else c

module _ (draw : Draw) where
  -- New: the trace identifier is drawn first.
  unfoldable pub new_context : Bytes → ℕ → Context × ℕ
  new_context request_id k =
      let (trace_id, k') = new_trace_id draw k in
      let (span_id, k'') = new_span_id draw k' in
      (
        record zero_context {
          trace_id = trace_id;
          span_id = span_id;
          request_id = trim_space request_id;
        },
        k'',
      )

  -- Child: a trace is drawn if there is none.
  child_trace : Context → ℕ → Context × ℕ
  child_trace c k =
      if is_empty c.trace_id
      then (let (trace_id, k') = new_trace_id draw k in (record c { trace_id = trace_id }, k'))
      else (c, k)

  unfoldable pub child : Context → ℕ → Context × ℕ
  unfolding child_trace child_parent
  child c k =
      let (c', k') = child_trace c k in
      let (span_id, k'') = new_span_id draw k' in
      (record (child_parent c') { span_id = span_id }, k'')

-- normalize; the second result of the source is false where this is `none`.
unfoldable pub normalize : IdentityAttribute → Option IdentityAttribute
normalize a =
    let key = trim_space a.key in
    let value = trim_space a.value in
    if is_empty key || is_empty value then none else some (record { key = key; value = value })

-- The inner loop: the first attribute with the key is replaced, or the new one is appended.
merge_one : List IdentityAttribute → IdentityAttribute → List IdentityAttribute
merge_one [] a = a ∷ []
merge_one (b ∷ merged) a = if same b.key a.key then a ∷ merged else b ∷ merge_one merged a

merge_all : List IdentityAttribute → List IdentityAttribute → List IdentityAttribute
merge_all merged [] = merged
merge_all merged (a ∷ attrs) =
    merge_all (elim (normalize a) [ none ↦ merged | some n ↦ merge_one merged n ]) attrs

unfoldable pub with_identity_attributes : Context → List IdentityAttribute → Context
unfolding merge_one merge_all
with_identity_attributes c [] = c
with_identity_attributes c (a ∷ attrs) = record c {
  identity_attributes = merge_all c.identity_attributes (a ∷ attrs);
}

value_for : List IdentityAttribute → Bytes → Bytes
value_for [] key = []
value_for (a ∷ attrs) key = if same a.key key then a.value else value_for attrs key

unfoldable pub identity_attribute_value : Context → Bytes → Bytes
unfolding value_for
identity_attribute_value c key =
    if is_empty (trim_space key) then [] else value_for c.identity_attributes (trim_space key)
