-- ===== src/Correlation/Attrs.antt =====
-- correlation/correlation.go: Attrs, AppendAttrs and appendIdentityAttributes. The map `seen` is the
-- list of the keys put into it.
pub mod Unseen
pub mod Plain
pub mod Laws
use gklog.Base.{
  List, [], ◌∷◌, ◌++◌, Option, none, some, Bool, true, false, not, map, if◌then◌else◌, is_empty,
}
use gklog.Text.{Bytes, codes}
use gklog.Text.Keys.{has}
use gklog.Slog.{Attr, string_attr, keys}
use gklog.Ctx.{Ctx}
use gklog.Correlation.Context.{Context, IdentityAttribute, normalize}
use gklog.Correlation.Carry.{from_context}

-- One round of the loop of appendIdentityAttributes.
add_identity : List Attr × List Bytes → Option IdentityAttribute → List Attr × List Bytes
add_identity (attrs, seen) none = (attrs, seen)
add_identity (attrs, seen) (some n) =
    if has n.key seen
    then (attrs, seen)
    else (attrs ++ string_attr n.key n.value ∷ [], n.key ∷ seen)

add_identities : List Attr × List Bytes → List IdentityAttribute → List Attr × List Bytes
add_identities st [] = st
add_identities st (a ∷ identity_attrs) =
    add_identities (add_identity st (normalize a)) identity_attrs

unfoldable pub append_identity_attributes : List Attr → List IdentityAttribute → List Attr
unfolding add_identity add_identities
append_identity_attributes attrs [] = attrs
append_identity_attributes attrs (a ∷ identity_attrs) =
    (add_identities (attrs, keys attrs) (a ∷ identity_attrs)).0

-- `if field != "" { attrs = append(attrs, slog.String(key, field)) }`
abbrev pub append_field : List Attr → Bytes → Bytes → List Attr
append_field attrs key field =
    if not (is_empty field) then attrs ++ string_attr key field ∷ [] else attrs

unfoldable pub core_attrs : Context → List Attr
core_attrs c =
    let a = append_field [] (codes "trace_id") c.trace_id in
    let b = append_field a (codes "span_id") c.span_id in
    let d = append_field b (codes "parent_span_id") c.parent_span_id in
    append_field d (codes "request_id") c.request_id

unfoldable pub attrs_of : Context → List Attr
unfolding core_attrs append_identity_attributes
attrs_of c = append_identity_attributes (core_attrs c) c.identity_attributes

unfoldable pub attrs_from_context : Ctx → List Attr
unfolding attrs_of
attrs_from_context ctx = attrs_of (from_context ctx)

-- One round of the loop of AppendAttrs.
add_attr : List Attr × List Bytes → Attr → List Attr × List Bytes
add_attr (attrs, seen) a = if has a.key seen then (attrs, seen) else (attrs ++ a ∷ [], a.key ∷ seen)

pub add_all : List Attr × List Bytes → List Attr → List Attr × List Bytes
add_all st [] = st
add_all st (a ∷ corr_attrs) = add_all (add_attr st a) corr_attrs

unfoldable pub append_attrs : List Attr → Context → List Attr
unfolding add_attr add_all
append_attrs [] c = attrs_of c
append_attrs (a ∷ attrs) c = (add_all (a ∷ attrs, keys (a ∷ attrs)) (attrs_of c)).0
