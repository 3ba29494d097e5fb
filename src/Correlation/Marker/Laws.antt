-- ===== src/Correlation/Marker/Laws.antt =====
-- When the marker, the header line and the JSON projection are empty, and what a marker line keeps.
use gklog.Base.{
  List, [], ◌∷◌, Bool, false, not, ◌&&◌, ◌||◌, ◌≡◌, refl, arith, sym, ◌∙◌, is_empty, Bool-cases,
  inl, inr,
}
use gklog.Text.{Bytes, codes}
use gklog.Text.Trim.{trim_space}
use gklog.Correlation.Context.{Context}
use gklog.Correlation.Marker.{fields_of, marker_line, header_line, meta, empty_meta}

-- A pair with something to say: neither its key nor its value is white space alone.
abbrev pub has_field : List Bytes → Bool
has_field [] = false
has_field (key ∷ []) = false
has_field (key ∷ value ∷ pairs) =
    (not (is_empty (trim_space key)) && not (is_empty (trim_space value))) || has_field pairs

is_empty-fields_of : (pairs : List Bytes) → is_empty (fields_of pairs) ≡ not (has_field pairs)
unfolding fields_of
is_empty-fields_of [] = refl
is_empty-fields_of (key ∷ []) = refl
is_empty-fields_of (key ∷ value ∷ pairs) = ground (arith, is_empty-fields_of pairs)

-- A marker line is empty exactly when no pair has both a key and a value.
pub is_empty-marker_line :
    (pairs : List Bytes) → is_empty (marker_line pairs) ≡ not (has_field pairs)
unfolding marker_line
is_empty-marker_line pairs = elim (Bool-cases (is_empty (fields_of pairs))) [
  | inl e ↦ rw e (sym e ∙ is_empty-fields_of pairs)
  | inr e ↦ rw e (sym e ∙ is_empty-fields_of pairs)
]

-- The keys of the identifiers are words.
keys_shown :
    (is_empty (trim_space (codes "trace_id")) ≡ false)
    × ((is_empty (trim_space (codes "span_id")) ≡ false)
        × ((is_empty (trim_space (codes "parent_span_id")) ≡ false)
            × (is_empty (trim_space (codes "request_id")) ≡ false)))
unfolding trim_space
keys_shown = (refl, (refl, (refl, refl)))

-- What the header line has to say of four identifiers.
has_field-ids :
    (t s p r : Bytes)
    → not (
        has_field (
          codes "trace_id"
          ∷ t
          ∷ codes "span_id"
          ∷ s
          ∷ codes "parent_span_id"
          ∷ p
          ∷ codes "request_id"
          ∷ r
          ∷ []))
      ≡ (is_empty (trim_space r)
          && (is_empty (trim_space t) && (is_empty (trim_space s) && is_empty (trim_space p))))
has_field-ids t s p r = let (a, (b, (c, d))) = keys_shown in rw (a, b, c, d) (ground arith)

-- The identifiers have no white space at their ends, as all that the package makes have none.
pub record HasPlainIds (c : Context) : Type 0 where
  pub trace : trim_space c.trace_id ≡ c.trace_id
  pub span : trim_space c.span_id ≡ c.span_id
  pub parent : trim_space c.parent_span_id ≡ c.parent_span_id

-- A correlation whose identifiers have no white space at their ends has an empty header line,
-- without extra fields, exactly when its JSON projection is empty, so that a log shows the one
-- where it carries the other.
header_line-empty_meta :
    (c : Context) → HasPlainIds c → is_empty (header_line c []) ≡ empty_meta (meta c)
unfolding header_line meta empty_meta
header_line-empty_meta c h =
    rw (is_empty-marker_line, has_field-ids, h.trace, h.span, h.parent) refl
