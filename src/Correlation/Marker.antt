-- ===== src/Correlation/Marker.antt =====
-- correlation/header.go: MarkerLine, HeaderLine and the JSON projection Meta.
pub mod Laws
use gklog.Base.{List, [], ◌∷◌, ◌++◌, Bool, true, false, ◌&&◌, ◌||◌, if◌then◌else◌, is_empty}
use gklog.Text.{Bytes, codes}
use gklog.Text.Trim.{trim_space}
use gklog.Text.Parts.{join}
use gklog.Correlation.Context.{Context}

-- The magnifying glass U+1F50E in UTF-8, and a space.
abbrev pub header_marker : Bytes
header_marker = 0xF0 ∷ 0x9F ∷ 0x94 ∷ 0x8E ∷ 0x20 ∷ []

-- The loop over index and index + 1; a trailing key is left over.
unfoldable pub fields_of : List Bytes → List Bytes
fields_of [] = []
fields_of (key ∷ []) = []
fields_of (key ∷ value ∷ pairs) =
    let rest = fields_of pairs in
    if is_empty (trim_space key) || is_empty (trim_space value)
    then rest
    else (trim_space key ++ (codes "=" ++ trim_space value)) ∷ rest

unfoldable pub marker_line : List Bytes → Bytes
unfolding fields_of
marker_line pairs =
    if is_empty (fields_of pairs) then [] else header_marker ++ join (fields_of pairs) (codes " ")

unfoldable pub header_line : Context → List Bytes → Bytes
unfolding marker_line
header_line c extra = marker_line (
    codes "trace_id"
    ∷ c.trace_id
    ∷ codes "span_id"
    ∷ c.span_id
    ∷ codes "parent_span_id"
    ∷ c.parent_span_id
    ∷ codes "request_id"
    ∷ c.request_id
    ∷ extra)

pub record Meta : Type 0 where
  pub request_id : Bytes
  pub trace_id : Bytes
  pub span_id : Bytes
  pub parent_span_id : Bytes

unfoldable pub meta : Context → Meta
meta c = record {
  request_id = trim_space c.request_id;
  trace_id = c.trace_id;
  span_id = c.span_id;
  parent_span_id = c.parent_span_id;
}

-- Meta.Empty
unfoldable pub empty_meta : Meta → Bool
empty_meta m =
    is_empty m.request_id
    && (is_empty m.trace_id && (is_empty m.span_id && is_empty m.parent_span_id))
