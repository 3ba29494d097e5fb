-- ===== src/Tests/Identifiers.antt =====
-- The theorems on identifiers, contexts and identity attributes, applied.
use gklog.Base.{
  ℕ, ◌+◌, ◌*◌, replicate, List, [], ◌∷◌, none, some, true, false, ◌≡◌, ◌↔◌, refl, arith, is_empty,
}
use gklog.Text.{Bytes, codes}
use gklog.Text.Hex.{encode_hex, hex_digit}
use gklog.Text.Trim.{trim_space}
use gklog.Text.Parts.{split}
use gklog.Correlation.Ident.{parse_traceparent, valid_trace_id, valid_span_id}
use gklog.Correlation.Ident.Traceparent.{Reads, parse_traceparent_iff}
use gklog.Correlation.Context.{
  IdentityAttribute, normalize, valid, with_identity_attributes, child, identity_attribute_value,
}
use gklog.Correlation.Context.Identity.{IsClean, identity_attribute_value-with_identity_attributes}
use gklog.Correlation.Context.Span.{descend, IsLater, descend-IsLater}
use gklog.Correlation.Context.Slices.{
  Memory, SharedContext, Fits, array_at, write_all, view, child_shared,
}
use gklog.Correlation.Context.Slices.Laws.{child_shared-isolated}
use gklog.Correlation.Carry.{with_context, ensure}
use gklog.Correlation.Carry.Laws.{ensure_again}
use gklog.Correlation.Marker.Laws.{HasPlainIds}
use gklog.Version.{
  Stamp, missing_build_metadata_value, equal_fold, build_metadata_valid, version_string, unstamped,
  init, Binary, compute_build_hash,
}
use gklog.Version.Hash.{IsSha256, IsBuildName, hash_calls, build_hash-once}
use gklog.Version.Laws.{version_string-of_valid}
use gklog.Tests.World.{sevens, sevens-IsSource, sevens-IsLively, trace_a, span_a, caller, user}

abbrev inbound : Bytes
inbound = codes " 00-4bf92f3577b34da6a3ce929d0e0e4736-00f067aa0ba902b7-zz "

parse_traceparent_iff_example :
    (parse_traceparent inbound ≡ some (trace_a, span_a)) ↔ Reads inbound trace_a span_a
parse_traceparent_iff_example = parse_traceparent_iff inbound trace_a span_a

parse_runs : parse_traceparent inbound ≡ some (trace_a, span_a)
unfolding parse_traceparent trim_space split valid_trace_id valid_span_id
parse_runs = refl

caller-valid : valid caller ≡ true
unfolding valid valid_trace_id valid_span_id
caller-valid = refl

descend-IsLater_example :
    IsLater caller (descend sevens 3 caller 0).0
    × ((descend sevens 3 caller 0).0.parent_span_id ≡ (descend sevens 2 caller 0).0.span_id)
descend-IsLater_example =
    descend-IsLater sevens sevens-IsSource sevens-IsLively 2 caller 0 caller-valid

abbrev incoming_attributes : List IdentityAttribute
incoming_attributes =
    record { key = codes " user "; value = codes "bob" }
    ∷ record { key = codes "team"; value = codes " " }
    ∷ []

word-kept : is_empty (trim_space (codes "user")) ≡ false
unfolding trim_space
word-kept = refl

identity_attribute_value-with_identity_attributes_example :
    identity_attribute_value (with_identity_attributes caller incoming_attributes) (codes "user")
    ≡ codes "bob"
unfolding normalize trim_space
identity_attribute_value-with_identity_attributes_example =
    identity_attribute_value-with_identity_attributes caller incoming_attributes (codes "user")
      word-kept

caller-IsClean : IsClean caller.identity_attributes
caller-IsClean = record { once = refl; normal = (unfold normalize trim_space in refl, tt) }

name-kept : is_empty (trim_space (codes "r")) ≡ false
unfolding trim_space
name-kept = refl

ensure_again_example :
    ensure sevens
      (ensure sevens none (codes "r") 0).0.0
      (codes "s")
      (ensure sevens none (codes "r") 0).1
    ≡ (
      (
        with_context (ensure sevens none (codes "r") 0).0.0 (ensure sevens none (codes "r") 0).0.1,
        (ensure sevens none (codes "r") 0).0.1,
      ),
      (ensure sevens none (codes "r") 0).1,
    )
ensure_again_example = ensure_again sevens sevens-IsSource none (codes "r") (codes "s") 0 name-kept

-- The attributes of caller in the one array there is, and a parent that holds them.
abbrev memory : Memory
memory = (user ∷ []) ∷ []

abbrev parent : SharedContext
parent = record { ids = caller; attrs = record { array = 0; len = 1 } }

parent-Fits : Fits memory parent.attrs
unfolding array_at
parent-Fits = omega arith

abbrev renamed : IdentityAttribute
renamed = record { key = codes "user"; value = codes "eve" }

child_shared-isolated_example :
    let ((c', memory'), k') = child_shared sevens parent 0 memory in
    let pure = child sevens (view memory parent) 0 in
    (view memory' c' ≡ pure.0)
    × (k' ≡ pure.1)
    × (view (write_all memory' c'.attrs ((0, renamed) ∷ [])) parent ≡ view memory parent)
    × (view (write_all memory' parent.attrs ((0, renamed) ∷ [])) c' ≡ pure.0)
child_shared-isolated_example =
    child_shared-isolated sevens parent 0 memory ((0, renamed) ∷ []) parent-Fits

caller-HasPlainIds : HasPlainIds caller
unfolding trim_space
caller-HasPlainIds = record { trace = refl; span = refl; parent = refl }

abbrev release : Stamp
release = record {
  version = codes "v1.2";
  commit = codes "0123456789abcdef";
  dirty = codes "true";
  bin_hash = [];
  build_time = codes "noon";
}

release-valid : init release ≡ none
unfolding init build_metadata_valid missing_build_metadata_value equal_fold trim_space
release-valid = refl

version_string-of_valid_example :
    version_string release ≡ codes "v1.2 0123456789ab+dirty built noon"
version_string-of_valid_example = version_string-of_valid release release-valid refl refl

-- A file whose sum is all sevens.
abbrev binary : Binary ℕ
binary = record {
  executable = λ n. (some (codes "/bin/app"), n);
  open_file = λ path n. (some 3, n + 1);
  sum_of = λ f n. (some (replicate 32 7), n);
  close_file = λ f n. n + 10;
}

binary-IsSha256 : IsSha256 binary
binary-IsSha256 = record { summed = λ f w sum e. sevens-IsSource.filled 0 32 sum e }

build_hash-once_example :
    IsBuildName (compute_build_hash binary 5).0
    × (hash_calls binary ((λ n. 5) ∷ (λ n. n * 2) ∷ []) none 0
        ≡ (codes "070707070707" ∷ codes "070707070707" ∷ [], 32))
unfolding compute_build_hash encode_hex hex_digit
build_hash-once_example = build_hash-once binary binary-IsSha256 (λ n. 5) ((λ n. n * 2) ∷ []) 0

unstamped-invalid : build_metadata_valid unstamped ≡ false
unfolding build_metadata_valid missing_build_metadata_value equal_fold trim_space unstamped
unstamped-invalid = refl
