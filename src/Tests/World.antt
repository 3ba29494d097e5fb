-- ===== src/Tests/World.antt =====
-- Concrete inputs for the tests: a random source, a metadata implementation, contexts and handlers.
use gklog.Base.{
  all, Bool-cases, inl, inr, ℕ, zero, suc, List, [], ◌∷◌, ◌++◌, Option, none, some, ◌==◌, ◌≡◌, refl,
  replicate, All, if◌then◌else◌, arith, length-replicate,
}
use gklog.Base.Int.{pos, leb_ℤ}
use gklog.Text.{Bytes, codes, same}
use gklog.Text.Case.{to_lower_ascii}
use gklog.Text.Hex.{IsByte}
use gklog.Errors.{Error}
use gklog.Ctx.{Ctx, Binding, correlation}
use gklog.Correlation.Carry.{from_context}
use gklog.Correlation.Grpc.Plain.{is_plain}
use gklog.Correlation.Grpc.Call.{IsTransport}
use gklog.Slog.{string_attr, Record, HandlerOps, CloserOps}
use gklog.Metadata.{MdOps, IsMd}
use gklog.Correlation.Ident.{Draw, IsSource}
use gklog.Correlation.Context.{Context, IdentityAttribute}
use gklog.Correlation.Context.Span.{IsLively}

-- A source whose every byte is 7.
abbrev pub sevens : Draw
sevens k n = some (replicate n 7)

bytes : (n : ℕ) → All IsByte (replicate n 7)
bytes zero = tt
bytes (suc n) = (omega arith, bytes n)

pub sevens-IsSource : IsSource sevens
sevens-IsSource = record {
  filled = λ k n buf e.
      let e' : replicate n 7 ≡ buf = cc in (rw (← e', length-replicate), rw (← e') (bytes n));
}

pub sevens-IsLively : IsLively sevens
sevens-IsLively k = (refl, refl)

abbrev pub trace_a : Bytes
trace_a = codes "4bf92f3577b34da6a3ce929d0e0e4736"

abbrev pub span_a : Bytes
span_a = codes "00f067aa0ba902b7"

abbrev pub span_b : Bytes
span_b = codes "53995c3f42cd8ad8"

abbrev pub user : IdentityAttribute
user = record { key = codes "user"; value = codes "ann" }

abbrev pub caller : Context
caller = record {
  trace_id = trace_a;
  span_id = span_a;
  parent_span_id = span_b;
  request_id = codes "req-1";
  identity_attributes = user ∷ [];
}

abbrev pub calling : Ctx
calling = some (correlation caller ∷ [])

abbrev pub entry : Record
entry = record {
  time = 5;
  level = pos 8;
  message = codes "boom";
  pc = 3;
  attrs = string_attr (codes "span_id") (codes "x") ∷ string_attr (codes "n") (codes "1") ∷ [];
}

-- Metadata as a list of pairs under keys in lower case.
abbrev pub Pairs : Type 0
Pairs = List (Bytes × List Bytes)

unfoldable pub pairs_get : Pairs → Bytes → List Bytes
pairs_get [] k = []
pairs_get ((j, vs) ∷ md) k = if same j (to_lower_ascii k) then vs else pairs_get md k

-- Outgoing and incoming metadata are values of a context under two keys.
unfoldable pub outgoing_of : List Binding → Option Pairs
outgoing_of [] = none
outgoing_of (Binding.foreign n md ∷ chain) =
    let rest = outgoing_of chain in if n == 1 then some md else rest
outgoing_of (_ ∷ chain) = outgoing_of chain

incoming_of : List Binding → Option Pairs
incoming_of [] = none
incoming_of (Binding.foreign n md ∷ chain) =
    let rest = incoming_of chain in if n == 2 then some md else rest
incoming_of (_ ∷ chain) = incoming_of chain

abbrev chain_of : Ctx → List Binding
chain_of none = []
chain_of (some chain) = chain

unfoldable pub pairs_md : MdOps Pairs
unfolding pairs_get incoming_of
pairs_md = record {
  empty = [];
  get = pairs_get;
  set = λ md k vs. (to_lower_ascii k, vs) ∷ md;
  incoming = λ ctx. incoming_of (chain_of ctx);
  outgoing = λ ctx md. some (Binding.foreign 1 md ∷ chain_of ctx);
}

pub pairs_md-IsMd : IsMd pairs_md
unfolding pairs_md
pairs_md-IsMd = record {
  get-empty = λ k. unfold pairs_get in refl;
  get-set = λ md j k v hj hk. unfold pairs_get in refl;
}

-- A transport that adds a key of its own, and fails on a value that is not plain.
abbrev user_agent : Bytes
user_agent = codes "user-agent"

abbrev pub on_server : Pairs → Ctx
on_server md = some (Binding.foreign 2 ((user_agent, codes "grpc-go" ∷ []) ∷ md) ∷ [])

abbrev arrived : Option Pairs → Option Ctx
arrived none = some (some [])
arrived (some md) =
    if all (λ (kv : Bytes × List Bytes). all is_plain kv.1) md then some (on_server md) else none

arrived-on_server :
    (md : Pairs) (server : Ctx) → arrived (some md) ≡ some server → on_server md ≡ server
arrived-on_server md server h =
    elim (Bool-cases (all (λ (kv : Bytes × List Bytes). all is_plain kv.1) md)) [
      | inl e ↦ let h' : some (on_server md) ≡ some server = rw e at h in cc
      | inr e ↦ let h' : ◌≡◌ {A = Option Ctx} none (some server) = rw e at h in cc
    ]

unfoldable pub wire : Ctx → Option Ctx
unfolding outgoing_of
wire ctx = arrived (outgoing_of (chain_of ctx))

kept_on : (ctx : Ctx) → from_context (some (Binding.foreign 1 [] ∷ chain_of ctx)) ≡ from_context ctx
unfolding from_context
kept_on none = refl
kept_on (some chain) = refl

pub wire-IsTransport : IsTransport pairs_md wire
unfolding wire pairs_md pairs_get incoming_of to_lower_ascii from_context
wire-IsTransport = record {
  reserved = λ k. same user_agent (to_lower_ascii k);
  free = refl;
  arrives = λ ctx server md d plain. (
    (user_agent, codes "grpc-go" ∷ []) ∷ md,
    rw (← arrived-on_server md server d) refl,
    λ k a e. rw e refl,
  );
  outgoing-correlation = λ ctx md. kept_on ctx;
}

-- Handlers that are numbers: an even chance of failure is written in the number. Each writes itself
-- down in the world.
abbrev pub numbered : HandlerOps ℕ (List ℕ)
numbered = record {
  enabled = λ h ctx level. leb_ℤ (pos h) level;
  handle = λ h ctx r w.
      (if leb_ℤ (pos 4) (pos h) then some (Error.foreign (codes "full")) else none, w ++ h ∷ []);
  with_attrs = λ h attrs. h;
  with_group = λ h name. h;
}

-- Of these handlers the one numbered 1 is no closer, and closing the one numbered 2 fails.
abbrev pub closable_two : CloserOps ℕ (List ℕ)
closable_two = record {
  close = λ h.
      if leb_ℤ (pos h) (pos 1)
      then none
      else some (λ w. (
        if leb_ℤ (pos 3) (pos h) then none else some (Error.foreign (codes "stuck")),
        w ++ h ∷ [],
      ));
}
