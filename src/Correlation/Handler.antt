-- ===== src/Correlation/Handler.antt =====
-- correlation/handler.go: SlogHandler, a handler that adds the correlation on the context to every
-- record, over any next handler. Its clock reads the state of the world.
pub mod Laws
pub mod Strict
use gklog.Base.{
  ℕ, List, [], ◌∷◌, ◌++◌, Option, none, some, Bool, true, false, not, ◌&&◌, if◌then◌else◌, is_empty,
}
use gklog.Base.Int.{ℤ}
use gklog.Text.{Bytes, codes}
use gklog.Text.Keys.{has}
use gklog.Errors.{Error, handle_error, close_error}
use gklog.Slog.{
  Attr, string_attr, keys, Record, new_record, add_attrs, level_warn, HandlerOps, CloserOps,
}
use gklog.Ctx.{Ctx}
use gklog.Correlation.Context.{Context}
use gklog.Correlation.Carry.{from_context}
use gklog.Correlation.Attrs.{attrs_of}

pub record HandlerOptions : Type 0 where
  pub strict : Bool
  pub required : List Bytes

pub record SlogHandler (H : Type 0) : Type 0 where
  pub next : H
  pub attrs : List Attr
  pub strict : Bool
  pub required : List Bytes

-- SlogHandler, the constructor; `discard` is slog.DiscardHandler, which a nil handler stands for.
abbrev or_discard : {H : Type 0} → H → Option H → H
or_discard discard none = discard
or_discard discard (some h) = h

unfoldable pub new_handler : {H : Type 0} → H → Option H → HandlerOptions → SlogHandler H
new_handler discard next opts = record {
  next = or_discard discard next;
  attrs = [];
  strict = opts.strict;
  required = opts.required;
}

-- The keys that `existing` holds after attrKeySet.
attr_key_set : {H : Type 0} → SlogHandler H → Record → List Bytes
attr_key_set h r = keys h.attrs ++ keys r.attrs

-- The loop that collects `missing`.
pub missing_from : List Bytes → List Attr → List Attr
missing_from existing [] = []
missing_from existing (a ∷ corr_attrs) =
    let rest = missing_from existing corr_attrs in
    if not (has a.key existing) then a ∷ rest else rest

-- `enhanced`, the record that is handed on.
unfoldable pub enhance : {H : Type 0} → SlogHandler H → Context → Record → Record
unfolding attr_key_set missing_from
enhance h c r =
    let missing = missing_from (attr_key_set h r) (attrs_of c) in
    if not (is_empty missing) then add_attrs r missing else r

-- What `existing` holds in the end.
unfoldable pub existing_keys : {H : Type 0} → SlogHandler H → Context → Record → List Bytes
unfolding attr_key_set missing_from
existing_keys h c r =
    let existing = attr_key_set h r in keys (missing_from existing (attrs_of c)) ++ existing

-- The wrapping of the next handler's error.
unfoldable pub wrap_handle : {W : Type 0} → Option Error × W → Option Error × W
wrap_handle (none, w) = (none, w)
wrap_handle (some e, w) = (some (handle_error e), w)

-- The record that emitMissingField builds at a time.
unfoldable pub diagnostic : Context → Bytes → Record → ℕ → Record
diagnostic c field source now =
    add_attrs
      (add_attrs (new_record now level_warn (codes "correlation.missing_field") source.pc) (
        string_attr (codes "missing_field") field
        ∷ string_attr (codes "source_msg") source.message
        ∷ []))
      (attrs_of c)

module _ {H W : Type 0} (ops : HandlerOps H W) (now : W → ℕ × W) where
  emit_missing_field : SlogHandler H → Ctx → Context → Bytes → Record → W → W
  unfolding diagnostic
  emit_missing_field h ctx c field source w =
      let (t, w') = now w in (ops.handle h.next ctx (diagnostic c field source t) w').1

  -- The loop over the required fields.
  emit_all : SlogHandler H → Ctx → Context → List Bytes → List Bytes → Record → W → W
  emit_all h ctx c existing [] source w = w
  emit_all h ctx c existing (field ∷ required) source w =
      emit_all h ctx c existing required source
        (if has field existing then w else emit_missing_field h ctx c field source w)

  strict_check : SlogHandler H → Ctx → Context → Record → W → W
  unfolding emit_missing_field emit_all existing_keys
  strict_check h ctx c r w =
      if h.strict && not (is_empty c.trace_id)
      then emit_all h ctx c (existing_keys h c r) h.required r w
      else w

  unfoldable pub handle : SlogHandler H → Ctx → Record → W → Option Error × W
  unfolding wrap_handle strict_check enhance
  handle h ctx r w =
      let c = from_context ctx in
      if is_empty (attrs_of c)
      then wrap_handle (ops.handle h.next ctx r w)
      else wrap_handle (ops.handle h.next ctx (enhance h c r) (strict_check h ctx c r w))

module _ {H W : Type 0} (ops : HandlerOps H W) where
  unfoldable pub enabled : SlogHandler H → Ctx → ℤ → Bool
  enabled h ctx level = ops.enabled h.next ctx level

  unfoldable pub with_attrs : SlogHandler H → List Attr → SlogHandler H
  with_attrs h attrs = record h { next = ops.with_attrs h.next attrs; attrs = h.attrs ++ attrs }

  unfoldable pub with_group : SlogHandler H → Bytes → SlogHandler H
  with_group h name = record h { next = ops.with_group h.next name }

-- Close: nothing happens if the next handler is no closer.
unfoldable pub wrap_close : {W : Type 0} → Option Error × W → Option Error × W
wrap_close (none, w) = (none, w)
wrap_close (some e, w) = (some (close_error e), w)

unfoldable pub close : {H W : Type 0} → CloserOps H W → SlogHandler H → W → Option Error × W
unfolding wrap_close
close closers h w = elim (closers.close h.next) [ none ↦ (none, w) | some run ↦ wrap_close (run w) ]
