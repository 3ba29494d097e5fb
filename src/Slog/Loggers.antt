-- ===== src/Slog/Loggers.antt =====
-- slog.Logger: loggers live on a heap, and a *slog.Logger is an address. Address 0 is slog.Default.
use gklog.Base.{
  none, ℕ, zero, suc, List, [], ◌∷◌, ◌++◌, true, ◌≡◌, refl, if◌then◌else◌, is_empty, length,
}
use gklog.Base.Int.{ℤ}
use gklog.Text.{Bytes}
use gklog.Slog.{Attr, Record, new_record, add_attrs, HandlerOps}
use gklog.Ctx.{Ctx}

pub record Heap (H : Type 0) : Type 0 where
  pub default_handler : H
  pub made : List H

abbrev pub nth : {H : Type 0} → H → List H → ℕ → H
nth d [] i = d
nth d (h ∷ hs) zero = h
nth d (h ∷ hs) (suc i) = nth d hs i

-- The handler of a logger.
abbrev pub handler_at : {H : Type 0} → Heap H → ℕ → H
handler_at heap zero = heap.default_handler
handler_at heap (suc i) = nth heap.default_handler heap.made i

abbrev pub alloc : {H : Type 0} → H → Heap H → ℕ × Heap H
alloc h heap = (suc (length heap.made), record heap { made = heap.made ++ h ∷ [] })

nth-new : {H : Type 0} (d h : H) (hs : List H) → nth d (hs ++ h ∷ []) (length hs) ≡ h
nth-new d h [] = refl
nth-new d h (x ∷ hs) = nth-new d h hs

pub handler_at-alloc :
    {H : Type 0} (h : H) (heap : Heap H) → handler_at (alloc h heap).1 (alloc h heap).0 ≡ h
handler_at-alloc h heap = nth-new heap.default_handler h heap.made

-- time.Now, and the program counter of the call.
pub record Runtime (W : Type 0) : Type 0 where
  pub now : W → ℕ × W
  pub caller : W → ℕ

abbrev pub State : Type 0 → Type 0 → Type 0
State H W = Heap H × W

module _ {H W : Type 0} (ops : HandlerOps H W) where
  -- Logger.With on attributes
  unfoldable pub logger_with : ℕ → List Attr → State H W → ℕ × State H W
  logger_with l attrs (heap, w) =
      let (l', heap') = alloc (ops.with_attrs (handler_at heap l) attrs) heap in
      if is_empty attrs then (l, (heap, w)) else (l', (heap', w))

  -- Logger.LogAttrs; an error of the handler is dropped.
  unfoldable pub log_attrs : Runtime W → ℕ → Ctx → ℤ → Bytes → List Attr → State H W → State H W
  log_attrs rt l ctx level message attrs (heap, w) =
      let h = handler_at heap l in
      let (t, w') = rt.now w in
      let r = add_attrs (new_record t level message (rt.caller w)) attrs in
      if ops.enabled h ctx level then (heap, (ops.handle h ctx r w').1) else (heap, w)

-- A handler that writes down its records with the attributes bound to it in front.
abbrev pub Bound : Type 0
Bound = List Attr

abbrev pub bound_recorder : HandlerOps Bound (List Record)
bound_recorder = record {
  enabled = λ h ctx level. true;
  handle = λ h ctx r w. (none, w ++ record r { attrs = h ++ r.attrs } ∷ []);
  with_attrs = λ h attrs. h ++ attrs;
  with_group = λ h name. h;
}
