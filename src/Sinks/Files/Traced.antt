-- ===== src/Sinks/Files/Traced.antt =====
-- A log of text behind a correlation handler: from a record to the lines in the file.
use mathlib.Core.Path.{fun_ext}
use gklog.Base.{ℕ, List, [], ◌∷◌, ◌++◌, none, some, not, ◌&&◌, map, ◌≡◌, refl, ap, ◌∙◌, map-append}
use gklog.Text.{Bytes}
use gklog.Text.Keys.{has}
use gklog.Slog.Steps.{Step, bind, enter}
use gklog.Slog.{Attr, keys, Record}
use gklog.Ctx.{Ctx}
use gklog.Correlation.Context.{Context}
use gklog.Correlation.Carry.{from_context}
use gklog.Correlation.Attrs.{attrs_of}
use gklog.Correlation.Handler.{SlogHandler, HandlerOptions, new_handler, enhance, wrap_handle}
use gklog.Correlation.Handler as Correlation
use gklog.Correlation.Handler.Laws.{missing, enhance-missing, has-missing}
use gklog.Correlation.Handler.Strict.{at, hand_on, diagnostics, passed_on, handle_passes_on}
use gklog.LockedWriter.{FileOps, LockedWriter}
use gklog.Rotation.{RotationConfig}
use gklog.TextHandler.{TextHandler, write_attrs, line_of}
use gklog.TextHandler.Fields.{fields, open_behind, fields-append}
use gklog.TextHandler.Laws.{front_of, front_of-attrs, line_of-derive_all}
use gklog.TextHandler.Laws as Text
use gklog.Sinks.{ClosableHandler, closable_ops}
use gklog.Sinks.Laws as Chain
use gklog.Sinks.Files.{Opener, open_locked, write_line, text_ops, file_text}
use gklog.Sinks.Files.Lines.{
  line_for, derive_all, derive_all-handler, handle-line, file_text-handler,
}
use gklog.Sinks.Files.Lines as Lines

-- A log with a text handler that closes it, as FileText gives it.
abbrev pub Sink : Type 0 → Type 0
Sink W = ClosableHandler TextHandler (LockedWriter × W)

-- One Write for each line.
unfoldable pub write_lines :
    {W : Type 0} → FileOps W → List Bytes → LockedWriter × W → LockedWriter × W
write_lines files [] st = st
write_lines files (line ∷ lines) st = write_lines files lines (write_line files line st)

module _ {W : Type 0} (stamp : ℕ → Bytes) (files : FileOps W) where
  hand_on-lines :
      (h : Sink W) (ctx : Ctx) (rs : List Record) (st : LockedWriter × W)
      → hand_on (closable_ops (text_ops stamp files)) h ctx rs st
        ≡ (none, write_lines files (map (λ r. line_of stamp h.handler r) rs) st)
  unfolding hand_on write_lines
  hand_on-lines h ctx [] st = refl
  hand_on-lines h ctx (r ∷ []) st = handle-line stamp files h ctx r st
  hand_on-lines h ctx (r ∷ s ∷ rs) st =
      ap (λ x. hand_on (closable_ops (text_ops stamp files)) h ctx (s ∷ rs) x.1)
        (handle-line stamp files h ctx r st)
      ∙ hand_on-lines h ctx (s ∷ rs) (write_line files (line_of stamp h.handler r) st)

  -- Under the correlation handler every step reaches the log.
  derive-next :
      (h : SlogHandler (Sink W)) (s : Step)
      → (Chain.derive (text_ops stamp files) h s).next ≡ Lines.derive stamp files h.next s
  unfolding Lines.derive Correlation.with_attrs Correlation.with_group
  derive-next h (bind attrs) = refl
  derive-next h (enter name) = refl

  derive_all-next :
      (h : SlogHandler (Sink W)) (steps : List Step)
      → (Chain.derive_all (text_ops stamp files) h steps).next ≡ derive_all stamp files h.next steps
  unfolding Chain.derive_all derive_all
  derive_all-next h [] = refl
  derive_all-next h (s ∷ steps) =
      derive_all-next (Chain.derive (text_ops stamp files) h s) steps
      ∙ ap (λ n. derive_all stamp files n steps) (derive-next h s)

-- What the identifiers add to a line: the keys that neither the record nor the handler has, in front
-- of the end of the line, under all groups that are open.
pub record IsTraced {H : Type 0} (stamp : ℕ → Bytes) (label : Bytes) (steps : List Step)
    (h : SlogHandler H) (c : Context) (r : Record) (line : Bytes) : Type 0 where
  pub added : List Attr
  pub keys_added :
      (k : Bytes)
      → has k (keys added)
        ≡ (has k (keys (attrs_of c)) && not (has k (keys h.attrs ++ keys r.attrs)))
  pub text :
      line
      ≡ front_of stamp label r
        ++ ((fields [] steps r.attrs ++ write_attrs (open_behind [] steps) added) ++ 10 ∷ [])

line_for-IsTraced :
    {H : Type 0} (stamp : ℕ → Bytes) (label : Bytes) (steps : List Step) (h : SlogHandler H)
    (c : Context) (r : Record)
    → IsTraced stamp label steps h c r (line_for stamp label steps (enhance h c r))
line_for-IsTraced stamp label steps h c r = record {
  added = missing h c r;
  keys_added = has-missing h c r;
  text =
      rw (enhance-missing h c r, front_of-attrs stamp label r (r.attrs ++ missing h c r))
        (ap (λ t. front_of stamp label r ++ (t ++ 10 ∷ []))
          (fields-append [] steps r.attrs (missing h c r)));
}

module _ {W : Type 0} (stamp : ℕ → Bytes) (opener : Opener W) (path label : Bytes)
    (rot : RotationConfig) where
  log_line :
      (steps : List Step) (r : Record)
      → let files = open_locked opener path rot in
        line_of stamp (derive_all stamp files (file_text opener path label rot) steps).handler r
        ≡ line_for stamp label steps r
  log_line steps r =
      let files = open_locked opener path rot in
      ap (λ t. line_of stamp t r)
        (derive_all-handler stamp files (file_text opener path label rot) steps
          ∙ ap (λ t. Text.derive_all t steps) (file_text-handler opener path label rot))
      ∙ line_of-derive_all stamp label steps r

  -- A correlation handler over FileText, or one that any chain of WithAttrs and WithGroup made of it:
  -- Handle reports no error and makes one Write of the log for each record that is passed on, the
  -- diagnostics first; the last one is the record's own line, with the identifiers of its context
  -- that neither it nor the chain has, at the end and under all groups of the chain.
  pub handle-lines :
      (discard : Sink W) (opts : HandlerOptions) (steps : List Step) (ctx : Ctx) (r : Record)
      (t : ℕ) (st : LockedWriter × W)
      → let files = open_locked opener path rot in
        let c = from_context ctx in
        let h =
          Chain.derive_all
            (text_ops stamp files)
            (new_handler discard (some (file_text opener path label rot)) opts)
            steps in
        (Correlation.handle (closable_ops (text_ops stamp files)) (at t) h ctx r st ≡ (
          none,
          write_lines files
              (map (line_for stamp label steps) (diagnostics h c r t)
                ++ line_for stamp label steps (enhance h c r) ∷ [])
              st,
        ))
        × IsTraced stamp label steps h c r (line_for stamp label steps (enhance h c r))
  unfolding new_handler passed_on wrap_handle
  handle-lines discard opts steps ctx r t st =
      let files = open_locked opener path rot in
      let c = from_context ctx in
      let h0 = new_handler discard (some (file_text opener path label rot)) opts in
      let h = Chain.derive_all (text_ops stamp files) h0 steps in
      (
        handle_passes_on (closable_ops (text_ops stamp files)) h ctx r t st
            ∙ ap (λ x. wrap_handle x) (hand_on-lines stamp files h.next ctx (passed_on h c r t) st)
            ∙ ap
                (λ n. (
                  none,
                  write_lines files (map (λ r. line_of stamp n.handler r) (passed_on h c r t)) st,
                ))
                (derive_all-next stamp files h0 steps)
            ∙ ap (λ f. (none, write_lines files (map f (passed_on h c r t)) st))
                (fun_ext (log_line steps))
            ∙ rw map-append refl,
        line_for-IsTraced stamp label steps h c r,
      )
