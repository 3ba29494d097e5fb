-- ===== src/Tests/Logs.antt =====
-- The theorem on a text log behind a correlation handler, applied to a strict handler under a group.
use gklog.Base.{ℕ, List, [], ◌∷◌, ◌++◌, none, some, true, map, ◌≡◌}
use gklog.Text.{Bytes, codes}
use gklog.Errors.{Error}
use gklog.Slog.Steps.{Step, bind, enter}
use gklog.Slog.{string_attr}
use gklog.Correlation.Carry.{from_context}
use gklog.Correlation.Handler.{HandlerOptions, new_handler, enhance}
use gklog.Correlation.Handler as Correlation
use gklog.Correlation.Handler.Strict.{at, diagnostics}
use gklog.LockedWriter.{FileOps, missing, new_locked_writer}
use gklog.Rotation.{no_config}
use gklog.Sinks.{closable_ops}
use gklog.Sinks.Laws as Chain
use gklog.Sinks.Files.{Opener, open_locked, text_ops, file_text}
use gklog.Sinks.Files.Lines.{line_for}
use gklog.Sinks.Files.Traced.{Sink, write_lines, IsTraced, handle-lines}
use gklog.Tests.World.{calling, entry}

-- A world that is the list of the lines written, with a lock that is always free.
abbrev listing : FileOps (List Bytes)
listing = record {
  lock = λ w. (none, w);
  unlock = λ w. w;
  stat = λ w. (missing (Error.foreign []), w);
  write = λ p w. ((0, none), w ++ p ∷ []);
  close = λ w. (none, w);
}

abbrev opener : Opener (List Bytes)
opener lock settings = listing

abbrev log_path : Bytes
log_path = codes "logs/app.log"

abbrev label : Bytes
label = codes "svc"

abbrev steps : List Step
steps = bind (string_attr (codes "a") (codes "1") ∷ []) ∷ enter (codes "rpc") ∷ []

abbrev at_noon : ℕ → Bytes
at_noon t = codes "noon"

abbrev strict : HandlerOptions
strict = record { strict = true; required = codes "tenant" ∷ [] }

abbrev discard : Sink (List Bytes)
discard = file_text opener [] [] no_config

handle-lines_example :
    let files = open_locked opener log_path no_config in
    let c = from_context calling in
    let h =
      Chain.derive_all
        (text_ops at_noon files)
        (new_handler discard (some (file_text opener log_path label no_config)) strict)
        steps in
    (Correlation.handle
        (closable_ops (text_ops at_noon files))
        (at 9)
        h
        calling
        entry
        (new_locked_writer true, [])
      ≡ (
        none,
        write_lines files
            (map (line_for at_noon label steps) (diagnostics h c entry 9)
              ++ line_for at_noon label steps (enhance h c entry) ∷ [])
            (new_locked_writer true, []),
      ))
    × IsTraced at_noon label steps h c entry (line_for at_noon label steps (enhance h c entry))
handle-lines_example =
    handle-lines at_noon opener log_path label no_config discard strict steps calling entry 9
      (new_locked_writer true, [])
