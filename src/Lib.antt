-- ===== src/Lib.antt =====
-- A model of the logging library gklog, with proofs.
--
-- The program. Package correlation (correlation/) gives every operation a trace, a span and a
-- request identifier, stores them on a context.Context, carries them over HTTP headers and gRPC
-- metadata, and adds them to log records through a slog handler. The root package builds a logger
-- out of handlers (factory.go): a tee over children and a handler that writes lines of text
-- (handlers.go), a router that sends a record to a file for its concern (router.go), the email
-- handler (emaillog/handler.go) with a cooldown per message, and a closer for all of them. A
-- writer with a lock file (handlers.go, locked_rotation.go) lets several processes share a
-- rotating log. Package trace (trace/) logs operations, HTTP requests and database queries with a
-- logger from the context, and opens OpenTelemetry spans for them. Package version (version/)
-- names the build.
--
-- Files and code.
--   Text, Base        Go strings as lists of bytes, with strings.TrimSpace, Split, Join, Fields, ToUpper
--                     and ToLower, decimal digits, hex.EncodeToString, and shared lemmas
--   Time              time.Time.Sub, Duration.Milliseconds, and digits of an int64
--   Filepath          path/filepath: Clean, Dir, Base, Join
--   NetHttp           net/http.Header; canonical keys, Get, Set
--   Metadata          google.golang.org/grpc/metadata as an interface with its documented laws
--   Slog              log/slog: values, attributes, records, levels, the Handler interface; Loggers:
--                     slog.Logger on a heap; Steps: chains of WithAttrs and WithGroup calls
--   Clock             internal/clock/clock.go
--   Errors            the error wrapper types of all packages, with Error and Unwrap
--   Ctx               context.Context as the chain of its values
--   Correlation       correlation/correlation.go: Ident (identifiers, ParseTraceparent, random
--                     identifiers), Context (Context, New, Child, identity attributes; Slices: Child
--                     over shared memory), Carry (FromContext, WithContext, Ensure), Attrs (Attrs,
--                     AppendAttrs), Adopt, Http and Grpc (FromHTTPHeader, SetHTTPHeaders, Metadata,
--                     fromMetadata, NewOutgoingContext; Grpc.Call: from client to server, of
--                     values that are printable, Grpc.Plain);
--                     correlation/header.go: Marker; correlation/handler.go: Handler
--   EmailLog          emaillog/handler.go; Overlap: calls of Handle in several goroutines at once
--   Tee               handlers.go: TeeHandler
--   Sinks             handlers.go: closableHandler; Files: StdoutJSON, FileText, FileJSON,
--                     EmailHandler, and Files.Traced: a correlation handler over FileText
--   TextHandler       handlers.go: TextHandler, with textWriteAttr and the group prefix
--   Rotation          handlers.go: RotationConfig, NewLumberjackWriter
--   LockedWriter      handlers.go: lockedWriteCloser; locked_rotation.go: lockedRotation; Turns: its
--                     Write and Close in several processes at once
--   Router            router.go; Correlated: a correlation handler over a router
--   Logger            context.go
--   Factory           factory.go: Config, New, handlerListCloser, ParseLevel; handlers.go: trimUpper
--   Trace             Ids (trace/context.go), Op (trace/op.go), Response and Middleware
--                     (trace/middleware.go; Journal: all that one request does), Query
--                     (trace/pgx.go; Journal: all that one query does), Setup (trace/setup.go),
--                     and Otel: the OpenTelemetry API as an interface, with Tracer and StartSpan
--   Version           version/version.go: String, BuildHash; version/guard_stamped.go
--   Tests             runs at concrete inputs, and the theorems applied there
--
-- State. A method that changes a value takes the world (or the value) and returns what it then is:
-- a draw from crypto/rand.Read takes the number of reads made before it and returns the number made
-- after it, a handler takes the world that it writes to, the email handler the map of last times as
-- well, the router the map of children that all its clones share, the locked writer the file
-- information that it remembers, and the package trace the heap of loggers. What a mutex guards is
-- one step; the Write of a log with a lock file is one step in LockedWriter, and four stages that
-- interleave with those of other processes in LockedWriter.Turns; the Handle of the email handler,
-- which sends without its mutex, is one step in EmailLog and two in EmailLog.Overlap. A map used as
-- a set is the list of its keys, and a slice that is copied before it is written is a list, except
-- in Correlation.Context.Slices, which is about that copy: there it is an address in a memory.
-- Errors are values: a Go error is an Option, and each wrapper type is a constructor. The handler
-- that an HTTP request is passed to is a tree of the things it does: it sets a status, writes a
-- part of the body and goes on by the result, does something else, or panics.
--
-- Numbers are the native ones. A time is a number of nanoseconds, and the difference of two
-- saturates at the ends of 64 bits as time.Time.Sub does. Loops are structural recursion; decimal
-- digits take the fuel n + 1, which is enough since each round divides by ten, and Value.Resolve
-- stops after 100 calls of LogValue as log/slog does.
--
-- Parameters: crypto/rand.Read (the hypothesis IsSource says that a read that succeeds fills the
-- buffer, IsLively that no read fails or gives only zeros), the gRPC metadata package (IsMd), the
-- transport of gRPC (IsTransport: a call may fail; if it reaches the server, and all its values
-- are printable ASCII, the server has them, where keys with other names may be added), the next
-- handlers and their closers, time.Now, the sender of emails, the writer of lines, Time.Format,
-- strings.ToUpper outside ASCII, the lock file with os.Stat and the wrapped writer (IsShared for
-- one process, IsExclusive for several, and IsApart: the descriptors of processes are their own,
-- so that the Close of one comes to the same before and after what another does), FileJSON and
-- os.MkdirAll for the router, log/slog's JSON handler, OpenTelemetry (IsOtel and KeepsStart: a
-- context that it derives keeps the values of other packages), its SDK and exporter, url.Parse,
-- uuid.New, the http.ResponseWriter (in Trace.Response also what net/http sends, with the result
-- of its Write left open), http.StatusText, Duration.String, and the executable file with its
-- SHA-256 (IsSha256).
--
-- Not modelled: timeouts of contexts.
pub mod Base
pub mod Text
pub mod NetHttp
pub mod Metadata
pub mod Errors
pub mod Slog
pub mod Clock
pub mod Ctx
pub mod Correlation
pub mod EmailLog
pub mod Tee
pub mod Factory
pub mod Version
pub mod Filepath
pub mod LockedWriter
pub mod Logger
pub mod Rotation
pub mod Router
pub mod Sinks
pub mod TextHandler
pub mod Time
pub mod Trace
pub mod Tests
