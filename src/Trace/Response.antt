-- ===== src/Trace/Response.antt =====
-- trace/middleware.go: responseWriter, and what a handler does through it.
pub mod Laws
use gklog.Base.{
  ℕ, ◌+◌, List, [], ◌∷◌, Bool-cases, inl, inr, ◌∙◌, Option, none, some, Bool, true, false, not,
  ◌&&◌, ◌==◌, leb, ◌≡◌, refl, ap, if◌then◌else◌,
}
use gklog.Text.{Bytes}
use gklog.Errors.{Error, response_write_error}

-- The wrapped http.ResponseWriter.
pub record HttpOps (W : Type 0) : Type 0 where
  pub write_header : ℕ → W → W
  pub write : Bytes → W → (ℕ × Option Error) × W

-- `status` and `bytes`; the count is in an int64, which no response fills.
pub record ResponseWriter : Type 0 where
  pub status : ℕ
  pub bytes : ℕ

abbrev pub status_ok : ℕ
status_ok = 200

abbrev pub new_response_writer : ResponseWriter
new_response_writer = record { status = status_ok; bytes = 0 }

abbrev pub wrap_write : ℕ × Option Error → ℕ × Option Error
wrap_write (n, none) = (n, none)
wrap_write (n, some e) = (n, some (response_write_error e))

module _ {W : Type 0} (http : HttpOps W) where
  unfoldable pub write_header : ResponseWriter → ℕ → W → ResponseWriter × W
  write_header rw status w = (record rw { status = status }, http.write_header status w)

  unfoldable pub write : ResponseWriter → Bytes → W → ((ℕ × Option Error) × ResponseWriter) × W
  write rw b w =
      let (r, w') = http.write b w in ((wrap_write r, record rw { bytes = rw.bytes + r.0 }), w')

-- What a handler does: it sets a status, writes a part of the body and goes on by the result, or
-- does something else that may depend on the world; in the end it returns or panics.
pub data Program (W : Type 0) : Type 0 where
  done : Program W
  panics : Program W
  sets : ℕ → Program W → Program W
  writes : Bytes → (ℕ → Option Error → Program W) → Program W
  acts : (W → W) → (W → Program W) → Program W

pub data Outcome : Type 0 where
  returned panicked : Outcome

module _ {W : Type 0} (http : HttpOps W) where
  unfoldable pub serve : Program W → ResponseWriter × W → Outcome × (ResponseWriter × W)
  unfolding write_header write
  serve done (rw, w) = (returned, (rw, w))
  serve panics (rw, w) = (panicked, (rw, w))
  serve (sets status p) (rw, w) = serve p (write_header http rw status w)
  serve (writes b next) (rw, w) =
      let ((r, rw'), w') = write http rw b w in serve (next r.0 r.1) (rw', w')
  serve (acts f next) (rw, w) = serve (next w) (rw, f w)

-- What net/http makes of a response: the first status that is not informational is sent, a later one
-- is dropped, and a part of the body without a status sends 200. `takes` is the result of its Write,
-- which may refuse a part (for the status, the Content-Length or the connection); what it takes goes
-- to the body, except that the body of an answer to HEAD is dropped.
pub record Wire : Type 0 where
  pub sent : Option ℕ
  pub body : ℕ

abbrev pub informational : ℕ → Bool
informational s = leb 100 s && (leb s 199 && not (s == 101))

abbrev pub first_status : Option ℕ → ℕ → Option ℕ
first_status (some t) s = some t
first_status none s = if informational s then none else some s

abbrev pub or_ok : Option ℕ → ℕ
or_ok none = status_ok
or_ok (some s) = s

abbrev pub taken : (head : Bool) → Wire → ℕ × Option Error → (ℕ × Option Error) × Wire
taken true w r = (r, w)
taken false w r = (r, record w { body = w.body + r.0 })

abbrev pub committed : Wire → Wire
committed w = record w { sent = some (or_ok w.sent) }

abbrev pub net_http : (head : Bool) → (takes : Bytes → Wire → ℕ × Option Error) → HttpOps Wire
net_http head takes = record {
  write_header = λ s w. record w { sent = first_status w.sent s };
  write = λ b w. taken head (committed w) (takes b (committed w));
}

abbrev pub unsent : Wire
unsent = record { sent = none; body = 0 }
