-- ===== src/Trace/Response/Laws.antt =====
-- The status and the size that the middleware reports, beside what net/http sends.
use gklog.Base.{
  ℕ, ◌+◌, List, [], ◌∷◌, Bool-cases, inl, inr, ◌∙◌, Option, none, some, Bool, true, false, ◌≡◌,
  refl, ap, if◌then◌else◌, leb, ◌&&◌,
}
use gklog.Text.{Bytes}
use gklog.Errors.{Error}
use gklog.Trace.Response.{
  ResponseWriter, status_ok, new_response_writer, wrap_write, write_header, write, Program, done,
  panics, sets, writes, acts, serve, Wire, informational, or_ok, taken, committed, net_http, unsent,
}

-- A status is set at most once, in front of the body, and is not informational; there is no panic.
abbrev pub IsOrderly : (committed : Bool) → Program Wire → Type 0
IsOrderly committed done = Unit
IsOrderly committed panics = ⊥
IsOrderly committed (sets s p) = (committed ≡ false) × (informational s ≡ false) × IsOrderly true p
IsOrderly committed (writes b next) = (n : ℕ) (e : Option Error) → IsOrderly true (next n e)
IsOrderly committed (acts f next) = (w : Wire) → IsOrderly committed (next w)

-- net/http panics at a status outside of these.
abbrev pub has_three_digits : ℕ → Bool
has_three_digits s = leb 100 s && leb s 999

-- The statuses have three digits, and the other effects of a handler leave its own response alone.
abbrev pub IsApart : Program Wire → Type 0
IsApart done = Unit
IsApart panics = Unit
IsApart (sets s p) = (has_three_digits s ≡ true) × IsApart p
IsApart (writes b next) = (n : ℕ) (e : Option Error) → IsApart (next n e)
IsApart (acts f next) = ((w : Wire) → f w ≡ w) × ((w : Wire) → IsApart (next w))

abbrev Committed : Bool → ℕ → Option ℕ → Type 0
Committed true status sent = sent ≡ some status
Committed false status sent = (sent ≡ none) × (status ≡ status_ok)

or_ok-Committed :
    (committed : Bool) (status : ℕ) (sent : Option ℕ)
    → Committed committed status sent
    → or_ok sent ≡ status
or_ok-Committed true status sent h = rw h refl
or_ok-Committed false status sent (h, k) = rw (h, k) refl

-- What a handler does to its response, in order.
pub data Deed : Type 0 where
  status_set : ℕ → Deed
  body_written : Deed

-- The status that was set last.
abbrev pub last_status : ℕ → List Deed → ℕ
last_status s [] = s
last_status s (status_set t ∷ deeds) = last_status t deeds
last_status s (body_written ∷ deeds) = last_status s deeds

-- The first status that is not informational, or 200 if a part of the body comes before it.
abbrev pub first_sent : List Deed → Option ℕ
first_sent [] = none
first_sent (status_set t ∷ deeds) = if informational t then first_sent deeds else some t
first_sent (body_written ∷ deeds) = some status_ok

abbrev or_later : Option ℕ → Option ℕ → Option ℕ
or_later none later = later
or_later (some s) later = some s

module _ (head : Bool) (takes : Bytes → Wire → ℕ × Option Error) where
  taken-sent : (w : Wire) (r : ℕ × Option Error) → (taken head w r).1.sent ≡ w.sent
  taken-sent w r = elim (Bool-cases head) [ inl e ↦ rw e refl | inr e ↦ rw e refl ]

  serve-status :
      (committed : Bool) (p : Program Wire) (rw' : ResponseWriter) (w : Wire)
      → IsOrderly committed p
      → IsApart p
      → Committed committed rw'.status w.sent
      → let (rw2, w2) = (serve (net_http head takes) p (rw', w)).1 in or_ok w2.sent ≡ rw2.status
  unfolding serve write_header write
  serve-status committed done rw' w o a c = or_ok-Committed committed rw'.status w.sent c
  serve-status committed panics rw' w o a c = absurd o
  serve-status true (sets s p) rw' w (n, i, o) a c = cc
  serve-status false (sets s p) rw' w (n, i, o) (v, a) (c, k) =
      serve-status true p _ _ o a (rw (c, i) refl)
  serve-status committed (writes b next) rw' w o a c =
      serve-status true (next _ _) _ _ (o _ _) (a _ _)
        (taken-sent _ _ ∙ ap some (or_ok-Committed committed rw'.status w.sent c))
  serve-status committed (acts f next) rw' w o (q, a) c =
      serve-status committed (next w) rw' (f w) (o w) (a w) (rw (q w) c)

  taken-body :
      (w : Wire) (n : ℕ) (r : ℕ × Option Error)
      → w.body ≡ (if head then 0 else n)
      → (taken head w r).1.body ≡ (if head then 0 else n + (taken head w r).0.0)
  taken-body w n r h = elim (Bool-cases head) [
    | inl e ↦ let h' : w.body ≡ 0 = rw e at h in rw e h'
    | inr e ↦ let h' : w.body ≡ n = rw e at h in rw e (ap (λ x. x + r.0) h')
  ]

  serve-body :
      (p : Program Wire) (rw' : ResponseWriter) (w : Wire)
      → IsApart p
      → w.body ≡ (if head then 0 else rw'.bytes)
      → let (rw2, w2) = (serve (net_http head takes) p (rw', w)).1 in
        w2.body ≡ (if head then 0 else rw2.bytes)
  unfolding serve write_header write
  serve-body done rw' w a e = e
  serve-body panics rw' w a e = e
  serve-body (sets s p) rw' w (v, a) e = serve-body p _ _ a e
  serve-body (writes b next) rw' w a e =
      serve-body (next _ _) _ _ (a _ _) (taken-body _ rw'.bytes _ e)
  serve-body (acts f next) rw' w (q, a) e = serve-body (next w) rw' (f w) (a w) (rw (q w) e)

  -- If a handler sets the status at most once, in front of the body, to one of three digits that is
  -- not informational, does not panic, and does nothing else to its response, then the status that the
  -- middleware reports is what net/http sent, and the size is that of the body, which is empty for
  -- HEAD, whatever parts of it net/http refuses.
  pub serve_agrees :
      (p : Program Wire)
      → IsOrderly false p
      → IsApart p
      → let (rw', w) = (serve (net_http head takes) p (new_response_writer, unsent)).1 in
        (or_ok w.sent ≡ rw'.status) × (w.body ≡ (if head then 0 else rw'.bytes))
  serve_agrees p o a = (
    serve-status false p new_response_writer unsent o a (refl, refl),
    serve-body p new_response_writer unsent a
        (elim (Bool-cases head) [ inl e ↦ rw e refl | inr e ↦ rw e refl ]),
  )

  -- What a handler does to its response when it runs from a state of it.
  unfoldable pub trail : Program Wire → Wire → List Deed
  trail done w = []
  trail panics w = []
  trail (sets s p) w = status_set s ∷ trail p ((net_http head takes).write_header s w)
  trail (writes b next) w =
      let (r, w') = (net_http head takes).write b w in
      body_written ∷ trail (next (wrap_write r).0 (wrap_write r).1) w'
  trail (acts f next) w = trail (next w) (f w)
