-- ===== src/EmailLog.antt =====
-- emaillog/handler.go: records at or above a threshold are emailed, with a cooldown per message. The
-- map of last times is shared by all clones of a handler, so it is a part of the world, beside what
-- the sender and the clock are.
pub mod Cooldown
pub mod Spacing
pub mod Overlap
use gklog.Base.{
  ℕ, zero, suc, ◌+◌, ◌-◌, ◌^◌, List, [], ◌∷◌, ◌++◌, Option, none, some, Bool, true, false, not,
  if◌then◌else◌, is_empty, length, replicate, map, ltb, leb, ◌≡◌, refl, ◌&&◌, ◌==◌,
}
use gklog.Clock.{Clock, or_system}
use gklog.Time.{sub_time}
use gklog.Base.Int.{ℤ, pos, negsuc, sub_ℕ, ltb_ℤ, leb_ℤ}
use gklog.Text.{Bytes, codes, same}
use gklog.Text.Trim.{trim_space}
use gklog.Text.Case.{upper_byte}
use gklog.Errors.{Error, send_error}
use gklog.Slog.{Attr, Record, level_string, value_string}
use gklog.Ctx.{Ctx}

pub record Handler : Type 0 where
  pub subject_prefix : Bytes
  pub threshold : ℤ
  pub cooldown : ℤ
  pub to : Bytes
  pub attrs : List Attr
  pub group : Bytes

unfoldable pub new_handler : ℤ → ℤ → Bytes → Bytes → Handler
new_handler threshold cooldown to subject_prefix = record {
  subject_prefix = subject_prefix;
  threshold = threshold;
  cooldown = cooldown;
  to = to;
  attrs = [];
  group = [];
}

unfoldable pub enabled : Handler → Ctx → ℤ → Bool
enabled h ctx level = leb_ℤ h.threshold level

unfoldable pub with_attrs : Handler → List Attr → Handler
with_attrs h attrs = record h { attrs = h.attrs ++ attrs }

unfoldable pub with_group : Handler → Bytes → Handler
with_group h name =
    if is_empty name
    then h
    else if is_empty h.group
    then record h { group = name }
    else record h { group = h.group ++ (codes "." ++ name) }

-- lastSent
abbrev pub Times : Type 0
Times = List (Bytes × ℕ)

unfoldable pub last_sent : Times → Bytes → Option ℕ
last_sent [] message = none
last_sent ((m, t) ∷ times) message = if same m message then some t else last_sent times message

unfoldable pub note_sent : Times → Bytes → ℕ → Times
note_sent [] message t = (message, t) ∷ []
note_sent ((m, u) ∷ times) message t =
    if same m message then (m, t) ∷ times else (m, u) ∷ note_sent times message t

-- An email as it is given to Send.
pub record Email : Type 0 where
  pub to : Bytes
  pub subject : Bytes
  pub body : Bytes

-- Whether a byte follows in UTF-8, and within which bounds.
abbrev within : (low high c : ℕ) → Bool
within low high c = leb low c && leb c high

abbrev second_fits : (c d : ℕ) → Bool
second_fits c d =
    if c == 0xE0
    then within 0xA0 0xBF d
    else if c == 0xED
    then within 0x80 0x9F d
    else if c == 0xF0
    then within 0x90 0xBF d
    else if c == 0xF4
    then within 0x80 0x8F d
    else within 0x80 0xBF d

abbrev followers_of_two : (c d : ℕ) → ℕ
followers_of_two c d = if within 0xC2 0xDF c && second_fits c d then 1 else 0

abbrev followers_of_three : (c d e : ℕ) → ℕ
followers_of_three c d e =
    if within 0xE0 0xEF c && (second_fits c d && within 0x80 0xBF e)
    then 2
    else followers_of_two c d

-- How many bytes follow the first one of a text in its rune; a byte that starts no rune is one of its
-- own.
abbrev followers : Bytes → ℕ
followers (c ∷ d ∷ e ∷ f ∷ s) =
    if within 0xF0 0xF4 c && (second_fits c d && (within 0x80 0xBF e && within 0x80 0xBF f))
    then 3
    else followers_of_three c d e
followers (c ∷ d ∷ e ∷ []) = followers_of_three c d e
followers (c ∷ d ∷ []) = followers_of_two c d
followers (c ∷ []) = 0
followers [] = 0

-- `%-12s`: spaces fill the key up to 12 runes; the number says how many bytes still belong to the
-- last one.
pub runes_behind : ℕ → Bytes → ℕ
runes_behind k [] = 0
runes_behind (suc k) (c ∷ s) = runes_behind k s
runes_behind zero (c ∷ s) = suc (runes_behind (followers (c ∷ s)) s)

abbrev runes : Bytes → ℕ
runes s = runes_behind 0 s

runes_run : runes (0xC3 ∷ 0xA9 ∷ 0x80 ∷ 0xE2 ∷ 0x82 ∷ b'a' ∷ []) ≡ 5
unfolding runes_behind
runes_run = refl

abbrev pad : Bytes → Bytes
pad key = key ++ replicate (12 - runes key) b' '

-- writeAttr
unfoldable pub attr_line : Bytes → Bytes → Bytes
unfolding runes_behind
attr_line key value = codes "  " ++ (pad key ++ (codes "  " ++ (value ++ 10 ∷ [])))

attr_lines : List Attr → Bytes
attr_lines [] = []
attr_lines (a ∷ attrs) = attr_line a.key (value_string a.value) ++ attr_lines attrs

-- The level is in ASCII, so ToUpper maps its bytes.
level_upper : Record → Bytes
level_upper r = map upper_byte (level_string r.level)

unfoldable pub subject_of : Handler → Record → Bytes
unfolding level_upper
subject_of h r =
    let prefix = trim_space h.subject_prefix in
    let line = level_upper r ++ (codes ": " ++ r.message) in
    if is_empty prefix then line else prefix ++ (codes " " ++ line)

-- `rfc3339` is Time.Format with that layout, which depends on the time's zone.
unfoldable pub body_of : (ℕ → Bytes) → Handler → Record → Bytes
unfolding attr_line attr_lines level_upper
body_of rfc3339 h r =
    r.message
    ++ (codes "\n"
        ++ (attr_lines h.attrs
            ++ (attr_lines r.attrs
                ++ (attr_line (codes "time") (rfc3339 r.time)
                    ++ attr_line (codes "level") (level_upper r)))))

wrap_send : {W : Type 0} → Option Error × W → Option Error × W
wrap_send (none, w) = (none, w)
wrap_send (some e, w) = (some (send_error e), w)

-- `ok && now.Sub(last) < h.cooldown`
unfoldable pub suppressed : Option ℕ → ℕ → ℤ → Bool
suppressed none now cooldown = false
suppressed (some last) now cooldown = ltb_ℤ (sub_time now last) cooldown

abbrev pub email_of : (ℕ → Bytes) → Handler → Record → Email
email_of rfc3339 h r = record { to = h.to; subject = subject_of h r; body = body_of rfc3339 h r }

-- Handler.now: the clock of a zero Handler is nil.
abbrev now_of : {W : Type 0} → (time_now : W → ℕ × W) → Option (Clock W) → W → ℕ × W
now_of time_now clock = (or_system time_now clock).now

-- The clock and the sender, which read and change the world.
pub record Env (W : Type 0) : Type 0 where
  pub now : W → ℕ × W
  pub send : Ctx → Email → W → Option Error × W
  pub rfc3339 : ℕ → Bytes

module _ {W : Type 0} (env : Env W) where
  -- Handle up to its last Unlock, with the mutex held: whether the record is due, with the time noted
  -- if it is.
  unfoldable pub admit : Handler → Record → Times × W → Bool × (Times × W)
  admit h r (times, w) =
      if ltb_ℤ r.level h.threshold
      then (false, (times, w))
      else (let (now, w') = env.now w in
          if suppressed (last_sent times r.message) now h.cooldown
          then (false, (times, w'))
          else (true, (note_sent times r.message now, w')))

  -- What follows the Unlock.
  unfoldable pub deliver : Handler → Ctx → Record → W → Option Error × W
  unfolding wrap_send
  deliver h ctx r w = wrap_send (env.send ctx (email_of env.rfc3339 h r) w)

  unfoldable pub after_admit :
      Handler → Ctx → Record → Bool × (Times × W) → Option Error × (Times × W)
  unfolding deliver
  after_admit h ctx r (true, (times, w)) = let (e, w') = deliver h ctx r w in (e, (times, w'))
  after_admit h ctx r (false, (times, w)) = (none, (times, w))

  unfoldable pub handle : Handler → Ctx → Record → Times × W → Option Error × (Times × W)
  unfolding admit after_admit
  handle h ctx r (times, w) = after_admit h ctx r (admit h r (times, w))
