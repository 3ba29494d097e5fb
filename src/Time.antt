-- ===== src/Time.antt =====
-- time.Time and time.Duration, in nanoseconds.
use gklog.Base.{ℕ, suc, ◌-◌, ◌^◌, ◌/◌, leb, if◌then◌else◌, ◌++◌}
use gklog.Base.Int.{ℤ, pos, negsuc, sub_ℕ}
use gklog.Text.{Bytes, codes}
use gklog.Text.Decimal.{decimal}

-- Time.Sub saturates at the ends of a time.Duration of 64 bits.
saturate : ℤ → ℤ
saturate (pos n) = if leb (2 ^ 63) n then pos (2 ^ 63 - 1) else pos n
saturate (negsuc n) = if leb (2 ^ 63) n then negsuc (2 ^ 63 - 1) else negsuc n

unfoldable pub sub_time : ℕ → ℕ → ℤ
unfolding saturate
sub_time a b = saturate (sub_ℕ a b)

-- Duration.Milliseconds, which rounds towards zero.
unfoldable pub milliseconds : ℤ → ℤ
milliseconds (pos n) = pos (n / 10 ^ 6)
milliseconds (negsuc n) = sub_ℕ 0 (suc n / 10 ^ 6)

-- A signed number in decimal.
unfoldable pub int_text : ℤ → Bytes
int_text (pos n) = decimal n
int_text (negsuc n) = codes "-" ++ decimal (suc n)
