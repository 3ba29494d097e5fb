-- ===== src/Text/Decimal.antt =====
-- strconv.Itoa on a number that is not negative.
use gklog.Base.{ℕ, zero, suc, ◌+◌, ◌/◌, ◌%◌, ltb, [], ◌∷◌, if◌then◌else◌}
use gklog.Text.{Bytes}

-- Decimal digits, most significant first, with the fuel `n + 1`: each round divides by ten.
digits_of : ℕ → ℕ → Bytes → Bytes
digits_of zero n out = out
digits_of (suc fuel) n out =
    let more = digits_of fuel (n / 10) ((b'0' + n % 10) ∷ out) in
    if ltb n 10 then (b'0' + n) ∷ out else more

unfoldable pub decimal : ℕ → Bytes
unfolding digits_of
decimal n = digits_of (suc n) n []
