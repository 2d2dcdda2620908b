-- ===== src/Strings/Print.antt =====
-- `%d` of `fmt.Sprintf` on a natural number.
use vuln4shift_backend.Prelude.{ℕ, zero, suc, ◌+◌, ◌/◌, ◌%◌, [], ◌∷◌, ltb, if◌then◌else◌, Str}

-- The digits before those of `rest`; a number has fewer digits than its value and one.
decimal_before : ℕ → ℕ → Str → Str
decimal_before zero n rest = rest
decimal_before (suc fuel) n rest =
    let longer = decimal_before fuel (n / 10) ((b'0' + n % 10) ∷ rest) in
    if ltb n 10 then (b'0' + n) ∷ rest else longer

unfoldable pub decimal : ℕ → Str
unfolding decimal_before
decimal n = decimal_before (suc n) n []
