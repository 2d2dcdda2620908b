-- ===== src/Strings/Digits.antt =====
-- `parse_uint64`: its results fit in 64 bits.
use vuln4shift_backend.Prelude.{ℕ, ◌+◌, ◌-◌, ◌*◌, ◌≤◌, ◌≡◌, some, [], ◌∷◌, arith, Str}
use vuln4shift_backend.Strings.{max_u64, scan_digits, parse_uint64}

scan_digits-le : (n : ℕ) (s : Str) (r : ℕ) → n ≤ max_u64 → scan_digits n s ≡ some r → r ≤ max_u64
unfolding scan_digits
scan_digits-le n [] r h e = ground arith
scan_digits-le n (c ∷ s) r h e = ground (arith, scan_digits-le (n * 10 + (c - b'0')) s r)

pub parse_uint64-le : (s : Str) {r : ℕ} → parse_uint64 s ≡ some r → r ≤ max_u64
unfolding parse_uint64
parse_uint64-le [] e = cc
parse_uint64-le (c ∷ s) e = scan_digits-le 0 (c ∷ s) _ (omega arith) e
