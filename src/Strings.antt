-- ===== src/Strings.antt =====
-- What the program uses of Go's packages `strings`, `strconv` and `time`, over ASCII texts.
pub mod Join
pub mod Digits
pub mod Order
pub mod Print
use vuln4shift_backend.Prelude.{
  ℕ, zero, suc, ◌+◌, ◌-◌, ◌*◌, ◌%◌, Bool, true, false, not, ◌&&◌, ◌||◌, Option, none, some, List,
  [], ◌∷◌, map, ltb, leb, nat_beq, if◌then◌else◌, Str, codes, ◌==◌, str_eq,
}

abbrev pub max_u64 : ℕ
max_u64 = 18446744073709551615

unfoldable pub is_digit : ℕ → Bool
is_digit c = leb b'0' c && leb c b'9'

is_upper : ℕ → Bool
is_upper c = leb b'A' c && leb c b'Z'

is_lower : ℕ → Bool
is_lower c = leb b'a' c && leb c b'z'

unfoldable pub lower_byte : ℕ → ℕ
unfolding is_upper
lower_byte c = if is_upper c then c + 32 else c

unfoldable pub upper_byte : ℕ → ℕ
unfolding is_lower
upper_byte c = if is_lower c then c - 32 else c

-- `strings.ToLower`
unfoldable pub to_lower : Str → Str
unfolding lower_byte
to_lower = map lower_byte

-- A byte that ends a word, for `strings.Title`.
is_separator : ℕ → Bool
unfolding is_digit is_upper is_lower
is_separator c = not (is_digit c || is_upper c || is_lower c || nat_beq c b'_')

title_from : ℕ → Str → Str
title_from prev [] = []
title_from prev (c ∷ s) = (if is_separator prev then upper_byte c else c) ∷ title_from c s

-- `strings.Title`
unfoldable pub title : Str → Str
unfolding title_from is_separator upper_byte
title = title_from b' '

-- `strings.HasPrefix(s, "-")`
unfoldable pub has_dash : Str → Bool
has_dash [] = false
has_dash (c ∷ s) = nat_beq c b'-'

-- `s[1:]`
abbrev pub tail : Str → Str
tail [] = []
tail (c ∷ s) = s

-- `strconv.ParseBool`; `none` is its error.
unfoldable pub parse_bool : Str → Option Bool
parse_bool s =
    if s == codes "1" || s == codes "t" || s == codes "T"
    then some true
    else if s == codes "true" || s == codes "TRUE" || s == codes "True"
    then some true
    else if s == codes "0" || s == codes "f" || s == codes "F"
    then some false
    else if s == codes "false" || s == codes "FALSE" || s == codes "False"
    then some false
    else none

scan_digits : ℕ → Str → Option ℕ
scan_digits n [] = some n
scan_digits n (c ∷ s) =
    let rest = scan_digits (n * 10 + (c - b'0')) s in
    if is_digit c && leb (n * 10 + (c - b'0')) max_u64 then rest else none

-- `strconv.ParseUint(s, 10, 64)`; `none` is either of its errors.
unfoldable pub parse_uint64 : Str → Option ℕ
unfolding scan_digits is_digit
parse_uint64 [] = none
parse_uint64 (c ∷ s) = scan_digits 0 (c ∷ s)

-- A day at midnight in UTC, as `time.Time`.
pub record Date : Type 0 where
  pub year : ℕ
  pub month : ℕ
  pub day : ℕ

is_leap : ℕ → Bool
is_leap y = nat_beq (y % 4) 0 && (not (nat_beq (y % 100) 0) || nat_beq (y % 400) 0)

days_in : ℕ → ℕ → ℕ
unfolding is_leap
days_in month year =
    if nat_beq month 2
    then (if is_leap year then 29 else 28)
    else if nat_beq month 4 || nat_beq month 6 || nat_beq month 9 || nat_beq month 11
    then 30
    else 31

digit_pair : ℕ → ℕ → Option ℕ
digit_pair a b = if is_digit a && is_digit b then some ((a - b'0') * 10 + (b - b'0')) else none

check_date : ℕ → ℕ → ℕ → Option Date
unfolding days_in
check_date year month day =
    if leb 1 month && leb month 12 && leb 1 day && leb day (days_in month year)
    then some (record { year = year; month = month; day = day })
    else none

-- `time.Parse("2006-01-02", s)`; `none` is its error.
unfoldable pub parse_date : Str → Option Date
unfolding check_date digit_pair is_digit
parse_date (a ∷ b ∷ c ∷ d ∷ p ∷ e ∷ f ∷ q ∷ g ∷ h ∷ []) =
    if nat_beq p b'-' && nat_beq q b'-'
    then elim (digit_pair a b) [
      | none ↦ none
      | some century ↦ elim (digit_pair c d) [
        | none ↦ none
        | some year ↦ elim (digit_pair e f) [
          | none ↦ none
          | some month ↦ elim (digit_pair g h) [
            | none ↦ none
            | some day ↦ check_date (century * 100 + year) month day
          ]
        ]
      ]
    ]
    else none
parse_date _ = none
