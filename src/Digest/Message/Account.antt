-- ===== src/Digest/Message/Account.antt =====
-- Account numbers are read from JSON strings and from JSON numbers alike.
use vuln4shift_backend.Prelude.{
  ◌≡◌, ◌≢◌, refl, ap, true, false, some, [], ◌∷◌, ◌++◌, if◌then◌else◌, arith, Str, codes, ◌==◌,
  str_eq, str_beq, str_beq_iff, ℕ,
}
use vuln4shift_backend.Strings.Join.{Lacks}
use vuln4shift_backend.Digest.Message.{starts_quoted, ends_quoted, but_last, unmarshal_account}

-- A text in double quotes.
abbrev pub quoted : Str → Str
quoted s = b'"' ∷ (s ++ b'"' ∷ [])

but_last-snoc : (s : Str) (c : ℕ) → but_last (s ++ c ∷ []) ≡ s
unfolding but_last
but_last-snoc [] c = refl
but_last-snoc (a ∷ []) c = refl
but_last-snoc (a ∷ b ∷ s) c = ap (λ (t : Str). a ∷ t) (but_last-snoc (b ∷ s) c)

ends_quoted-snoc : (s : Str) (a : ℕ) → ends_quoted (a ∷ (s ++ b'"' ∷ [])) ≡ true
unfolding ends_quoted
ends_quoted-snoc [] a = refl
ends_quoted-snoc (b ∷ s) a = ends_quoted-snoc s b

quoted-eq : (s t : Str) → (quoted s == quoted t) ≡ (s == t)
unfolding str_beq
quoted-eq s t = append-eq s t
  where
    append-eq : (s t : Str) → ((s ++ b'"' ∷ []) == (t ++ b'"' ∷ [])) ≡ (s == t)
    append-eq [] [] = refl
    append-eq [] (b ∷ []) = ground arith
    append-eq [] (b ∷ c ∷ t) = ground arith
    append-eq (a ∷ []) [] = ground arith
    append-eq (a ∷ c ∷ s) [] = ground arith
    append-eq (a ∷ s) (b ∷ t) = ground (arith, append-eq s t)

quoted-ne-null : (s : Str) → (quoted s == codes "null") ≡ false
unfolding str_beq
quoted-ne-null s = refl

-- A JSON string is read without its quotes, and the text null as the empty account.
pub unmarshal_account-quoted :
    (s : Str) → unmarshal_account (quoted s) ≡ some (if s == codes "null" then [] else s)
unfolding unmarshal_account starts_quoted
unmarshal_account-quoted s = ground (
  arith,
  quoted-ne-null s,
  quoted-eq s (codes "null"),
  ends_quoted-snoc s b'"',
  but_last-snoc s b'"',
)

ends_quoted-Lacks : (c : ℕ) (s : Str) → Lacks b'"' (c ∷ s) → ends_quoted (c ∷ s) ≡ false
unfolding ends_quoted
ends_quoted-Lacks c [] (h, hs) = h
ends_quoted-Lacks c (d ∷ s) (h, hs) = ends_quoted-Lacks d s hs

-- A JSON number, or any value with no quote but null, is read as it stands.
pub unmarshal_account-plain :
    (c : ℕ) (s : Str)
    → Lacks b'"' (c ∷ s)
    → c ∷ s ≢ codes "null"
    → unmarshal_account (c ∷ s) ≡ some (c ∷ s)
unfolding unmarshal_account starts_quoted
unmarshal_account-plain c s h n = ground (
  arith,
  ends_quoted-Lacks c s h,
  h.0,
  str_beq_iff (c ∷ s) (codes "null"),
  str_beq_iff (c ∷ s) (codes "\"null\""),
  not_quoted,
)
  where
    not_quoted : c ∷ s ≡ codes "\"null\"" → ⊥
    not_quoted e = ground (arith, h.0)
