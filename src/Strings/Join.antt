-- ===== src/Strings/Join.antt =====
-- `strings.Split` and `strings.Join` at a separator of one byte.
use vuln4shift_backend.Prelude.{
  ℕ, ◌≡◌, ◌≢◌, refl, true, false, List, [], ◌∷◌, ◌++◌, arith, nat_beq, if◌then◌else◌, Bool-cases,
  Str, All, inl, inr,
}

-- A byte in front of the first part.
push : ℕ → List Str → List Str
push c [] = (c ∷ []) ∷ []
push c (p ∷ ps) = (c ∷ p) ∷ ps

unfoldable pub split : ℕ → Str → List Str
unfolding push
split sep [] = [] ∷ []
split sep (c ∷ s) = let rest = split sep s in if nat_beq c sep then [] ∷ rest else push c rest

unfoldable pub join : ℕ → List Str → Str
join sep [] = []
join sep (p ∷ []) = p
join sep (p ∷ q ∷ ps) = p ++ sep ∷ join sep (q ∷ ps)

abbrev pub Lacks : ℕ → Str → Type 0
Lacks sep s = All (λ c. nat_beq c sep ≡ false) s

pub split-ne-nil : (sep : ℕ) (s : Str) → split sep s ≢ []
unfolding split
split-ne-nil sep [] e = cc
split-ne-nil sep (c ∷ s) e = ground (arith, split-ne-nil sep s)

-- No part holds the separator.
pub split-Lacks : (sep : ℕ) (s : Str) → All (Lacks sep) (split sep s)
unfolding split
split-Lacks sep [] = (tt, tt)
split-Lacks sep (c ∷ s) = elim (Bool-cases (nat_beq c sep)) [
  | inl cut ↦ rw cut (tt, split-Lacks sep s)
  | inr other ↦ rw other (push-Lacks (split sep s) other (split-Lacks sep s))
]
  where
    push-Lacks :
        (ps : List Str) → nat_beq c sep ≡ false → All (Lacks sep) ps → All (Lacks sep) (push c ps)
    push-Lacks [] e h = ((e, tt), tt)
    push-Lacks (p ∷ ps) e (h, hs) = ((e, h), hs)

-- A text with no separator is one part.
pub split_whole : (sep : ℕ) (s : Str) → Lacks sep s → split sep s ≡ s ∷ []
unfolding split
split_whole sep [] h = refl
split_whole sep (c ∷ s) (h, hs) = ground (arith, split_whole sep s hs)

pub split_at :
    (sep : ℕ) (p rest : Str) → Lacks sep p → split sep (p ++ sep ∷ rest) ≡ p ∷ split sep rest
unfolding split
split_at sep [] rest h = ground arith
split_at sep (c ∷ p) rest (h, hs) = rw (h, split_at sep p rest hs)

-- Splitting a join gives the parts back.
pub split-join :
    (sep : ℕ) (ps : List Str) → ps ≢ [] → All (Lacks sep) ps → split sep (join sep ps) ≡ ps
unfolding join
split-join sep [] h _ = absurd (h refl)
split-join sep (p ∷ []) _ (h, _) = split_whole sep p h
split-join sep (p ∷ q ∷ ps) _ (h, hs) =
    rw (split_at sep p _ h, split-join sep (q ∷ ps) (λ e. cc) hs)

join-push : (sep c : ℕ) (ps : List Str) → ps ≢ [] → join sep (push c ps) ≡ c ∷ join sep ps
unfolding join push
join-push sep c [] h = absurd (h refl)
join-push sep c (p ∷ []) h = refl
join-push sep c (p ∷ q ∷ ps) h = refl

join-nil-cons : (sep : ℕ) (ps : List Str) → ps ≢ [] → join sep ([] ∷ ps) ≡ sep ∷ join sep ps
unfolding join
join-nil-cons sep [] h = absurd (h refl)
join-nil-cons sep (q ∷ ps) h = refl

-- Joining the parts of a split gives the text back.
pub join-split : (sep : ℕ) (s : Str) → join sep (split sep s) ≡ s
join-split sep [] = unfold split join in refl
join-split sep (c ∷ s) = elim (Bool-cases (nat_beq c sep)) [
  | inl cut ↦
      ground (
        arith,
        step_cut cut,
        join-split sep s,
        join-nil-cons sep (split sep s) (split-ne-nil sep s),
      )
  | inr other ↦ ground (
    arith,
    step_other other,
    join-split sep s,
    join-push sep c (split sep s) (split-ne-nil sep s),
  )
]
  where
    step_cut : nat_beq c sep ≡ true → split sep (c ∷ s) ≡ [] ∷ split sep s
    step_cut e = unfold split in rw e

    step_other : nat_beq c sep ≡ false → split sep (c ∷ s) ≡ push c (split sep s)
    step_other e = unfold split in rw e
