-- ===== src/Shared/Pattern.antt =====
-- The character classes and counted repetitions that the regular expressions of packages/shared
-- are made of, and `split`, `slice` and `join` on strings.
use hashden.Common.{
  ℕ, ◌≡◌, refl, Bool, true, false, ◌&&◌, ◌||◌, List, [], ◌∷◌, ◌++◌, Option, none, some, leb, ◌==◌,
  if◌then◌else◌, length, all, All, arith, ap, ◌∙◌, Option-cases, inl, inr,
}
use hashden.Common.Text.{Text}

-- `[a-z]` and the like.
abbrev pub between : ℕ → ℕ → ℕ → Bool
between lo hi c = leb lo c && leb c hi

unfoldable pub is_digit : ℕ → Bool
is_digit c = between b'0' b'9' c

unfoldable pub is_lower : ℕ → Bool
is_lower c = between b'a' b'z' c

unfoldable pub is_upper : ℕ → Bool
is_upper c = between b'A' b'Z' c

-- `[0-9a-f]`
unfoldable pub is_hex : ℕ → Bool
unfolding is_digit
is_hex c = is_digit c || between b'a' b'f' c

-- `^[p]{lo,hi}$`
unfoldable pub repeats : (ℕ → Bool) → ℕ → ℕ → Text → Bool
repeats p lo hi s = between lo hi (length s) && all p s

-- The text behind a prefix.
unfoldable pub strip_prefix : Text → Text → Option Text
strip_prefix [] s = some s
strip_prefix (c ∷ p) [] = none
strip_prefix (c ∷ p) (d ∷ s) = if c == d then strip_prefix p s else none

-- `^prefix[p]{lo,hi}$`
abbrev pub prefixed : Text → (ℕ → Bool) → ℕ → ℕ → Text → Bool
prefixed prefix p lo hi s = elim (strip_prefix prefix s) [
  | none ↦ false
  | some rest ↦ repeats p lo hi rest
]

abbrev pub push_front : ℕ → List Text → List Text
push_front c [] = (c ∷ []) ∷ []
push_front c (part ∷ parts) = (c ∷ part) ∷ parts

-- `s.split(d)` for a separator of one character.
unfoldable pub split : ℕ → Text → List Text
split d [] = [] ∷ []
split d (c ∷ s) = let rest = split d s in if c == d then [] ∷ rest else push_front c rest

-- `parts.join(d)`, for at least one part.
unfoldable pub join : ℕ → Text → List Text → Text
join d part [] = part
join d part (next ∷ parts) = part ++ d ∷ join d next parts

-- No character of the text is the separator.
abbrev pub Lacks : ℕ → Text → Type 0
Lacks d = All (λ c. (c == d) ≡ false)

split_plain : (d : ℕ) (s : Text) → Lacks d s → split d s ≡ s ∷ []
unfolding split
split_plain d [] h = refl
split_plain d (c ∷ s) h = ground (arith, split_plain d s h.1)

split_part : (d : ℕ) (s t : Text) → Lacks d s → split d (s ++ d ∷ t) ≡ s ∷ split d t
unfolding split
split_part d [] t h = ground arith
split_part d (c ∷ s) t h = ground (arith, split_part d s t h.1)

-- Splitting what was joined gives the parts again.
pub split-join :
    (d : ℕ) (part : Text) (parts : List Text)
    → Lacks d part
    → All (Lacks d) parts
    → split d (join d part parts) ≡ part ∷ parts
unfolding join
split-join d part [] h k = split_plain d part h
split-join d part (next ∷ parts) h k =
    split_part d part (join d next parts) h ∙ ap (λ l. part ∷ l) (split-join d next parts k.0 k.1)

-- A class without the separator keeps it out of the text.
all-Lacks :
    (d : ℕ) (p : ℕ → Bool) (s : Text)
    → ((c : ℕ) → p c ≡ true → (c == d) ≡ false)
    → all p s ≡ true
    → Lacks d s
all-Lacks d p [] out h = tt
all-Lacks d p (c ∷ s) out h = ground (arith, out c, all-Lacks d p s out)

pub repeats-Lacks :
    (d : ℕ) (p : ℕ → Bool) (lo hi : ℕ) (s : Text)
    → ((c : ℕ) → p c ≡ true → (c == d) ≡ false)
    → repeats p lo hi s ≡ true
    → Lacks d s
unfolding repeats
repeats-Lacks d p lo hi s out h = all-Lacks d p s out (ground arith)

strip_prefix-append : (p s t : Text) → strip_prefix p s ≡ some t → s ≡ p ++ t
unfolding strip_prefix
strip_prefix-append [] s t e = ground arith
strip_prefix-append (c ∷ p) [] t e = cc
strip_prefix-append (c ∷ p) (d ∷ s) t e = ground (arith, strip_prefix-append p s t)

pub Lacks-append : (d : ℕ) (s t : Text) → Lacks d s → Lacks d t → Lacks d (s ++ t)
Lacks-append d [] t h k = k
Lacks-append d (c ∷ s) t h k = (h.0, Lacks-append d s t h.1 k)

-- A text that matches `^prefix[p]{lo,hi}$` lacks what the prefix and the class lack.
pub prefixed-Lacks :
    (d : ℕ) (prefix : Text) (p : ℕ → Bool) (lo hi : ℕ) (s : Text)
    → Lacks d prefix
    → ((c : ℕ) → p c ≡ true → (c == d) ≡ false)
    → prefixed prefix p lo hi s ≡ true
    → Lacks d s
prefixed-Lacks d prefix p lo hi s before out h = elim (Option-cases (strip_prefix prefix s)) [
  | inl e ↦ absurd (ground (arith, e))
  | inr (rest, e) ↦
      rw (strip_prefix-append prefix s rest e)
        (Lacks-append d prefix rest before (repeats-Lacks d p lo hi rest out (ground (arith, e))))
]
