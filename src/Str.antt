-- ===== src/Str.antt =====
-- Strings, src/core/str.c, as the codes of their characters without the zero at the end: the tests of
-- their characters, of a prefix and of a suffix.
use bee.Common.{
  ℕ, ◌-◌, ◌≤◌, ◌≡◌, ◌↔◌, refl, sym, ap, ap₂, ◌∙◌, Bool, true, false, ◌&&◌, ◌||◌, List, [], ◌∷◌,
  ◌++◌, length, length-append, take, drop, drop-append_all, take-append-drop, append-nil, eq_nil,
  length-drop, arith, ltb, ◌!=◌, if◌then◌else◌,
}

pub is_numeric : List ℕ → Bool
is_numeric [] = true
is_numeric (c ∷ str) = let rest = is_numeric str in if ltb c 48 || ltb 57 c then false else rest

pub is_alphanumeric : List ℕ → Bool
is_alphanumeric [] = true
is_alphanumeric (c ∷ str) =
    let rest = is_alphanumeric str in
    if (ltb c 48 || ltb 57 c) && ((ltb c 65 || ltb 90 c) && (ltb c 97 || ltb 122 c))
    then false
    else rest

-- The zero at the end of the string differs from every character of the prefix.
pub starts_with : List ℕ → List ℕ → Bool
starts_with str [] = true
starts_with [] (p ∷ prefix) = false
starts_with (c ∷ str) (p ∷ prefix) =
    let rest = starts_with str prefix in if c != p then false else rest

pub ends_with : List ℕ → List ℕ → Bool
ends_with str suffix =
    let tail = starts_with (drop (length str - length suffix) str) suffix in
    if ltb (length str) (length suffix) then false else tail

-- Every numeric string is alphanumeric.
pub is_alphanumeric_numeric : (str : List ℕ) → is_numeric str ≡ true → is_alphanumeric str ≡ true
unfolding is_numeric is_alphanumeric
is_alphanumeric_numeric [] h = refl
is_alphanumeric_numeric (c ∷ str) h = ground (arith, is_alphanumeric_numeric str)

-- `strStartsWith` answers whether the string is the prefix and something behind it.
pub starts_with_iff :
    (str prefix : List ℕ)
    → (starts_with str prefix ≡ true) ↔ ((rest : List ℕ) × (str ≡ prefix ++ rest))
unfolding starts_with
starts_with_iff str [] = (λ h. (str, refl), λ h. refl)
starts_with_iff [] (p ∷ prefix) =
    (λ h. absurd (ground (arith, h)), λ h. absurd (ground (arith, h.1)))
starts_with_iff (c ∷ str) (p ∷ prefix) =
    let same = starts_with_iff str prefix in
    (
      λ h.
          let c' : c ≡ p = ground (arith, h) in
          let found = same.0 (ground (arith, h)) in (found.0, ap₂ ◌∷◌ c' found.1),
      λ h. ground (arith, h.1, same.1),
    )

-- `strEndsWith` answers whether the string is something and the suffix behind it.
pub ends_with_iff :
    (str suffix : List ℕ)
    → (ends_with str suffix ≡ true) ↔ ((front : List ℕ) × (str ≡ front ++ suffix))
unfolding ends_with
ends_with_iff str suffix =
    let k = length str - length suffix in
    (
      λ h.
          let long : ltb (length str) (length suffix) ≡ false = ground (arith, h) in
          let found = (starts_with_iff (drop k str) suffix).0 (rw long at h) in
          let none_left = eq_nil found.0 (
            omega (
              arith,
              ap length found.1,
              length-append suffix found.0,
              length-drop k str,
              long_enough long,
            )) in
          (
            take k str,
            sym (take-append-drop k str)
                ∙ ap (λ t. take k str ++ t)
                    (found.1 ∙ ap (λ t. suffix ++ t) none_left ∙ append-nil suffix),
          ),
      λ h.
          let size = ap length h.1 ∙ length-append h.0 suffix in
          let long : ltb (length str) (length suffix) ≡ false = ground (arith, size) in
          let tail : drop k str ≡ suffix ++ [] =
            ap (drop k) h.1
            ∙ drop-append_all k h.0 suffix (omega (arith, size))
            ∙ sym (append-nil suffix) in
          rw long ((starts_with_iff (drop k str) suffix).1 ([], tail)),
    )
  where
    long_enough : ltb (length str) (length suffix) ≡ false → length suffix ≤ length str
    long_enough h = ground (arith, h)
