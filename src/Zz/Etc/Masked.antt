-- ===== src/Zz/Etc/Masked.antt =====
-- `zzAddAndW` and `zzSubAndW` with the mask `WORD_0 - flag`: the number is added or subtracted as many
-- times as the flag says.
use bee.Common.{
  ℕ, zero, suc, ◌+◌, ◌-◌, ◌*◌, ◌^◌, ◌<◌, ◌≤◌, ◌≡◌, refl, ap, ap₂, ◌∙◌, map, List, [], ◌∷◌, length,
  bit_and, arith,
}
use bee.Common.Masks.{ones-bit_and, zero-bit_and}
use bee.Zz.Value.{AreWords, value}
use bee.Zz.Add.{before, add, add2_from, add2}
use bee.Zz.Add.Laws.{StandsFor, add-StandsFor, add_variants}
use bee.Zz.Sub.{minus, sub, sub2_from, sub2}
use bee.Zz.Sub.Laws.{Differs, sub-Differs, sub_variants}
use bee.Zz.Etc.{add_and_w_from, sub_and_w_from, sub_and_w}
use native.Mathlib.Nat.{mod_self, mod-eq_of_lt}

module _ (b : ℕ) where
  add_and_w_from-eq :
      (ys xs : List ℕ) (w carry : ℕ)
      → add_and_w_from b carry ys xs w ≡ add2_from b carry ys (map (bit_and w) xs)
  unfolding add_and_w_from add2_from
  add_and_w_from-eq [] [] w carry = refl
  add_and_w_from-eq [] (x ∷ xs) w carry = refl
  add_and_w_from-eq (y ∷ ys) [] w carry = refl
  add_and_w_from-eq (y ∷ ys) (x ∷ xs) w carry = ap (before _) (add_and_w_from-eq ys xs w _)

  sub_and_w_from-eq :
      (ys xs : List ℕ) (w borrow : ℕ)
      → sub_and_w_from b borrow ys xs w ≡ sub2_from b borrow ys (map (bit_and w) xs)
  unfolding sub_and_w_from sub2_from
  sub_and_w_from-eq [] [] w borrow = refl
  sub_and_w_from-eq [] (x ∷ xs) w borrow = refl
  sub_and_w_from-eq (y ∷ ys) [] w borrow = refl
  sub_and_w_from-eq (y ∷ ys) (x ∷ xs) w borrow = ap (before _) (sub_and_w_from-eq ys xs w _)

  -- The mask that a flag makes.
  mask_zero : minus b 0 0 ≡ 0
  mask_zero = let e : 0 + (b - 0) ≡ b = omega arith in rw e (mod_self b)

  mask_one : 0 < b → minus b 0 1 + 1 ≡ b
  mask_one h =
      let e : 0 + (b - 1) ≡ b - 1 = omega arith in
      let small : b - 1 < b = omega arith in rw e (omega (arith, mod-eq_of_lt small))

  map-length : (f : ℕ → ℕ) (xs : List ℕ) → length (map f xs) ≡ length xs
  map-length f [] = refl
  map-length f (x ∷ xs) = ap suc (map-length f xs)

  -- The words under the mask of a flag.
  zeros :
      (xs : List ℕ) → 0 < b → AreWords b (map (bit_and 0) xs) × (value b (map (bit_and 0) xs) ≡ 0)
  zeros [] h = (tt, refl)
  zeros (x ∷ xs) h =
      let rest = zeros xs h in
      let z = zero-bit_and x in
      ((omega (arith, z), rest.0), omega (arith, z, ap (λ (t : ℕ). b * t) rest.1))

  kept : (j m : ℕ) (xs : List ℕ) → b ≡ 2 ^ j → m + 1 ≡ b → AreWords b xs → map (bit_and m) xs ≡ xs
  kept j m [] eb e o = refl
  kept j m (x ∷ xs) eb e o =
      ap₂ ◌∷◌ (ones-bit_and j m x (e ∙ eb) (omega (arith, eb, o.0))) (kept j m xs eb e o.1)

  pub masked :
      (j f : ℕ) (xs : List ℕ)
      → b ≡ 2 ^ j
      → 0 < b
      → f ≤ 1
      → AreWords b xs
      → let ys = map (bit_and (minus b 0 f)) xs in
        AreWords b ys × (value b ys ≡ f * value b xs) × (length ys ≡ length xs)
  masked j zero xs eb pos h o =
      let z = zeros xs pos in rw mask_zero (z.0, omega (arith, z.1), map-length (bit_and 0) xs)
  masked j (suc zero) xs eb pos h o =
      let same = kept j (minus b 0 1) xs eb (mask_one pos) o in rw same (o, omega arith, refl)
  masked j (suc (suc f)) xs eb pos h o = absurd (omega arith)

  -- A number is added under the mask of a flag.
  pub add_and_w-StandsFor :
      (j f : ℕ) (ys xs : List ℕ)
      → b ≡ 2 ^ j
      → 0 < b
      → f ≤ 1
      → AreWords b ys
      → AreWords b xs
      → length ys ≡ length xs
      → StandsFor b
          (length ys)
          (value b ys + f * value b xs)
          (add_and_w_from b 0 ys xs (minus b 0 f))
  add_and_w-StandsFor j f ys xs eb pos h oy ox e =
      let (om, em, lm) = masked j f xs eb pos h ox in
      let zs = map (bit_and (minus b 0 f)) xs in
      let le : length zs ≡ length ys = omega arith in
      let v = add-StandsFor b zs ys om oy le in
      let same : add_and_w_from b 0 ys xs (minus b 0 f) ≡ add b zs ys =
        unfold add2 in add_and_w_from-eq ys xs (minus b 0 f) 0 ∙ (add_variants b zs ys om oy).1 in
      let total : value b zs + value b ys ≡ value b ys + f * value b xs = omega (arith, em) in
      rw same (rw (le, total) at v)

  -- A number is subtracted under the mask of a flag.
  pub sub_and_w-Differs :
      (j f : ℕ) (ys xs : List ℕ)
      → b ≡ 2 ^ j
      → 1 < b
      → f ≤ 1
      → AreWords b ys
      → AreWords b xs
      → length ys ≡ length xs
      → Differs b (length ys) (value b ys) (f * value b xs) (sub_and_w b ys xs (minus b 0 f))
  sub_and_w-Differs j f ys xs eb pos h oy ox e =
      let (om, em, lm) = masked j f xs eb (omega arith) h ox in
      let zs = map (bit_and (minus b 0 f)) xs in
      let le : length ys ≡ length zs = omega arith in
      let v = sub-Differs b ys zs oy om le in
      let same : sub_and_w b ys xs (minus b 0 f) ≡ sub b ys zs =
        unfold sub_and_w sub2 in
        sub_and_w_from-eq ys xs (minus b 0 f) 0 ∙ (sub_variants b ys zs pos oy om).1 in
      rw same (rw em at v)
