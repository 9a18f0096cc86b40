-- ===== src/Zz/Mod/Mask.antt =====
-- The mask that the regular variants collect beside the sum, and the two ways to subtract the modulus.
use bee.Common.{
  ℕ, suc, ◌+◌, ◌-◌, ◌*◌, ◌%◌, ◌^◌, ◌<◌, ◌≤◌, ◌≡◌, ◌↔◌, ◌⊎◌, inl, inr, refl, sym, ap, ◌∙◌, max, List,
  [], ◌∷◌, length, bit_or, true, false, ◌||◌, ◌!=◌, arith, if◌then◌else◌,
}
use bee.Common.BitLaws.{bit_and_flag, bit_or_flags}
use bee.Mem.Buffers.Order.{order, three_ways}
use bee.Ww.{cmp}
use bee.Ww.Compare.{ww_cmp_lem}
use bee.Zz.Value.{less01, AreWords, value, value-lt}
use bee.Zz.Add.{Result, before}
use bee.Zz.Add.Laws.{StandsFor}
use bee.Zz.Sub.{sub2}
use bee.Zz.Sub.Laws.{Differs, sub-Differs, sub_variants}
use bee.Zz.Etc.Masked.{sub_and_w-Differs}
use bee.Common.Powers.{pow_two}
use bee.Zz.Mod.{Checked, in_front, next_mask, eq01, at_least, sub_masked}
use bee.Zz.Mod.Reduce.{IsResidue, Subtracts, flag_cases, reduce}
use native.Mathlib.Nat.{mul-le-mul_right, mod-eq_of_lt}

next_mask_flag : (mask m c : ℕ) → mask ≤ 1 → next_mask mask m c ≡ max (mask * eq01 m c) (less01 m c)
unfolding next_mask
next_mask_flag mask m c h =
    let e : eq01 m c ≤ 1 = ground arith in
    let l : less01 m c ≤ 1 = ground arith in
    let digit : mask % 2 ≡ mask = omega arith in
    let prod : mask * eq01 m c ≤ 1 = ground arith in
    ap (λ t. bit_or t (less01 m c))
      (bit_and_flag mask (eq01 m c) e ∙ ap (λ (t : ℕ). t * eq01 m c) digit)
    ∙ bit_or_flags (mask * eq01 m c) (less01 m c) prod l

-- Only the lowest bit of the mask is read.
pub next_mask-low : (w m c : ℕ) → next_mask w m c ≡ next_mask (w % 2) m c
unfolding next_mask
next_mask-low w m c =
    let e : eq01 m c ≤ 1 = ground arith in
    let digit : w % 2 % 2 ≡ w % 2 = omega arith in
    ap (λ t. bit_or t (less01 m c))
      (bit_and_flag w (eq01 m c) e
        ∙ ap (λ (t : ℕ). t * eq01 m c) (sym digit)
        ∙ sym (bit_and_flag (w % 2) (eq01 m c) e))

-- The mask after all words.
unfoldable pub mask_fold : ℕ → List ℕ → List ℕ → ℕ
mask_fold mask (m ∷ ms) (c ∷ cs) = mask_fold (next_mask mask m c) ms cs
mask_fold mask _ _ = mask

-- A mask that says whether one number is not above another; without it, whether it is below.
abbrev pub Says : ℕ → ℕ → ℕ → ℕ → Type 0
Says final mask m c = (final ≤ 1) × ((final ≡ 1) ↔ (m + (1 - mask) ≤ c))

pub at_least-order :
    (u v : ℕ)
    → ((v ≤ u) × (at_least (order u v) ≡ true)) ⊎ ((u < v) × (at_least (order u v) ≡ false))
unfolding order
at_least-order u v = elim (three_ways u v) [
  | inl lt ↦ inr (lt, ground arith)
  | inr (inl eq) ↦ inl (omega arith, ground arith)
  | inr (inr gt) ↦ inl (omega arith, ground arith)
]

-- A sum beside its mask.
abbrev pub with_mask : ℕ → List ℕ → Result → Checked
with_mask mask ms r = record { words = r.words; carry = r.carry; mask = mask_fold mask ms r.words }

pub with_mask-cons :
    (mask m c : ℕ) (ms : List ℕ) (r : Result)
    → in_front c (with_mask (next_mask mask m c) ms r) ≡ with_mask mask (m ∷ ms) (before c r)
unfolding mask_fold
with_mask-cons mask m c ms r = refl

module _ (b : ℕ) where
  -- A lower word of either number.
  below_words :
      (m c vm vc k k' : ℕ)
      → m < b
      → c < b
      → k ≤ 1
      → k' ≤ 1
      → ((m + k ≤ c) → k' ≡ 0)
      → ((c < m + k) → k' ≡ 1)
      → (vm + k' ≤ vc) ↔ (m + b * vm + k ≤ c + b * vc)
  below_words m c vm vc k k' hm hc hk hk' low high = elim (three_ways vm vc) [
    | inl lt ↦ let far = mul-le-mul_right b lt in (λ h. omega (arith, far), λ h. omega arith)
    | inr (inl eq) ↦
        let same = ap (λ (t : ℕ). b * t) eq in
        elim (three_ways (m + k) (suc c)) [
          | inl fits ↦
              let z = low (omega arith) in (λ h. omega (arith, same), λ h. omega (arith, z))
          | inr (inl over) ↦
              let z = high (omega arith) in
              (λ h. absurd (omega (arith, z)), λ h. absurd (omega (arith, same)))
          | inr (inr over) ↦
              let z = high (omega arith) in
              (λ h. absurd (omega (arith, z)), λ h. absurd (omega (arith, same)))
        ]
    | inr (inr gt) ↦
        let far = mul-le-mul_right b gt in
        (λ h. absurd (omega arith), λ h. absurd (omega (arith, far)))
  ]

  say_step :
      (final mask m c vm vc : ℕ)
      → mask ≤ 1
      → m < b
      → c < b
      → Says final (next_mask mask m c) vm vc
      → Says final mask (m + b * vm) (c + b * vc)
  say_step final mask m c vm vc h hm hc says =
      let e = next_mask_flag mask m c h in
      let next : next_mask mask m c ≤ 1 = ground (arith, e) in
      let step =
        below_words m c vm vc (1 - mask) (1 - next_mask mask m c) hm hc (omega arith) (omega arith)
          (λ g. ground (arith, e, g)) (λ g. ground (arith, e, g)) in
      (says.0, (λ f. step.0 (says.1.0 f), λ g. says.1.1 (step.1 g)))

  pub mask_fold-Says :
      (mask : ℕ) (ms cs : List ℕ)
      → mask ≤ 1
      → AreWords b ms
      → AreWords b cs
      → length ms ≡ length cs
      → Says (mask_fold mask ms cs) mask (value b ms) (value b cs)
  unfolding mask_fold
  mask_fold-Says mask [] [] h om oc e = (h, (λ f. omega arith, λ g. omega arith))
  mask_fold-Says mask [] (c ∷ cs) h om oc e = absurd (omega arith)
  mask_fold-Says mask (m ∷ ms) [] h om oc e = absurd (omega arith)
  mask_fold-Says mask (m ∷ ms) (c ∷ cs) h om oc e =
      let next : next_mask mask m c ≤ 1 = ground (arith, next_mask_flag mask m c h) in
      say_step _ mask m c (value b ms) (value b cs) h om.0 oc.0
        (mask_fold-Says (next_mask mask m c) ms cs next om.1 oc.1 (omega arith))

  -- The modulus is subtracted under the mask.
  pub sub_masked-IsResidue :
      (j n s : ℕ) (ms : List ℕ) (r : Checked)
      → b ≡ 2 ^ j
      → 1 < b
      → StandsFor b n s (record { words = r.words; carry = r.carry })
      → Says r.mask 1 (value b ms) (value b r.words)
      → AreWords b ms
      → length ms ≡ n
      → s < value b ms + value b ms
      → IsResidue b n s ms (sub_masked b r ms)
  unfolding sub_masked
  sub_masked-IsResidue j n s ms r eb pos v says om e small =
      let f = bit_or r.mask r.carry in
      let flag : f ≡ max r.mask r.carry = bit_or_flags r.mask r.carry says.0 v.flag in
      let fine : f ≤ 1 = omega (arith, flag, says.0, v.flag) in
      let size : length r.words ≡ length ms = omega (arith, v.size) in
      let d = sub_and_w-Differs b j f r.words ms eb pos fine v.are_words om size in
      let room : value b ms < b ^ n = rw e at (value-lt b ms om) in
      reduce b n s f ms (record { words = r.words; carry = r.carry }) _ v (rw v.size at d) room
        small (subtracts r.mask r.carry f (value b ms) (value b r.words) says.0 v.flag says.1 flag)
    where
      subtracts :
          (mask carry f m c : ℕ)
          → mask ≤ 1
          → carry ≤ 1
          → (mask ≡ 1) ↔ (m + (1 - 1) ≤ c)
          → f ≡ max mask carry
          → Subtracts f carry m c
      subtracts mask carry f m c hm hc iff e = elim (flag_cases carry hc) [
        | inr full ↦ inl (omega arith, inl full)
        | inl empty ↦ elim (flag_cases mask hm) [
          | inr one ↦ let le = iff.0 one in inl (omega arith, inr (empty, omega (arith, le)))
          | inl none ↦ inr (omega arith, empty, ground (arith, iff, none))
        ]
      ]

  -- A result that is below the modulus stands as it is.
  pub kept-IsResidue :
      (n s : ℕ) (ms : List ℕ) (r : Result)
      → StandsFor b n s r
      → r.carry ≡ 0
      → value b r.words < value b ms
      → IsResidue b n s ms r.words
  kept-IsResidue n s ms r v none under =
      let scaled = ap (λ (t : ℕ). b ^ n * t) none in
      let same : s ≡ value b r.words = omega (arith, scaled, v.total) in
      record {
        are_words = v.are_words;
        size = v.size;
        residue = rw same (sym (mod-eq_of_lt under));
      }

  -- The modulus is subtracted from a sum that is not below it.
  pub taken-IsResidue :
      (n s : ℕ) (ms : List ℕ) (r : Result)
      → 1 < b
      → StandsFor b n s r
      → AreWords b ms
      → length ms ≡ n
      → s < value b ms + value b ms
      → (r.carry ≡ 1) ⊎ ((r.carry ≡ 0) × (value b ms ≤ value b r.words))
      → IsResidue b n s ms (sub2 b r.words ms).words
  taken-IsResidue n s ms r pos v om e small over =
      let size : length r.words ≡ length ms = omega (arith, v.size) in
      let d = sub-Differs b r.words ms v.are_words om size in
      let once : value b ms ≡ 1 * value b ms = omega arith in
      let room : value b ms < b ^ n = rw e at (value-lt b ms om) in
      let d' : Differs b n (value b r.words) (1 * value b ms) (sub2 b r.words ms) =
        rw (sub_variants b r.words ms pos v.are_words om).1 (rw (v.size, once) at d) in
      reduce b n s 1 ms r (sub2 b r.words ms) v d' room small (inl (refl, over))

  -- The modulus is subtracted behind the test.
  pub sub_tested-IsResidue :
      (n s : ℕ) (ms : List ℕ) (r : Result)
      → b % 2 ≡ 0
      → 1 < b
      → StandsFor b n s r
      → AreWords b ms
      → length ms ≡ n
      → s < value b ms + value b ms
      → IsResidue b n s ms (
          if r.carry != 0 || at_least (cmp b r.words ms)
          then (sub2 b r.words ms).words
          else r.words)
  sub_tested-IsResidue n s ms r even pos v om e small =
      let size : length r.words ≡ length ms = omega (arith, v.size) in
      let o = (ww_cmp_lem b r.words ms even v.are_words om size).0 in
      elim (flag_cases r.carry v.flag) [
        | inr full ↦
            let t : (r.carry != 0) ≡ true = ground (arith, full) in
            rw t (taken-IsResidue n s ms r pos v om e small (inl full))
        | inl empty ↦
            let t : (r.carry != 0) ≡ false = ground (arith, empty) in
            rw (t, o)
              (elim (at_least-order (value b r.words) (value b ms)) [
                | inl (over, test) ↦
                    rw test (taken-IsResidue n s ms r pos v om e small (inr (empty, over)))
                | inr (under, test) ↦ rw test (kept-IsResidue n s ms r v empty under)
              ])
      ]

  -- Both ways to reduce a sum below twice the modulus.
  pub reduced :
      (j n s : ℕ) (ms : List ℕ) (r : Result)
      → b ≡ 2 ^ suc j
      → StandsFor b n s r
      → AreWords b ms
      → length ms ≡ n
      → s < value b ms + value b ms
      → IsResidue b n s ms (sub_masked b (with_mask 1 ms r) ms)
        × IsResidue b n s ms (
            if r.carry != 0 || at_least (cmp b r.words ms)
            then (sub2 b r.words ms).words
            else r.words)
  reduced j n s ms r eb v om e small =
      let word = pow_two j in
      let pos : 1 < b = omega (arith, eb, word) in
      let even : b % 2 ≡ 0 = rw (← eb) at word.0 in
      let says =
        mask_fold-Says 1 ms r.words (omega arith) om v.are_words (omega (arith, e, v.size)) in
      (
        sub_masked-IsResidue (suc j) n s ms (with_mask 1 ms r) eb pos v says om e small,
        sub_tested-IsResidue n s ms r even pos v om e small,
      )
