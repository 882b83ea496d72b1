-- ===== src/Serve/Decimal.antt =====
-- Decimal numbers that are printed are parsed again.
use narshare.Base.{
  ℕ, zero, suc, ◌+◌, ◌-◌, ◌*◌, ◌/◌, ◌%◌, ◌^◌, ◌≤◌, ◌<◌, ◌≡◌, refl, ap, ◌∙◌, true, false, some, [],
  ◌∷◌, leb, ◌==◌, All, arith, Bool-cases, inl, inr, length, lt→ltb, le→leb,
}
use narshare.Base.Order.{nat_ord}
use narshare.Base.Text.{decimal_from, decimal}
use narshare.Facts.{Bytes}
use narshare.Serve.{digits, parse_u64}

abbrev pub IsNumeral : ℕ → Type 0
IsNumeral c = (b'0' ≤ c) × (c ≤ b'9')

digits-cons :
    (m d : ℕ) (cs : Bytes)
    → d < 10
    → m * 10 + d < 2 ^ 64
    → digits m ((b'0' + d) ∷ cs) ≡ digits (m * 10 + d) cs
unfolding digits
digits-cons m d cs lt fits =
    let e : m * 10 + (b'0' + d - b'0') ≡ m * 10 + d = omega arith in
    let a : leb b'0' (b'0' + d) ≡ true = le→leb _ _ (omega arith) in
    let b : leb (b'0' + d) b'9' ≡ true = le→leb _ _ (omega arith) in
    rw (e, a, b, lt→ltb _ _ fits) refl

digits-decimal_from :
    (fuel n : ℕ) (acc : Bytes)
    → n < fuel
    → n < 2 ^ 64
    → digits 0 (decimal_from fuel n acc) ≡ digits n acc
unfolding decimal_from
digits-decimal_from zero n acc lt fits = absurd (omega arith)
digits-decimal_from (suc fuel) n acc lt fits = elim (Bool-cases (n / 10 == 0)) [
  | inl last ↦
      let low : n < 10 = ground (arith, last) in
      let e : 0 * 10 + n % 10 ≡ n = omega arith in
      rw last (digits-cons 0 (n % 10) acc (omega arith) (omega arith) ∙ ap (λ x. digits x acc) e)
  | inr more ↦
      let big : 9 < n = ground (arith, more) in
      let e : n / 10 * 10 + n % 10 ≡ n = omega arith in
      rw more (
        digits-decimal_from fuel (n / 10) ((b'0' + n % 10) ∷ acc) (omega arith) (omega arith)
        ∙ digits-cons (n / 10) (n % 10) acc (omega arith) (omega arith)
        ∙ ap (λ x. digits x acc) e)
]

decimal_from-IsNumeral :
    (fuel n : ℕ) (acc : Bytes) → All IsNumeral acc → All IsNumeral (decimal_from fuel n acc)
unfolding decimal_from
decimal_from-IsNumeral zero n acc h = h
decimal_from-IsNumeral (suc fuel) n acc h = elim (Bool-cases (n / 10 == 0)) [
  | inl last ↦ rw last ((omega arith, omega arith), h)
  | inr more ↦
      rw more (
        decimal_from-IsNumeral fuel (n / 10) ((b'0' + n % 10) ∷ acc)
          ((omega arith, omega arith), h))
]

pub decimal-IsNumeral : (n : ℕ) → All IsNumeral (decimal n)
unfolding decimal
decimal-IsNumeral n = decimal_from-IsNumeral (suc n) n [] tt

-- A text of numerals that is a number is parsed without a sign.
parse_u64-numerals : (s : Bytes) (n : ℕ) → All IsNumeral s → 0 < length s → parse_u64 s ≡ digits 0 s
unfolding parse_u64
parse_u64-numerals [] n h pos = absurd (omega (arith, pos))
parse_u64-numerals (c ∷ s) n h pos =
    let plain : (c == b'+') ≡ false = ground (arith, h.0) in rw plain refl

decimal_from-pos :
    (fuel n : ℕ) (acc : Bytes) → 0 < length acc → 0 < length (decimal_from fuel n acc)
unfolding decimal_from
decimal_from-pos zero n acc h = h
decimal_from-pos (suc fuel) n acc h = elim (Bool-cases (n / 10 == 0)) [
  | inl last ↦ rw last (omega arith)
  | inr more ↦ rw more (decimal_from-pos fuel (n / 10) ((b'0' + n % 10) ∷ acc) (omega arith))
]

decimal-pos : (n : ℕ) → 0 < length (decimal n)
unfolding decimal decimal_from
decimal-pos n = elim (Bool-cases (n / 10 == 0)) [
  | inl last ↦ rw last (omega arith)
  | inr more ↦ rw more (decimal_from-pos n (n / 10) ((b'0' + n % 10) ∷ []) (omega arith))
]

-- A number below 2 ^ 64 is read back from its decimal text.
pub parse_u64-decimal : (n : ℕ) → n < 2 ^ 64 → parse_u64 (decimal n) ≡ some n
parse_u64-decimal n fits =
    parse_u64-numerals (decimal n) n (decimal-IsNumeral n) (decimal-pos n)
    ∙ unfold decimal in
      (digits-decimal_from (suc n) n [] (omega arith) fits) ∙ unfold digits in refl
