-- ===== src/Nixbase32/Bits.antt =====
-- nixbase32.rs: the five bits of a digit in the two bytes that they come from.
use narshare.Base.{
  ℕ, zero, suc, ◌+◌, ◌-◌, ◌*◌, ◌/◌, ◌%◌, ◌^◌, ◌≤◌, ◌<◌, ◌≡◌, ◌≢◌, arith, inl, inr, low_or_high,
}

-- Five bits of two neighbours, and the parts of them that go back to each.
abbrev pub bits : ℕ → ℕ → ℕ → ℕ
bits j b c = (b / 2 ^ j + c * 2 ^ (8 - j)) % 32

-- What is left of a byte whose bits below a position are still to come.
abbrev pub Byte : ℕ → ℕ → ℕ → ℕ → Type 0
Byte p k b o =
    (8 * k + 8 ≤ p → o ≡ 0)
    × ((m : ℕ) → p ≡ 8 * k + m → m < 8 → o ≡ b - b % 2 ^ m)
    × (p < 8 * k → o ≡ b)

abbrev pub IsPut : ℕ → ℕ → ℕ → Type 0
IsPut j b c =
    ((j < 3 → b - b % 2 ^ (j + 5) + bits j b c * 2 ^ j % 256 ≡ b - b % 2 ^ j)
      × (2 < j → bits j b c * 2 ^ j % 256 ≡ b - b % 2 ^ j))
    × ((j < 3 → c + bits j b c * 2 ^ j / 256 ≡ c)
        × (2 < j → c - c % 2 ^ (j - 3) + bits j b c * 2 ^ j / 256 ≡ c))

pub put_lem : (j b c : ℕ) → j < 8 → b < 256 → c < 256 → IsPut j b c
put_lem zero b c lt h k =
    (((λ l. omega arith), λ g. omega arith), ((λ l. omega arith), λ g. omega arith))
put_lem (suc zero) b c lt h k =
    (((λ l. omega arith), λ g. omega arith), ((λ l. omega arith), λ g. omega arith))
put_lem (suc (suc zero)) b c lt h k =
    (((λ l. omega arith), λ g. omega arith), ((λ l. omega arith), λ g. omega arith))
put_lem (suc (suc (suc zero))) b c lt h k =
    (((λ l. omega arith), λ g. omega arith), ((λ l. omega arith), λ g. omega arith))
put_lem (suc (suc (suc (suc zero)))) b c lt h k =
    (((λ l. omega arith), λ g. omega arith), ((λ l. omega arith), λ g. omega arith))
put_lem (suc (suc (suc (suc (suc zero))))) b c lt h k =
    (((λ l. omega arith), λ g. omega arith), ((λ l. omega arith), λ g. omega arith))
put_lem (suc (suc (suc (suc (suc (suc zero)))))) b c lt h k =
    (((λ l. omega arith), λ g. omega arith), ((λ l. omega arith), λ g. omega arith))
put_lem (suc (suc (suc (suc (suc (suc (suc zero))))))) b c lt h k =
    (((λ l. omega arith), λ g. omega arith), ((λ l. omega arith), λ g. omega arith))
put_lem (suc (suc (suc (suc (suc (suc (suc (suc j)))))))) b c lt h k = absurd (omega arith)

pub low-Byte :
    (p i j b c o : ℕ)
    → p ≡ 8 * i + j
    → j < 8
    → IsPut j b c
    → Byte (p + 5) i b o
    → Byte p i b (o + bits j b c * 2 ^ j % 256)
low-Byte p i j b c o e lt put byte = (
  λ le. absurd (omega (arith, e)),
  (λ m f lt2.
      let g : m ≡ j = omega (arith, e) in
      rw g (elim (low_or_high 3 j) [
        | inl high ↦ rw (byte.0 (omega (arith, e))) (omega (arith, put.0.1 (omega arith)))
        | inr low ↦ rw (byte.1 (j + 5) (omega (arith, e)) (omega arith)) (put.0.0 low)
      ])),
  λ less. absurd (omega (arith, e)),
)

pub high-Byte :
    (p i j b c o : ℕ)
    → p ≡ 8 * i + j
    → j < 8
    → IsPut j b c
    → Byte (p + 5) (i + 1) c o
    → Byte p (i + 1) c (o + bits j b c * 2 ^ j / 256)
high-Byte p i j b c o e lt put byte = (
  λ le. absurd (omega (arith, e)),
  (λ m f lt2. absurd (omega (arith, e))),
  λ less. elim (low_or_high 3 j) [
    | inl high ↦ rw (byte.1 (j - 3) (omega (arith, e)) (omega arith)) (put.1.1 (omega arith))
    | inr low ↦ rw (byte.2 (omega (arith, e))) (put.1.0 low)
  ],
)

pub other-Byte :
    (p i j k b o : ℕ)
    → p ≡ 8 * i + j
    → j < 8
    → k ≢ i
    → k ≢ i + 1
    → Byte (p + 5) k b o
    → Byte p k b o
other-Byte p i j k b o e lt ne ne1 byte = (
  λ le. byte.0 (omega arith),
  (λ m f lt2. absurd (omega (arith, e, ne, ne1))),
  λ less. byte.2 (omega (arith, e, ne, ne1)),
)
