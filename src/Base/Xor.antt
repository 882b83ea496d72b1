-- ===== src/Base/Xor.antt =====
-- Exclusive or of natural numbers: the group laws, from the recursion on binary digits.
use Prim.Native.Nat.{bit_xor, digits, differ, bit_xor-bitwise}
use Prim.Native.Nat.{ℕ, zero, suc, ◌+◌, ◌*◌, ◌/◌, ◌%◌, ◌≤◌, ◌<◌}
use mathlib.Core.Path.{◌≡◌, refl, sym, ap, ◌∙◌}
use native.Mathlib.Omega.{arith}

abbrev xor_digits : ℕ → ℕ → ℕ → ℕ
xor_digits fuel a b = digits (λ c. c) differ fuel a b

-- Any fuel that covers the first number gives the same digits.
more_fuel : (n m a b : ℕ) → a ≤ n → a ≤ m → xor_digits n a b ≡ xor_digits m a b
more_fuel zero zero a b p q = refl
more_fuel zero (suc m) zero b p q = refl
more_fuel zero (suc m) (suc a) b p q = absurd (omega arith)
more_fuel (suc n) zero zero b p q = refl
more_fuel (suc n) zero (suc a) b p q = absurd (omega arith)
more_fuel (suc n) (suc m) zero b p q = refl
more_fuel (suc n) (suc m) (suc a) b p q =
    omega (arith, more_fuel n m (suc a / 2) (b / 2) (omega arith) (omega arith))

zero-bit_xor : (b : ℕ) → bit_xor 0 b ≡ b
zero-bit_xor b = bit_xor-bitwise 0 b

differ_digits : (x y : ℕ) → x < 2 → y < 2 → differ x y ≡ (x + y) % 2
differ_digits zero y p q = omega arith
differ_digits (suc zero) zero p q = refl
differ_digits (suc zero) (suc zero) p q = refl
differ_digits (suc zero) (suc (suc y)) p q = absurd (omega arith)
differ_digits (suc (suc x)) y p q = absurd (omega arith)

-- The lowest digit, and the rest.
bit_xor_halves : (a b : ℕ) → bit_xor a b ≡ bit_xor (a / 2) (b / 2) * 2 + (a % 2 + b % 2) % 2
bit_xor_halves zero b = omega (arith, zero-bit_xor b, zero-bit_xor (b / 2))
bit_xor_halves (suc a) b = omega (
  arith,
  bit_xor-bitwise (suc a) b,
  bit_xor-bitwise (suc a / 2) (b / 2),
  more_fuel a (suc a / 2) (suc a / 2) (b / 2) (omega arith) (omega arith),
  differ_digits (suc a % 2) (b % 2) (omega arith) (omega arith),
)

half_xor : (a b : ℕ) → bit_xor a b / 2 ≡ bit_xor (a / 2) (b / 2)
half_xor a b = omega (arith, bit_xor_halves a b)

comm_below : (n a b : ℕ) → a ≤ n → b ≤ n → bit_xor a b ≡ bit_xor b a
comm_below zero zero zero p q = refl
comm_below zero (suc a) b p q = absurd (omega arith)
comm_below zero zero (suc b) p q = absurd (omega arith)
comm_below (suc n) a b p q = omega (
  arith,
  bit_xor_halves a b,
  bit_xor_halves b a,
  comm_below n (a / 2) (b / 2) (omega arith) (omega arith),
)

assoc_below :
    (n a b c : ℕ) → a ≤ n → b ≤ n → c ≤ n → bit_xor (bit_xor a b) c ≡ bit_xor a (bit_xor b c)
assoc_below zero zero b c p q r =
    ap (λ (x : ℕ). bit_xor x c) (zero-bit_xor b) ∙ sym (zero-bit_xor (bit_xor b c))
assoc_below zero (suc a) b c p q r = absurd (omega arith)
assoc_below (suc n) a b c p q r = omega (
  arith,
  bit_xor_halves a b,
  bit_xor_halves b c,
  bit_xor_halves (bit_xor a b) c,
  bit_xor_halves a (bit_xor b c),
  ap (λ (x : ℕ). bit_xor x (c / 2)) (half_xor a b),
  ap (λ (x : ℕ). bit_xor (a / 2) x) (half_xor b c),
  assoc_below n (a / 2) (b / 2) (c / 2) (omega arith) (omega arith) (omega arith),
)

pub bit_xor_comm : (a b : ℕ) → bit_xor a b ≡ bit_xor b a
bit_xor_comm a b = comm_below (a + b) a b (omega arith) (omega arith)

pub bit_xor_assoc : (a b c : ℕ) → bit_xor (bit_xor a b) c ≡ bit_xor a (bit_xor b c)
bit_xor_assoc a b c = assoc_below (a + b + c) a b c (omega arith) (omega arith) (omega arith)

self_below : (n a : ℕ) → a ≤ n → bit_xor a a ≡ 0
self_below zero zero p = refl
self_below zero (suc a) p = absurd (omega arith)
self_below (suc n) a p = omega (arith, bit_xor_halves a a, self_below n (a / 2) (omega arith))

pub bit_xor_self : (a : ℕ) → bit_xor a a ≡ 0
bit_xor_self a = self_below a a (omega arith)

pub bit_xor-zero : (a : ℕ) → bit_xor a 0 ≡ a
bit_xor-zero a = bit_xor_comm a 0 ∙ zero-bit_xor a
