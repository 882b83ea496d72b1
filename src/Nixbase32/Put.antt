-- ===== src/Nixbase32/Put.antt =====
-- nixbase32.rs: a digit that is put into the output, byte by byte.
use narshare.Base.{
  ℕ, zero, suc, ◌+◌, ◌*◌, ◌/◌, ◌%◌, ◌^◌, ◌≤◌, ◌<◌, ◌≡◌, refl, sym, subst, ◌∙◌, arith, false, some,
  [], ◌∷◌, ltb, ◌==◌, if◌then◌else◌, length, length-set, get_or, set, Bool-cases, All, inl, inr,
  ==_iff, low_or_high, ◌≢◌, ltb→lt,
}
use narshare.Nixbase32.Bits.{bits, Byte, IsPut, put_lem, low-Byte, high-Byte, other-Byte}
use narshare.Base.Order.{nat_ord}
use narshare.Facts.{Bytes}
use narshare.Nixbase32.{digit_at, add_at, put_digit}

abbrev pub AreBytes : Bytes → Type 0
AreBytes bytes = All (λ (b : ℕ). b < 256) bytes

pub get_or-set :
    (out : Bytes) (i k v : ℕ)
    → i < length out
    → get_or (set out i v) k 0 ≡ (if k == i then v else get_or out k 0)
get_or-set [] i k v lt = absurd (omega (arith, lt))
get_or-set (x ∷ out) zero zero v lt = refl
get_or-set (x ∷ out) zero (suc k) v lt = ground arith
get_or-set (x ∷ out) (suc i) zero v lt = ground arith
get_or-set (x ∷ out) (suc i) (suc k) v lt = ground (arith, get_or-set out i k v)

pub get_or-lt : (bytes : Bytes) (k : ℕ) → AreBytes bytes → get_or bytes k 0 < 256
get_or-lt [] k h = omega arith
get_or-lt (x ∷ bytes) zero h = h.0
get_or-lt (x ∷ bytes) (suc k) h = get_or-lt bytes k h.1

pub get_or_past : (bytes : Bytes) (k : ℕ) → length bytes ≤ k → get_or bytes k 0 ≡ 0
get_or_past [] k h = refl
get_or_past (x ∷ bytes) zero h = absurd (omega (arith, h))
get_or_past (x ∷ bytes) (suc k) h = get_or_past bytes k (omega (arith, h))

-- The output when the digits from `n` on are in it.
pub record IsPartly (bytes : Bytes) (n : ℕ) (out : Bytes) : Type 0 where
  pub sized : length out ≡ length bytes
  pub each : (k : ℕ) → k < length bytes → Byte (n * 5) k (get_or bytes k 0) (get_or out k 0)

-- One byte of the output when a digit is put.
pub put_low-Byte :
    (bytes out : Bytes) (p i j k : ℕ)
    → p ≡ 8 * i + j
    → j < 8
    → i < length out
    → k ≢ i + 1
    → IsPut j (get_or bytes i 0) (get_or bytes (i + 1) 0)
    → Byte (p + 5) k (get_or bytes k 0) (get_or out k 0)
    → Byte p k (get_or bytes k 0) (
        get_or
          (add_at out i (bits j (get_or bytes i 0) (get_or bytes (i + 1) 0) * 2 ^ j % 256))
          k
          0)
put_low-Byte bytes out p i j k e lt within ne1 put byte =
    let d = bits j (get_or bytes i 0) (get_or bytes (i + 1) 0) * 2 ^ j % 256 in
    let x = get_or-set out i k (get_or out i 0 + d) within in
    elim (Bool-cases (k == i)) [
      | inl y ↦
          let f = (==_iff k i).0 y in
          rw (x, y, f)
            (low-Byte p i j (get_or bytes i 0) (get_or bytes (i + 1) 0) (get_or out i 0) e lt put
              (subst (λ z. Byte (p + 5) z (get_or bytes z 0) (get_or out z 0)) f byte))
      | inr n ↦
          let ne : k ≢ i = λ f. cc (sym n ∙ (==_iff k i).1 f) in
          rw (x, n) (other-Byte p i j k (get_or bytes k 0) (get_or out k 0) e lt ne ne1 byte)
    ]

pub put_both-Byte :
    (bytes out : Bytes) (p i j k : ℕ)
    → p ≡ 8 * i + j
    → j < 8
    → i + 1 < length out
    → IsPut j (get_or bytes i 0) (get_or bytes (i + 1) 0)
    → Byte (p + 5) k (get_or bytes k 0) (get_or out k 0)
    → let full = bits j (get_or bytes i 0) (get_or bytes (i + 1) 0) * 2 ^ j in
      Byte p k
        (get_or bytes k 0)
        (get_or (add_at (add_at out i (full % 256)) (i + 1) (full / 256)) k 0)
put_both-Byte bytes out p i j k e lt within put byte =
    let full = bits j (get_or bytes i 0) (get_or bytes (i + 1) 0) * 2 ^ j in
    let mid = add_at out i (full % 256) in
    let n = length-set out i (get_or out i 0 + full % 256) in
    let x = get_or-set mid (i + 1) k (get_or mid (i + 1) 0 + full / 256) (omega (arith, n)) in
    elim (Bool-cases (k == i + 1)) [
      | inl y ↦
          let f = (==_iff k (i + 1)).0 y in
          let ne : (i + 1 == i) ≡ false = ground arith in
          let o : get_or mid (i + 1) 0 ≡ get_or out (i + 1) 0 =
            rw ne at (get_or-set out i (i + 1) (get_or out i 0 + full % 256) (omega arith)) in
          rw (x, y, f, o)
            (high-Byte p i j (get_or bytes i 0) (get_or bytes (i + 1) 0) (get_or out (i + 1) 0) e lt
              put (subst (λ z. Byte (p + 5) z (get_or bytes z 0) (get_or out z 0)) f byte))
      | inr m ↦
          let ne : k ≢ i + 1 = λ f. cc (sym m ∙ (==_iff k (i + 1)).1 f) in
          rw (x, m) (put_low-Byte bytes out p i j k e lt (omega arith) ne put byte)
    ]

pub no_spill : (j b c : ℕ) → IsPut j b c → c ≡ 0 → bits j b c * 2 ^ j / 256 ≡ 0
no_spill j b c put z = elim (low_or_high 3 j) [
  | inl high ↦ omega (arith, put.1.1 (omega arith), z)
  | inr low ↦ omega (arith, put.1.0 low, z)
]

pub put_digit-IsPartly :
    (bytes : Bytes) (n : ℕ) (out : Bytes)
    → AreBytes bytes
    → n * 5 < 8 * length bytes
    → IsPartly bytes (suc n) out
    → (next : Bytes) × (put_digit out n (digit_at bytes n) ≡ some next) × IsPartly bytes n next
unfolding put_digit digit_at
put_digit-IsPartly bytes n out are inside h =
    let i = n * 5 / 8 in
    let j = n * 5 % 8 in
    let b = get_or bytes i 0 in
    let c = get_or bytes (i + 1) 0 in
    let full = bits j b c * 2 ^ j in
    let e : n * 5 ≡ 8 * i + j = omega arith in
    let put = put_lem j b c (omega arith) (get_or-lt bytes i are) (get_or-lt bytes (i + 1) are) in
    let next_p : suc n * 5 ≡ n * 5 + 5 = omega arith in
    let old = λ (k : ℕ) (lt : k < length bytes).
      subst (λ x. Byte x k (get_or bytes k 0) (get_or out k 0)) next_p (h.each k lt) in
    elim (Bool-cases (ltb (i + 1) (length out))) [
      | inl fits ↦
          let lt : i + 1 < length out = ltb→lt _ _ fits in
          let mid = add_at out i (full % 256) in
          (
            add_at mid (i + 1) (full / 256),
            rw fits refl,
            record {
              sized =
                  length-set mid (i + 1) (get_or mid (i + 1) 0 + full / 256)
                  ∙ length-set out i (get_or out i 0 + full % 256)
                  ∙ h.sized;
              each =
                  λ k inn. put_both-Byte bytes out (n * 5) i j k e (omega arith) lt put (old k inn);
            },
          )
      | inr last ↦
          let past : i + 1 ≡ length bytes = ground (arith, last, h.sized) in
          let z : c ≡ 0 = get_or_past bytes (i + 1) (omega (arith, past)) in
          let none_spills : full / 256 ≡ 0 = no_spill j b c put z in
          (
            add_at out i (full % 256),
            rw (last, none_spills) refl,
            record {
              sized = length-set out i (get_or out i 0 + full % 256) ∙ h.sized;
              each = λ k inn.
                  put_low-Byte bytes out (n * 5) i j k e (omega arith)
                    (omega (arith, past, h.sized)) (λ f. absurd (omega (arith, f, past, inn))) put
                    (old k inn);
            },
          )
    ]
