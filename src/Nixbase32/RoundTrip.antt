-- ===== src/Nixbase32/RoundTrip.antt =====
-- nixbase32.rs: what is encoded is decoded again.
use narshare.Base.{
  ℕ, zero, suc, ◌+◌, ◌*◌, ◌<◌, ◌≡◌, refl, subst, ap, ◌∙◌, arith, Bool, true, false, Option, none,
  some, [], ◌∷◌, ◌&&◌, ◌==◌, length, get_or, replicate, inl, inr, ==_iff, low_or_high,
}
use narshare.Base.Order.{nat_ord}
use narshare.Facts.{Bytes}
use narshare.Nixbase32.{
  alphabet, encoded_len, digit_at, encode_from, encode, position, put_digit, put_some, decode_from,
  decode, length-encode_from, length-replicate,
}
use narshare.Nixbase32.Put.{AreBytes, IsPartly, put_digit-IsPartly}

-- Each digit's letter stands for it.
abbrev is_position : Option ℕ → ℕ → Bool
is_position none d = false
is_position (some i) d = i == d

are_positions : ℕ → Bool
are_positions zero = true
are_positions (suc d) = is_position (position (get_or alphabet d 0) alphabet) d && are_positions d

are_positions-table : are_positions 32 ≡ true
unfolding are_positions position
are_positions-table = refl

is_position-eq : (o : Option ℕ) (d : ℕ) → is_position o d ≡ true → o ≡ some d
is_position-eq none d h = cc
is_position-eq (some i) d h = ap some ((==_iff i d).0 h)

pub and_both : (a b : Bool) → (a && b) ≡ true → (a ≡ true) × (b ≡ true)
and_both true b h = (refl, h)
and_both false b h = cc

position_below :
    (n d : ℕ) → are_positions n ≡ true → d < n → position (get_or alphabet d 0) alphabet ≡ some d
unfolding are_positions
position_below zero d h lt = absurd (omega arith)
position_below (suc n) d h lt =
    let both =
      and_both (is_position (position (get_or alphabet n 0) alphabet) n) (are_positions n) h in
    elim (low_or_high n d) [
      | inl high ↦
          let e : d ≡ n = omega arith in
          rw e (is_position-eq (position (get_or alphabet n 0) alphabet) n both.0)
      | inr low ↦ position_below n d both.1 low
    ]

position-alphabet : (d : ℕ) → d < 32 → position (get_or alphabet d 0) alphabet ≡ some d
position-alphabet d lt = position_below 32 d are_positions-table lt

pub digit_at-lt : (bytes : Bytes) (n : ℕ) → digit_at bytes n < 32
unfolding digit_at
digit_at-lt bytes n = omega arith

decode_from-encode_from :
    (bytes : Bytes) (n : ℕ) (out : Bytes)
    → AreBytes bytes
    → n * 5 < 8 * length bytes + 5
    → IsPartly bytes n out
    → (last : Bytes) × (decode_from (encode_from bytes n) (some out) ≡ some last)
      × IsPartly bytes 0 last
unfolding decode_from encode_from
decode_from-encode_from bytes zero out are le h = (out, refl, h)
decode_from-encode_from bytes (suc n) out are le h =
    let (next, made, part) = put_digit-IsPartly bytes n out are (omega (arith, le)) h in
    let (last, rest, whole) = decode_from-encode_from bytes n next are (omega (arith, le)) part in
    let s = encode_from bytes n in
    let read =
      ap (λ x. decode_from s (put_some out (length s) x))
        (position-alphabet (digit_at bytes n) (digit_at-lt bytes n)) in
    let put =
      ap (λ x. decode_from s (put_digit out x (digit_at bytes n))) (length-encode_from bytes n) in
    (last, read ∙ put ∙ ap (decode_from s) made ∙ rest, whole)

get_or-replicate : (n k : ℕ) → get_or {A = ℕ} (replicate n 0) k 0 ≡ 0
get_or-replicate zero k = refl
get_or-replicate (suc n) zero = refl
get_or-replicate (suc n) (suc k) = get_or-replicate n k

list_ext :
    (a b : Bytes)
    → length a ≡ length b
    → ((k : ℕ) → k < length b → get_or a k 0 ≡ get_or b k 0)
    → a ≡ b
list_ext [] [] n h = refl
list_ext [] (y ∷ b) n h = absurd (omega (arith, n))
list_ext (x ∷ a) [] n h = absurd (omega (arith, n))
list_ext (x ∷ a) (y ∷ b) n h =
    cc (h 0 (omega arith), list_ext a b (omega (arith, n)) (λ k lt. h (suc k) (omega (arith, lt))))

-- Whatever bytes are encoded, the text decodes to them.
pub decode-encode :
    (bytes : Bytes) → AreBytes bytes → decode (encode bytes) (length bytes) ≡ some bytes
unfolding decode encode encoded_len
decode-encode bytes are =
    let n = encoded_len (length bytes) in
    let start : IsPartly bytes n (replicate (length bytes) 0) = record {
      sized = length-replicate (length bytes);
      each = λ k lt.
          let z = get_or-replicate (length bytes) k in
          (
            λ le. z,
            (λ m e lt2. absurd (ground (arith, e, lt, lt2))),
            λ less. absurd (ground (arith, less, lt)),
          );
    } in
    let (last, made, whole) =
      decode_from-encode_from bytes n (replicate (length bytes) 0) are (ground arith) start in
    let same_bytes : last ≡ bytes = list_ext last bytes whole.sized (λ k lt.
      elim (low_or_high 1 k) [
        | inl high ↦ (whole.each k lt).2 (omega arith)
        | inr low ↦ omega (arith, (whole.each k lt).1 0 (omega arith) (omega arith))
      ]) in
    let len : (length (encode_from bytes n) == n) ≡ true =
      (==_iff (length (encode_from bytes n)) n).1 (length-encode_from bytes n) in
    rw (len) (
      subst (λ x. decode_from (encode_from bytes n) (some (replicate (length bytes) 0)) ≡ some x)
        same_bytes made)
