-- ===== src/Nixbase32.antt =====
-- nixbase32.rs: Nix's base 32. Where the source joins two bit fields by `|`, they have no bit in
-- common, and the sum is written.
pub mod Bits
pub mod Put
pub mod RoundTrip
use narshare.Base.{
  ℕ, zero, suc, ◌+◌, ◌-◌, ◌*◌, ◌/◌, ◌%◌, ◌^◌, ◌≡◌, refl, sym, ap, ◌∙◌, inl, inr, false, not, Option,
  none, some, [], ◌∷◌, ◌==◌, ltb, if◌then◌else◌, length, length-set, get_or, set, replicate,
  Bool-cases, Option-cases,
}
use narshare.Base.Order.{nat_ord}
use narshare.Facts.{Bytes}

abbrev pub alphabet : Bytes
alphabet =
    b'0' ∷ b'1' ∷ b'2' ∷ b'3' ∷ b'4' ∷ b'5' ∷ b'6' ∷ b'7' ∷ b'8' ∷ b'9' ∷ b'a' ∷ b'b' ∷ b'c' ∷ b'd'
    ∷ b'f' ∷ b'g' ∷ b'h' ∷ b'i' ∷ b'j' ∷ b'k' ∷ b'l' ∷ b'm' ∷ b'n' ∷ b'p' ∷ b'q' ∷ b'r' ∷ b's'
    ∷ b'v' ∷ b'w' ∷ b'x' ∷ b'y' ∷ b'z' ∷ []

unfoldable pub encoded_len : ℕ → ℕ
encoded_len n = if n == 0 then 0 else (n * 8 - 1) / 5 + 1

-- The five bits at position `n`.
unfoldable pub digit_at : Bytes → ℕ → ℕ
digit_at bytes n =
    let i = n * 5 / 8 in
    let j = n * 5 % 8 in (get_or bytes i 0 / 2 ^ j + get_or bytes (i + 1) 0 * 2 ^ (8 - j)) % 32

-- The digits from position `n - 1` down to 0.
unfoldable pub encode_from : Bytes → ℕ → Bytes
encode_from bytes zero = []
encode_from bytes (suc n) = get_or alphabet (digit_at bytes n) 0 ∷ encode_from bytes n

unfoldable pub encode : Bytes → Bytes
encode bytes = encode_from bytes (encoded_len (length bytes))

-- `ALPHABET.iter().position(..)`
abbrev next_position : Option ℕ → Option ℕ
next_position none = none
next_position (some i) = some (suc i)

unfoldable pub position : ℕ → Bytes → Option ℕ
position ch [] = none
position ch (c ∷ cs) = if c == ch then some 0 else next_position (position ch cs)

abbrev add_at : Bytes → ℕ → ℕ → Bytes
add_at out i v = set out i (get_or out i 0 + v)

-- One digit into the output; a spill past the last byte is refused.
unfoldable pub put_digit : Bytes → ℕ → ℕ → Option Bytes
put_digit out n digit =
    let i = n * 5 / 8 in
    let full = digit * 2 ^ (n * 5 % 8) in
    if ltb (i + 1) (length out)
    then some (add_at (add_at out i (full % 256)) (i + 1) (full / 256))
    else if full / 256 == 0
    then some (add_at out i (full % 256))
    else none

abbrev put_some : Bytes → ℕ → Option ℕ → Option Bytes
put_some out n none = none
put_some out n (some digit) = put_digit out n digit

unfoldable pub decode_from : Bytes → Option Bytes → Option Bytes
decode_from s none = none
decode_from [] (some out) = some out
decode_from (ch ∷ s) (some out) = decode_from s (put_some out (length s) (position ch alphabet))

unfoldable pub decode : Bytes → ℕ → Option Bytes
decode s out_len =
    if not (length s == encoded_len out_len)
    then none
    else decode_from s (some (replicate out_len 0))

pub length-encode_from : (bytes : Bytes) (n : ℕ) → length (encode_from bytes n) ≡ n
unfolding encode_from
length-encode_from bytes zero = refl
length-encode_from bytes (suc n) = ap suc (length-encode_from bytes n)

pub length-replicate : (n : ℕ) → length {A = ℕ} (replicate n 0) ≡ n
length-replicate zero = refl
length-replicate (suc n) = ap suc (length-replicate n)
