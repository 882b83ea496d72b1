-- ===== src/Serve.antt =====
-- serve.rs: the range that a request asks for, and the pieces that it is answered in.
pub mod Decimal
pub mod Range
use narshare.Base.{
  ℕ, suc, ◌+◌, ◌-◌, ◌*◌, ◌^◌, Bool, true, false, not, ◌&&◌, ◌||◌, Option, none, some, List, [], ◌∷◌,
  ltb, leb, ◌==◌, if◌then◌else◌, is_empty, min,
}
use narshare.Base.Order.{nat_ord}
use narshare.Facts.{Bytes}

pub data RangeSpec : Type 0 where
  full : RangeSpec
  partial : (start : ℕ) → (end : ℕ) → RangeSpec
  unsatisfiable : RangeSpec

-- `str::parse::<u64>`: an optional plus, then digits, below 2 ^ 64.
abbrev pub is_digit : ℕ → Bool
is_digit c = leb b'0' c && leb c b'9'

unfoldable pub digits : ℕ → Bytes → Option ℕ
digits n [] = some n
digits n (c ∷ cs) =
    let next = n * 10 + (c - b'0') in
    let rest = digits next cs in if is_digit c && ltb next (2 ^ 64) then rest else none

abbrev digits_of : Bytes → Option ℕ
digits_of [] = none
digits_of (c ∷ cs) = digits 0 (c ∷ cs)

unfoldable pub parse_u64 : Bytes → Option ℕ
parse_u64 [] = none
parse_u64 (c ∷ cs) = if c == b'+' then digits_of cs else digits_of (c ∷ cs)

unfoldable pub strip_prefix : Bytes → Bytes → Option Bytes
strip_prefix [] s = some s
strip_prefix (p ∷ ps) [] = none
strip_prefix (p ∷ ps) (c ∷ cs) = let rest = strip_prefix ps cs in if p == c then rest else none

unfoldable pub has_char : ℕ → Bytes → Bool
has_char c [] = false
has_char c (d ∷ s) = (c == d) || has_char c s

abbrev cons_first : ℕ → Option (Bytes × Bytes) → Option (Bytes × Bytes)
cons_first c none = none
cons_first c (some (a, b)) = some (c ∷ a, b)

-- At the first such character.
unfoldable pub split_once : ℕ → Bytes → Option (Bytes × Bytes)
split_once c [] = none
split_once c (d ∷ s) =
    let rest = split_once c s in if c == d then some ([], s) else cons_first d rest

-- White space of a header's text.
abbrev is_space : ℕ → Bool
is_space c = (c == 32) || (leb 9 c && leb c 13)

unfoldable pub trim_start : Bytes → Bytes
trim_start [] = []
trim_start (c ∷ s) = let rest = trim_start s in if is_space c then rest else c ∷ s

unfoldable pub trim_end : Bytes → Bytes
trim_end [] = []
trim_end (c ∷ s) = let rest = trim_end s in if is_space c && is_empty rest then [] else c ∷ rest

abbrev pub trim : Bytes → Bytes
trim s = trim_end (trim_start s)

abbrev w_bytes : Bytes
w_bytes = b'b' ∷ b'y' ∷ b't' ∷ b'e' ∷ b's' ∷ b'=' ∷ []

abbrev pub suffix_range : ℕ → Option ℕ → RangeSpec
suffix_range size none = full
suffix_range size (some n) =
    if (n == 0) || (size == 0) then unsatisfiable else partial (size - n) size

abbrev pub open_range : ℕ → Option ℕ → RangeSpec
open_range size none = full
open_range size (some a) = if leb size a then unsatisfiable else partial a size

abbrev pub closed_range : ℕ → Option ℕ → Option ℕ → RangeSpec
closed_range size none b = full
closed_range size (some a) none = full
closed_range size (some a) (some b) =
    let end = min (min (b + 1) (2 ^ 64 - 1)) size in
    if ltb b a || (leb size a || leb end a) then unsatisfiable else partial a end

abbrev pub range_of : ℕ → Option (Bytes × Bytes) → RangeSpec
range_of size none = full
range_of size (some (a, b)) =
    if is_empty a
    then suffix_range size (parse_u64 b)
    else if is_empty b
    then open_range size (parse_u64 a)
    else closed_range size (parse_u64 a) (parse_u64 b)

abbrev pub range_in : ℕ → Option Bytes → RangeSpec
range_in size none = full
range_in size (some spec) =
    if has_char b',' spec then full else range_of size (split_once b'-' (trim spec))

unfoldable pub parse_range : Option Bytes → ℕ → RangeSpec
parse_range none size = full
parse_range (some h) size = range_in size (strip_prefix w_bytes h)
