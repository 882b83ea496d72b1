-- ===== src/Base/Text.antt =====
-- Text as a list of bytes: lines, words, decimal numbers.
use narshare.Base.{
  ℕ, zero, suc, ◌+◌, ◌-◌, ◌*◌, ◌/◌, ◌%◌, ◌^◌, ◌≡◌, Bool, true, false, ◌&&◌, ◌||◌, Option, none,
  some, List, [], ◌∷◌, ◌++◌, ltb, leb, ◌==◌, if◌then◌else◌,
}
use narshare.Base.Order.{nat_ord}
pub mod Lines
pub mod Words

-- `str::lines`: the pieces before each newline, without a carriage return there, and what follows
-- the last newline where it is not empty.
abbrev pub cons_char : ℕ → List (List ℕ) → List (List ℕ)
cons_char c [] = (c ∷ []) ∷ []
cons_char c (l ∷ ls) = (c ∷ l) ∷ ls

abbrev pub ends_line : List ℕ → Bool
ends_line [] = false
ends_line (c ∷ cs) = c == 10

unfoldable pub lines : List ℕ → List (List ℕ)
lines [] = []
lines (c ∷ cs) =
    let rest = lines cs in
    if c == 10 then [] ∷ rest else if (c == 13) && ends_line cs then rest else cons_char c rest

-- White space of ASCII text.
abbrev pub is_white : ℕ → Bool
is_white c = (c == 32) || (leb 9 c && leb c 13)

-- `split_whitespace`
abbrev pub starts_word : List ℕ → Bool
starts_word [] = false
starts_word (c ∷ cs) = if is_white c then false else true

unfoldable pub split_whitespace : List ℕ → List (List ℕ)
split_whitespace [] = []
split_whitespace (c ∷ cs) =
    let rest = split_whitespace cs in
    if is_white c then rest else if starts_word cs then cons_char c rest else (c ∷ []) ∷ rest

-- `join(sep)`
unfoldable pub join : List ℕ → List (List ℕ) → List ℕ
join sep [] = []
join sep (x ∷ []) = x
join sep (x ∷ y ∷ rest) = x ++ (sep ++ join sep (y ∷ rest))

-- A number in decimal, on fuel: it has no more digits than its value and one.
unfoldable pub decimal_from : ℕ → ℕ → List ℕ → List ℕ
decimal_from zero n acc = acc
decimal_from (suc fuel) n acc =
    let text = (b'0' + n % 10) ∷ acc in
    let rest = decimal_from fuel (n / 10) text in if n / 10 == 0 then text else rest

unfoldable pub decimal : ℕ → List ℕ
decimal n = decimal_from (suc n) n []
