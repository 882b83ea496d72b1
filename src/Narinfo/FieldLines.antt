-- ===== src/Narinfo/FieldLines.antt =====
-- narinfo.rs: what the lines of a narinfo are parsed to.
use mathlib.Core.List.{append_assoc}
use narshare.Base.{
  ℕ, ◌≤◌, ◌<◌, ◌^◌, ◌≡◌, refl, subst, ap, ◌∙◌, inl, inr, Bool, true, false, not, ◌&&◌, Option, some,
  List, [], ◌∷◌, ◌++◌, ◌==◌, leb, is_empty, length, All, arith, Result, ok, ◌>>=◌, context,
  bad_nar_size, bad_nar_hash, get_or, suc, zero, leb→le, low_or_high,
}
use narshare.Base.Order.{nat_ord, list_ord}
use narshare.Base.Text.{lines, split_whitespace, join, decimal, is_white}
use narshare.Base.Text.Lines.{IsLine, lines-line, append-IsLine}
use narshare.Base.Text.Words.{IsWord}
use narshare.Facts.{Bytes}
use narshare.Nixbase32.{alphabet, digit_at, encode, encode_from, decode}
use narshare.Nixbase32.Put.{AreBytes}
use narshare.Nixbase32.RoundTrip.{decode-encode, digit_at-lt, and_both}
use narshare.Serve.{strip_prefix, split_once}
use narshare.Serve.Decimal.{IsNumeral, parse_u64-decimal}
use narshare.Narinfo.{
  Fields, w_store_path, w_url, w_compression, w_file_hash, w_file_size, w_nar_hash, w_nar_size,
  w_references, w_sha256, line, parse_field, parse_line, parse_lines,
}

-- What a key has none of.
abbrev pub is_key : Bytes → Bool
is_key [] = true
is_key (c ∷ cs) = not (c == 10) && (not (c == 13) && (not (b':' == c) && is_key cs))

is_key-IsLine : (k : Bytes) → is_key k ≡ true → IsLine k
is_key-IsLine [] h = tt
is_key-IsLine (c ∷ k) h =
    ((λ e. ground (arith, e, h), λ e. ground (arith, e, h)), is_key-IsLine k (ground (arith, h)))

split_once-key : (k v : Bytes) → is_key k ≡ true → split_once b':' (k ++ b':' ∷ v) ≡ some (k, v)
unfolding split_once
split_once-key [] v h = refl
split_once-key (c ∷ k) v h = ground (arith, split_once-key k v)

abbrev pub parse_text : Bytes → Fields → Result Fields
parse_text text f = parse_lines (lines text) f

key-pos : (k v : Bytes) → is_empty (k ++ b':' ∷ v) ≡ false
key-pos [] v = refl
key-pos (c ∷ k) v = refl

-- A line is a field that is parsed, and the rest of the text is parsed after it.
line_lem :
    (k v rest : Bytes) (f : Fields)
    → is_key k ≡ true
    → IsLine v
    → parse_text (line k v ++ rest) f ≡ (parse_field k v f >>= parse_lines (lines rest))
unfolding line parse_lines parse_line strip_prefix
line_lem k v rest f key value =
    let l = k ++ b':' ∷ b' ' ∷ v in
    let e : line k v ++ rest ≡ l ++ 10 ∷ rest = simp append_assoc in
    let n : IsLine (b':' ∷ b' ' ∷ v) = (
      (((λ x. ground (arith, x)), λ x. ground (arith, x))),
      (((λ x. ground (arith, x)), λ x. ground (arith, x)), value),
    ) in
    let whole = lines-line l rest (append-IsLine k (b':' ∷ b' ' ∷ v) (is_key-IsLine k key) n) in
    let p : parse_line l f ≡ parse_field k v f =
      rw (key-pos k (b' ' ∷ v), split_once-key k (b' ' ∷ v) key) refl in
    ap (λ x. parse_text x f) e
    ∙ ap (λ x. parse_lines x f) whole
    ∙ ap (λ x. x >>= parse_lines (lines rest)) p

pub path_line :
    (v rest : Bytes) (f : Fields)
    → IsLine v
    → parse_text (line w_store_path v ++ rest) f
      ≡ parse_text rest (record f { store_path = some v })
unfolding parse_field
path_line v rest f h = line_lem w_store_path v rest f refl h

pub url_line :
    (v rest : Bytes) (f : Fields)
    → IsLine v
    → parse_text (line w_url v ++ rest) f ≡ parse_text rest (record f { url_seen = true })
unfolding parse_field
url_line v rest f h = line_lem w_url v rest f refl h

pub compression_line :
    (v rest : Bytes) (f : Fields)
    → IsLine v
    → parse_text (line w_compression v ++ rest) f ≡ parse_text rest (record f { compression = v })
unfolding parse_field
compression_line v rest f h = line_lem w_compression v rest f refl h

pub file_hash_line :
    (v rest : Bytes) (f : Fields)
    → IsLine v
    → parse_text (line w_file_hash v ++ rest) f ≡ parse_text rest (f)
unfolding parse_field
file_hash_line v rest f h = line_lem w_file_hash v rest f refl h

pub file_size_line :
    (v rest : Bytes) (f : Fields)
    → IsLine v
    → parse_text (line w_file_size v ++ rest) f ≡ parse_text rest (f)
unfolding parse_field
file_size_line v rest f h = line_lem w_file_size v rest f refl h

pub references_line :
    (v rest : Bytes) (f : Fields)
    → IsLine v
    → parse_text (line w_references v ++ rest) f
      ≡ parse_text rest (record f { references = split_whitespace v })
unfolding parse_field
references_line v rest f h = line_lem w_references v rest f refl h

-- A field with a value of its own form.
pub field_line :
    (k v rest : Bytes) (f g : Fields)
    → is_key k ≡ true
    → IsLine v
    → parse_field k v f ≡ ok g
    → parse_text (line k v ++ rest) f ≡ parse_text rest g
field_line k v rest f g key h e =
    line_lem k v rest f key h ∙ ap (λ x. x >>= parse_lines (lines rest)) e

pub decimal-IsLine : (s : Bytes) → All IsNumeral s → IsLine s
decimal-IsLine [] h = tt
decimal-IsLine (c ∷ s) h = (
  (λ e. absurd (omega (arith, e, h.0)), λ e. absurd (omega (arith, e, h.0))),
  decimal-IsLine s h.1,
)

pub nar_size_field :
    (n : ℕ) (f : Fields)
    → n < 2 ^ 64
    → parse_field w_nar_size (decimal n) f ≡ ok (record f { nar_size = some n })
unfolding parse_field
nar_size_field n f fits =
    ap (λ (x : Option ℕ). context x bad_nar_size >>= λ k. ok (record f { nar_size = some k }))
      (parse_u64-decimal n fits)

pub nar_hash_field :
    (h : Bytes) (f : Fields)
    → AreBytes h
    → length h ≡ 32
    → parse_field w_nar_hash (w_sha256 ++ encode h) f ≡ ok (record f { nar_hash = some h })
unfolding parse_field strip_prefix
nar_hash_field h f are n =
    ap
      (λ (x : Option Bytes).
        context x bad_nar_hash >>= λ bytes. ok (record f { nar_hash = some bytes }))
      (subst (λ x. decode (encode h) x ≡ some h) n (decode-encode h are))

-- The letters of base 32 are none that end a line.
are_letters : ℕ → Bool
are_letters zero = true
are_letters (suc d) = leb b'0' (get_or alphabet d 0) && are_letters d

are_letters-table : are_letters 32 ≡ true
unfolding are_letters
are_letters-table = refl

letter_below : (n d : ℕ) → are_letters n ≡ true → d < n → b'0' ≤ get_or alphabet d 0
unfolding are_letters
letter_below zero d h lt = absurd (omega arith)
letter_below (suc n) d h lt = elim (low_or_high n d) [
  | inl high ↦
      let e : d ≡ n = omega arith in
      rw e (leb→le b'0' (get_or alphabet n 0) (and_both (leb b'0' (get_or alphabet n 0)) _ h).0)
  | inr low ↦ letter_below n d (and_both (leb b'0' (get_or alphabet n 0)) (are_letters n) h).1 low
]

encode_from-IsLine : (bytes : Bytes) (n : ℕ) → IsLine (encode_from bytes n)
unfolding encode_from
encode_from-IsLine bytes zero = tt
encode_from-IsLine bytes (suc n) =
    let le = letter_below 32 (digit_at bytes n) are_letters-table (digit_at-lt bytes n) in
    (
      (λ e. absurd (omega (arith, e, le)), λ e. absurd (omega (arith, e, le))),
      encode_from-IsLine bytes n,
    )

pub encode-IsLine : (bytes : Bytes) → IsLine (encode bytes)
unfolding encode
encode-IsLine bytes = encode_from-IsLine bytes _

word-IsLine : (w : Bytes) → All (λ c. is_white c ≡ false) w → IsLine w
word-IsLine [] h = tt
word-IsLine (c ∷ w) h =
    ((λ e. cc (ap is_white e, h.0), λ e. cc (ap is_white e, h.0)), word-IsLine w h.1)

pub join-IsLine : (ws : List Bytes) → All IsWord ws → IsLine (join (b' ' ∷ []) ws)
unfolding join
join-IsLine [] h = tt
join-IsLine (w ∷ []) h = word-IsLine w h.0.1
join-IsLine (w ∷ v ∷ ws) h =
    append-IsLine w (b' ' ∷ join (b' ' ∷ []) (v ∷ ws)) (word-IsLine w h.0.1)
      ((λ e. absurd (omega (arith, e)), λ e. absurd (omega (arith, e))), join-IsLine (v ∷ ws) h.1)
