-- ===== src/Tests/Bytes.antt =====
-- Base 32 and the seek table at small examples, and what they compute there.
use narshare.Base.{◌≡◌, refl, some, [], ◌∷◌, arith}
use narshare.Base.Order.{nat_ord}
use narshare.Nar.{
  SeekTable, lit, file, lit_slice, file_slice, slices, slices_from, first_seg, clamp, pad_len,
}
use narshare.Nar.Cover.{IsLaidOut}
use narshare.Nixbase32.{
  encode, encode_from, encoded_len, digit_at, decode, decode_from, put_digit, position,
}

-- The range of a literal, a file of five bytes and its padding.
abbrev table : SeekTable
table = record {
  nar_size = 12;
  lits = 1 ∷ 2 ∷ 3 ∷ 4 ∷ 0 ∷ 0 ∷ 0 ∷ [];
  segs =
      (record { nar_off = 0; len = 4; src = lit 0 })
      ∷ (record { nar_off = 4; len = 5; src = file (b'f' ∷ []) 0 })
      ∷ (record { nar_off = 9; len = 3; src = lit 4 })
      ∷ [];
}

table-IsLaidOut : IsLaidOut table.lits 0 table.segs 12
table-IsLaidOut = (refl, omega arith, (refl, tt, (refl, omega arith, refl)))

slices_of_table :
    slices table 2 10
    ≡ lit_slice (3 ∷ 4 ∷ []) ∷ file_slice (b'f' ∷ []) 0 5 ∷ lit_slice (0 ∷ []) ∷ []
unfolding slices slices_from first_seg clamp
slices_of_table = refl

pad_len_of_five : pad_len 5 ≡ 3
unfolding pad_len
pad_len_of_five = refl

encode_two : encode (255 ∷ 1 ∷ []) ≡ b'0' ∷ b'0' ∷ b'g' ∷ b'z' ∷ []
unfolding encode encode_from encoded_len digit_at
encode_two = refl

decode_two : decode (b'0' ∷ b'0' ∷ b'g' ∷ b'z' ∷ []) 2 ≡ some (255 ∷ 1 ∷ [])
unfolding decode decode_from encoded_len put_digit position
decode_two = refl
