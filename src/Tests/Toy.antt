-- ===== src/Tests/Toy.antt =====
-- A wire format that has the laws of `Wire`, for the examples: strings are ended by a zero and
-- their bytes raised by one.
use narshare.Base.{
  ℕ, zero, suc, ◌≤◌, ◌≡◌, refl, ap, ◌∙◌, Option, none, some, List, [], ◌∷◌, ◌++◌, arith, length,
  length-append, take, drop, replicate,
}
use narshare.Facts.{Bytes, Attestation}
use narshare.Wire.{Wire, Event, Op, have, drop as drop_op, attest}

abbrev add_byte : ℕ → List Bytes → List Bytes
add_byte n [] = []
add_byte n (s ∷ ss) = (n ∷ s) ∷ ss

abbrev split : Bytes → List Bytes
split [] = []
split (zero ∷ r) = [] ∷ split r
split (suc n ∷ r) = add_byte n (split r)

abbrev end_with : Bytes → Bytes → Bytes
end_with [] r = 0 ∷ r
end_with (c ∷ s) r = suc c ∷ end_with s r

abbrev join_all : List Bytes → Bytes
join_all [] = []
join_all (s ∷ ss) = end_with s (join_all ss)

split-end_with : (s r : Bytes) → split (end_with s r) ≡ s ∷ split r
split-end_with [] r = refl
split-end_with (c ∷ s) r = ap (add_byte c) (split-end_with s r)

split-join_all : (ss : List Bytes) → split (join_all ss) ≡ ss
split-join_all [] = refl
split-join_all (s ∷ ss) = split-end_with s (join_all ss) ∙ ap (◌∷◌ s) (split-join_all ss)

take-length : (xs ys : List Bytes) → take (length xs) (xs ++ ys) ≡ xs
take-length [] ys = refl
take-length (x ∷ xs) ys = ap (◌∷◌ x) (take-length xs ys)

drop-length : (xs ys : List Bytes) → drop (length xs) (xs ++ ys) ≡ ys
drop-length [] ys = refl
drop-length (x ∷ xs) ys = drop-length xs ys

abbrev fields : Attestation → List Bytes
fields a =
    a.store_path
    ∷ a.nar_hash
    ∷ a.ca
    ∷ (a.nar_size ∷ length a.references ∷ [])
    ∷ (a.references ++ a.sigs)

abbrev toy_attestation : Attestation → Bytes
toy_attestation a = join_all (fields a)

abbrev unfields : List Bytes → Option Op
unfields (path ∷ hash ∷ ca ∷ (size ∷ n ∷ []) ∷ rest) = some (
    attest (record {
      store_path = path;
      nar_hash = hash;
      nar_size = size;
      references = take n rest;
      ca = ca;
      sigs = drop n rest;
    }))
unfields _ = none

unfields-fields : (a : Attestation) → unfields (fields a) ≡ some (attest a)
unfields-fields a = rw (take-length a.references a.sigs, drop-length a.references a.sigs) refl

abbrev toy_op : Option Op → Bytes
toy_op none = 0 ∷ []
toy_op (some (have h)) = 1 ∷ h
toy_op (some (drop_op h)) = 2 ∷ h
toy_op (some (attest a)) = 3 ∷ toy_attestation a

abbrev untoy_op : Bytes → Option (Option Op)
untoy_op [] = none
untoy_op (zero ∷ r) = some none
untoy_op (suc zero ∷ r) = some (some (have r))
untoy_op (suc (suc zero) ∷ r) = some (some (drop_op r))
untoy_op (suc (suc (suc k)) ∷ r) = some (unfields (split r))

untoy_op-toy_op : (op : Option Op) → untoy_op (toy_op op) ≡ some op
untoy_op-toy_op none = refl
untoy_op-toy_op (some (have h)) = refl
untoy_op-toy_op (some (drop_op h)) = refl
untoy_op-toy_op (some (attest a)) =
    ap (λ ss. some (unfields ss)) (split-join_all (fields a)) ∙ ap some (unfields-fields a)

abbrev toy_event : Event → Bytes
toy_event e = e.seq ∷ toy_op e.op

abbrev with_seq : ℕ → Option (Option Op) → Option Event
with_seq s none = none
with_seq s (some op) = some (record { seq = s; op = op })

abbrev untoy_event : Bytes → Option Event
untoy_event [] = none
untoy_event (s ∷ r) = with_seq s (untoy_op r)

pub untoy-toy_event : (e : Event) → untoy_event (toy_event e) ≡ some e
untoy-toy_event e = ap (with_seq e.seq) (untoy_op-toy_op e.op)

-- The first 32 bytes, filled up with zeros.
abbrev toy_hash : Bytes → Bytes
toy_hash s = take 32 (s ++ replicate 32 0)

length-take_le : (n : ℕ) (xs : Bytes) → n ≤ length xs → length (take n xs) ≡ n
length-take_le zero xs h = refl
length-take_le (suc n) [] h = omega arith
length-take_le (suc n) (x ∷ xs) h = ap suc (length-take_le n xs (omega arith))

pub length-toy_hash : (s : Bytes) → length (toy_hash s) ≡ 32
length-toy_hash s =
    length-take_le 32 (s ++ replicate 32 0) (omega (arith, length-append s (replicate 32 0)))

abbrev pub toy : Wire
toy = record {
  encode_event = toy_event;
  decode_event = untoy_event;
  encode_attestation = toy_attestation;
  blake3 = toy_hash;
  length-blake3 = length-toy_hash;
  decode-encode = untoy-toy_event;
}
