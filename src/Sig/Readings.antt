-- ===== src/Sig/Readings.antt =====
-- sig.rs: what a signature and a key are read as.
use narshare.Base.{
  ◌≡◌, ◌⊎◌, refl, sym, subst, ap, ◌∙◌, inl, inr, Bool, true, false, ◌&&◌, ◌||◌, Option, none, some,
  List, [], ◌∷◌, Among, Option-cases, arith,
}
use narshare.Base.Order.{nat_ord, list_ord}
use narshare.Base.Sets.{same, same_self, eq_of_same}
use narshare.Facts.{Bytes}
use narshare.Serve.{split_once}
use narshare.Sig.{Crypto, read_raw, read_entry, verifies}

-- A signature of the narinfo and a trusted key, by their texts: they have one name, the text after
-- the name is a signature in base 64, and the key accepts it for the fingerprint.
pub record IsSignedBy (c : Crypto) (fp : Bytes) (sigs : List Bytes) (keys : List (Bytes × Bytes))
    : Type 0 where
  pub text : Bytes
  pub name : Bytes
  pub b64 : Bytes
  pub raw : Bytes
  pub sig : Bytes
  pub pk : Bytes
  pub listed : Among text sigs
  pub split : split_once b':' text ≡ some (name, b64)
  pub decoded : c.decode64 b64 ≡ some raw
  pub is_signature : c.signature raw ≡ some sig
  pub trusted : Among (name, pk) keys
  pub verified : c.verify pk fp sig ≡ true

pub or_split : (a b : Bool) → (a || b) ≡ true → (a ≡ true) ⊎ (b ≡ true)
or_split true b h = inl refl
or_split false b h = inr h

pub verifies-Among :
    (c : Crypto) (fp name sig : Bytes) (keys : List (Bytes × Bytes))
    → verifies c fp name sig keys ≡ true
    → (pk : Bytes) × Among (name, pk) keys × (c.verify pk fp sig ≡ true)
unfolding verifies
verifies-Among c fp name sig [] h = cc
verifies-Among c fp name sig ((kname, pk) ∷ keys) h =
    elim (or_split (same kname name && c.verify pk fp sig) (verifies c fp name sig keys) h) [
      | inl here ↦
          let e : same kname name ≡ true = ground (arith, here) in
          (pk, inl (ap (λ x. (x, pk)) (sym (eq_of_same kname name e))), ground (arith, here))
      | inr later ↦
          let rest = verifies-Among c fp name sig keys later in (rest.0, inr rest.1, rest.2)
    ]

pub Among-verifies :
    (c : Crypto) (fp name sig pk : Bytes) (keys : List (Bytes × Bytes))
    → Among (name, pk) keys
    → c.verify pk fp sig ≡ true
    → verifies c fp name sig keys ≡ true
unfolding verifies
Among-verifies c fp name sig pk [] a v = elim a [ ]
Among-verifies c fp name sig pk ((kname, k) ∷ keys) (inl e) v =
    let n : name ≡ kname = ap (λ x. x.0) e in
    let k' : pk ≡ k = ap (λ x. x.1) e in
    let s : same kname name ≡ true = subst (λ x. same x name ≡ true) n (same_self name) in
    let v' : c.verify k fp sig ≡ true = subst (λ x. c.verify x fp sig ≡ true) k' v in
    rw (s, v') refl
Among-verifies c fp name sig pk ((kname, k) ∷ keys) (inr a) v =
    let ih = Among-verifies c fp name sig pk keys a v in ground (arith, ih)

pub raw-some :
    (from_slice : Bytes → Option Bytes) (n name v : Bytes) (raw : Option Bytes)
    → read_raw from_slice n raw ≡ some (name, v)
    → (r : Bytes) × (raw ≡ some r) × (from_slice r ≡ some v) × (n ≡ name)
raw-some from_slice n name v none h = cc
raw-some from_slice n name v (some r) h = elim (Option-cases (from_slice r)) [
  | inl e ↦ cc (rw (e, read_raw) at h)
  | inr (value, e) ↦
      let f : ◌≡◌ {A = Option (Bytes × Bytes)} (some (n, value)) (some (name, v)) =
        rw (e, read_raw) at h in
      let x : value ≡ v = cc f in let y : n ≡ name = cc f in (r, refl, e ∙ ap some x, y)
]

-- What a text that is read consists of.
pub read_entry-some :
    (c : Crypto) (from_slice : Bytes → Option Bytes) (s name v : Bytes)
    → read_entry c from_slice s ≡ some (name, v)
    → (b64 : Bytes) × (r : Bytes) × (split_once b':' s ≡ some (name, b64))
      × (c.decode64 b64 ≡ some r)
      × (from_slice r ≡ some v)
unfolding read_entry
read_entry-some c from_slice s name v h = elim (Option-cases (split_once b':' s)) [
  | inl e ↦ cc (rw e at h)
  | inr ((n, b64), e) ↦
      let x = raw-some from_slice n name v (c.decode64 b64) (rw e at h) in
      (b64, x.0, e ∙ ap (λ z. some (z, b64)) x.3, x.1, x.2)
]

pub some-read_entry :
    (c : Crypto) (from_slice : Bytes → Option Bytes) (s name b64 r v : Bytes)
    → split_once b':' s ≡ some (name, b64)
    → c.decode64 b64 ≡ some r
    → from_slice r ≡ some v
    → read_entry c from_slice s ≡ some (name, v)
unfolding read_entry
some-read_entry c from_slice s name b64 r v e f g = rw (e, f, g, read_raw) refl

pub later-IsSignedBy :
    (c : Crypto) (fp s : Bytes) (sigs : List Bytes) (keys : List (Bytes × Bytes))
    → IsSignedBy c fp sigs keys
    → IsSignedBy c fp (s ∷ sigs) keys
later-IsSignedBy c fp s sigs keys h = record {
  text = h.text;
  name = h.name;
  b64 = h.b64;
  raw = h.raw;
  sig = h.sig;
  pk = h.pk;
  listed = inr h.listed;
  split = h.split;
  decoded = h.decoded;
  is_signature = h.is_signature;
  trusted = h.trusted;
  verified = h.verified;
}
