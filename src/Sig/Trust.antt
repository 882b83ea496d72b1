-- ===== src/Sig/Trust.antt =====
-- sig.rs: whom a signature is accepted from.
use narshare.Base.{
  ◌≡◌, ◌↔◌, refl, subst, inl, inr, true, false, ◌||◌, some, List, [], ◌∷◌, is_empty, Among,
  Bool-cases, Option-cases, arith,
}
use narshare.Base.Order.{nat_ord, list_ord}
use narshare.Facts.{Bytes}
use narshare.Narinfo.{RemoteNarinfo}
use narshare.Sig.{
  Crypto, TrustedKeys, read_entry, fingerprint, verifies, sig_verifies, any_of, any_sig_valid,
}
use narshare.Sig.Readings.{
  IsSignedBy, or_split, verifies-Among, Among-verifies, read_entry-some, some-read_entry,
  later-IsSignedBy,
}

any_of-IsSignedBy :
    (c : Crypto) (fp : Bytes) (sigs : List Bytes) (keys : List (Bytes × Bytes))
    → any_of c fp sigs keys ≡ true
    → IsSignedBy c fp sigs keys
unfolding any_of
any_of-IsSignedBy c fp [] keys h = cc
any_of-IsSignedBy c fp (s ∷ sigs) keys h =
    elim (or_split (sig_verifies c fp (read_entry c c.signature s) keys) (any_of c fp sigs keys)
      h) [
        | inl here ↦ elim (Option-cases (read_entry c c.signature s)) [
          | inl e ↦ cc (rw e at here)
          | inr ((name, sig), e) ↦
              let x = read_entry-some c c.signature s name sig e in
              let y = verifies-Among c fp name sig keys (rw e at here) in
              record {
                text = s;
                name = name;
                b64 = x.0;
                raw = x.1;
                sig = sig;
                pk = y.0;
                listed = inl refl;
                split = x.2;
                decoded = x.3;
                is_signature = x.4;
                trusted = y.1;
                verified = y.2;
              }
        ]
        | inr later ↦ later-IsSignedBy c fp s sigs keys (any_of-IsSignedBy c fp sigs keys later)
      ]

Among-any_of :
    (c : Crypto) (fp s name sig pk : Bytes) (sigs : List Bytes) (keys : List (Bytes × Bytes))
    → Among s sigs
    → read_entry c c.signature s ≡ some (name, sig)
    → Among (name, pk) keys
    → c.verify pk fp sig ≡ true
    → any_of c fp sigs keys ≡ true
unfolding any_of
Among-any_of c fp s name sig pk [] keys a e k v = elim a [ ]
Among-any_of c fp s name sig pk (t ∷ sigs) keys (inl f) e k v =
    let e' : read_entry c c.signature t ≡ some (name, sig) =
      subst (λ x. read_entry c c.signature x ≡ some (name, sig)) f e in
    rw (e', Among-verifies c fp name sig pk keys k v) refl
Among-any_of c fp s name sig pk (t ∷ sigs) keys (inr a) e k v =
    let ih = Among-any_of c fp s name sig pk sigs keys a e k v in ground (arith, ih)

IsSignedBy-any_of :
    (c : Crypto) (fp : Bytes) (sigs : List Bytes) (keys : List (Bytes × Bytes))
    → IsSignedBy c fp sigs keys
    → any_of c fp sigs keys ≡ true
IsSignedBy-any_of c fp sigs keys h =
    Among-any_of c fp h.text h.name h.sig h.pk sigs keys h.listed
      (some-read_entry c c.signature h.text h.name h.b64 h.raw h.sig h.split h.decoded
        h.is_signature)
      h.trusted h.verified

none_of : (c : Crypto) (fp : Bytes) (sigs : List Bytes) → any_of c fp sigs [] ≡ false
unfolding any_of verifies
none_of c fp [] = refl
none_of c fp (s ∷ sigs) = elim (Option-cases (read_entry c c.signature s)) [
  | inl e ↦ rw e (none_of c fp sigs)
  | inr (x, e) ↦ rw e (none_of c fp sigs)
]

is_empty-none :
    (c : Crypto) (fp : Bytes) (sigs : List Bytes) (keys : List (Bytes × Bytes))
    → (is_empty keys || is_empty sigs) ≡ true
    → any_of c fp sigs keys ≡ false
unfolding any_of
is_empty-none c fp [] keys h = refl
is_empty-none c fp (s ∷ sigs) [] h = none_of c fp (s ∷ sigs)
is_empty-none c fp (s ∷ sigs) (k ∷ keys) h = cc

-- A narinfo is accepted exactly when one of its signatures has the name of a trusted key, can be
-- read, and is accepted by that key for the fingerprint.
pub any_sig_valid-IsSignedBy :
    (c : Crypto) (trusted : TrustedKeys) (info : RemoteNarinfo)
    → (any_sig_valid c trusted info ≡ true) ↔ IsSignedBy c (fingerprint info) info.sigs trusted.keys
unfolding any_sig_valid
any_sig_valid-IsSignedBy c trusted info =
    elim (Bool-cases (is_empty trusted.keys || is_empty info.sigs)) [
      | inl none_at_all ↦ (
        (λ h. cc (rw none_at_all at h)),
        λ s. cc (
          IsSignedBy-any_of c (fingerprint info) info.sigs trusted.keys s,
          is_empty-none c (fingerprint info) info.sigs trusted.keys none_at_all,
        ),
      )
      | inr both ↦ (
        (λ h. any_of-IsSignedBy c (fingerprint info) info.sigs trusted.keys (rw both at h)),
        λ s. rw both (IsSignedBy-any_of c (fingerprint info) info.sigs trusted.keys s),
      )
    ]
