-- ===== src/Facts/Join.antt =====
-- store/mod.rs: `merge_into` as the join of a semilattice.
use Prim.Native.Nat.Ordering.{lt, eq}
use narshare.Base.{
  ◌≡◌, refl, sym, ◌∙◌, inl, inr, false, Option, none, some, List, ◌++◌, arith, if◌then◌else◌,
  Bool-cases,
}
use narshare.Base.Order.{
  nat_ord, list_ord, cmp_list_self, eq_of_cmp_list, cmp_list-reverse, cmp_list_trans, reverse,
  is_gt,
}
use narshare.Base.Sets.{
  canon, canon_ext, canon-append_comm, canon-append_canon, canon-append_self, canon_of_strict,
  canon-IsStrict, contains-append, contains-canon,
}
use narshare.Facts.{
  Bytes, Attestation, canonicalize, body_cmp, take_body, add_sigs, attestation_eq,
  attestation_eq_sound, merge_into,
}

-- Two attestations with the same body, signatures and NAR hash aside.
pub record SameBody (a b : Attestation) : Type 0 where
  pub path : a.store_path ≡ b.store_path
  pub size : a.nar_size ≡ b.nar_size
  pub refs : a.references ≡ b.references
  pub addr : a.ca ≡ b.ca

pub body_cmp_self : (a : Attestation) → body_cmp a a ≡ eq
unfolding body_cmp
body_cmp_self a =
    simp (cmp_list_self a.store_path, cmp_list_self a.references, cmp_list_self a.ca) (ground arith)

pub SameBody-of-cmp : (a b : Attestation) → body_cmp a b ≡ eq → SameBody a b
unfolding body_cmp
SameBody-of-cmp a b h = ground (
  arith,
  eq_of_cmp_list a.store_path b.store_path,
  eq_of_cmp_list a.references b.references,
  eq_of_cmp_list a.ca b.ca,
)

pub body_cmp-reverse : (a b : Attestation) → body_cmp b a ≡ reverse (body_cmp a b)
unfolding body_cmp
body_cmp-reverse a b = ground (
  arith,
  cmp_list-reverse a.store_path b.store_path,
  cmp_list-reverse a.references b.references,
  cmp_list-reverse a.ca b.ca,
)

pub body_cmp_trans :
    (a b c : Attestation) → body_cmp a b ≡ lt → body_cmp b c ≡ lt → body_cmp a c ≡ lt
unfolding body_cmp
body_cmp_trans a b c p q = ground (
  arith,
  eq_of_cmp_list a.store_path b.store_path,
  eq_of_cmp_list b.store_path c.store_path,
  cmp_list_self a.store_path,
  cmp_list_trans a.store_path b.store_path c.store_path,
  eq_of_cmp_list a.references b.references,
  eq_of_cmp_list b.references c.references,
  cmp_list_self a.references,
  cmp_list_trans a.references b.references c.references,
  cmp_list_trans a.ca b.ca c.ca,
)

-- The specification: the greater body, and the union of the signatures in canonical form.
abbrev pub greater : Attestation → Attestation → Attestation
greater a b = if is_gt (body_cmp b a) then b else a

abbrev pub join : Attestation → Attestation → Attestation
join a b = record (greater a b) { nar_hash = a.nar_hash; sigs = canon (a.sigs ++ b.sigs) }

-- The fact that the table holds after a merge: the merged one, or the old one if nothing changed.
abbrev pub stored : Option Attestation → Attestation → Attestation
stored none b = elim (merge_into none b) [ none ↦ b | some m ↦ m ]
stored (some a) b = elim (merge_into (some a) b) [ none ↦ a | some m ↦ m ]

body_cmp_sigs :
    (a b : Attestation) (s : List Bytes) → body_cmp a (record b { sigs = s }) ≡ body_cmp a b
unfolding body_cmp
body_cmp_sigs a b s = refl

add_sigs-canon :
    (a b : Attestation) → add_sigs (canonicalize a) b ≡ record a { sigs = canon (a.sigs ++ b.sigs) }
unfolding add_sigs canonicalize canon
add_sigs-canon a b = λ i. record a { sigs = canon-append_canon a.sigs b.sigs i }

take_body-greater :
    (a b : Attestation) (s : List Bytes)
    → take_body (record a { sigs = s }) b ≡ record (greater a b) { nar_hash = a.nar_hash; sigs = s }
unfolding take_body
take_body-greater a b s = rw (body_cmp_sigs b a s) (ground arith)

merged-join : (a b : Attestation) → take_body (add_sigs (canonicalize a) b) b ≡ join a b
merged-join a b = rw (add_sigs-canon a b) (take_body-greater a b (canon (a.sigs ++ b.sigs)))

-- The merge computes the join, whatever the old fact looked like.
pub stored-join : (a b : Attestation) → stored (some a) b ≡ join a b
unfolding merge_into
stored-join a b = elim (Bool-cases (attestation_eq (take_body (add_sigs (canonicalize a) b) b) a)) [
  | inl e ↦ rw (e, stored) (sym (attestation_eq_sound _ a e) ∙ merged-join a b)
  | inr n ↦ rw (n, stored) (merged-join a b)
]

greater_comm-body : (a b : Attestation) → SameBody (greater a b) (greater b a)
greater_comm-body a b = ground (arith, SameBody-of-cmp a b, body_cmp-reverse a b)

Attestation_ext :
    {a b : Attestation} → SameBody a b → a.nar_hash ≡ b.nar_hash → a.sigs ≡ b.sigs → a ≡ b
Attestation_ext p h s = ground arith

pub join_comm : (a b : Attestation) → a.nar_hash ≡ b.nar_hash → join a b ≡ join b a
join_comm a b h =
    let p : SameBody (greater a b) (greater b a) = greater_comm-body a b in
    let q : SameBody (join a b) (join b a) = record {
      path = p.path;
      size = p.size;
      refs = p.refs;
      addr = p.addr;
    } in
    Attestation_ext q h (canon-append_comm a.sigs b.sigs)

pub join_self : (a : Attestation) → join a a ≡ canonicalize a
unfolding canonicalize canon
join_self a = rw (body_cmp_self a) (λ i. record a { sigs = canon-append_self a.sigs i })

cmp_of_SameBody : (a b c : Attestation) → SameBody a b → body_cmp a c ≡ body_cmp b c
unfolding body_cmp
cmp_of_SameBody a b c e = rw (e.path, e.size, e.refs, e.addr)

-- "Not greater" is transitive.
not_greater_trans :
    (a b c : Attestation)
    → is_gt (body_cmp a b) ≡ false
    → is_gt (body_cmp b c) ≡ false
    → is_gt (body_cmp a c) ≡ false
not_greater_trans a b c p q = ground (
  arith,
  body_cmp_trans a b c,
  λ (e : body_cmp a b ≡ eq). cmp_of_SameBody a b c (SameBody-of-cmp a b e),
  λ (e : body_cmp b c ≡ eq). cmp_of_SameBody b c a (SameBody-of-cmp b c e),
  body_cmp-reverse a b,
  body_cmp-reverse a c,
  body_cmp-reverse b c,
)

greater_assoc : (a b c : Attestation) → greater (greater a b) c ≡ greater a (greater b c)
greater_assoc a b c =
    ground (arith, not_greater_trans b c a, not_greater_trans c b a, body_cmp-reverse b c)

join_cmp_left : (a b c : Attestation) → body_cmp c (join a b) ≡ body_cmp c (greater a b)
unfolding body_cmp
join_cmp_left a b c = refl

join_cmp_right : (a b c : Attestation) → body_cmp (join a b) c ≡ body_cmp (greater a b) c
unfolding body_cmp
join_cmp_right a b c = refl

canon_assoc :
    (xs ys zs : List Bytes) → canon (canon (xs ++ ys) ++ zs) ≡ canon (xs ++ canon (ys ++ zs))
canon_assoc xs ys zs = canon_ext _ _ λ s. simp (contains-append, contains-canon) (ground arith)

SameBody-join : (a b c : Attestation) → SameBody (join (join a b) c) (greater (greater a b) c)
SameBody-join a b c = rw (join_cmp_left a b c) (ground arith)

SameBody-join_right : (a b c : Attestation) → SameBody (join a (join b c)) (greater a (greater b c))
SameBody-join_right a b c = rw (join_cmp_right b c a) (ground arith)

pub join_assoc : (a b c : Attestation) → join (join a b) c ≡ join a (join b c)
join_assoc a b c =
    let p : SameBody (join (join a b) c) (greater a (greater b c)) =
      rw (greater_assoc a b c) at (SameBody-join a b c) in
    let q : SameBody (join a (join b c)) (greater a (greater b c)) = SameBody-join_right a b c in
    Attestation_ext
      (record {
        path = p.path ∙ sym q.path;
        size = p.size ∙ sym q.size;
        refs = p.refs ∙ sym q.refs;
        addr = p.addr ∙ sym q.addr;
      })
      refl (canon_assoc a.sigs b.sigs c.sigs)

canonicalize-cmp : (a x : Attestation) → body_cmp (canonicalize x) a ≡ body_cmp x a
unfolding body_cmp canonicalize
canonicalize-cmp a x = refl

SameBody-join-canonicalize : (a x : Attestation) → SameBody (join a (canonicalize x)) (join a x)
unfolding canonicalize
SameBody-join-canonicalize a x = rw (canonicalize-cmp a x) (ground arith)

sigs-join-canonicalize : (a x : Attestation) → (join a (canonicalize x)).sigs ≡ (join a x).sigs
unfolding canonicalize canon
sigs-join-canonicalize a x =
    canon-append_comm a.sigs (canon x.sigs)
    ∙ canon-append_canon x.sigs a.sigs
    ∙ canon-append_comm x.sigs a.sigs

pub join-canonicalize : (a x : Attestation) → join a (canonicalize x) ≡ join a x
join-canonicalize a x =
    Attestation_ext (SameBody-join-canonicalize a x) refl (sigs-join-canonicalize a x)

pub canonicalize_twice : (a : Attestation) → canonicalize (canonicalize a) ≡ canonicalize a
unfolding canonicalize canon
canonicalize_twice a =
    λ i. record a { sigs = canon_of_strict (canon a.sigs) (canon-IsStrict a.sigs) i }
