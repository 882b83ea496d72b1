-- ===== src/Sync/Leases/Claims.antt =====
-- sync.rs: leases that are claimed one after the other.
use narshare.Base.{
  ℕ, ◌-◌, ◌≡◌, refl, sym, ap, ◌∙◌, inl, inr, Bool, true, false, not, ◌&&◌, ◌||◌, Option, none, some,
  List, [], ◌∷◌, ltb, if◌then◌else◌, arith, Bool-cases, Option-cases,
}
use narshare.Base.Order.{nat_ord, list_ord}
use narshare.Base.Sets.{same, eq_of_same, contains}
use narshare.Base.Keys.{put, get, get-put}
use narshare.Facts.{Bytes}
use narshare.Index.Messages.{OriginClock}
use narshare.Sync.Leases.{
  Holder, peer, engine, Lease, Leases, lease_ttl, is_engine, is_peer, claimed, claim,
}

-- An origin that a round of a peer would find taken by another.
abbrev pub taken : ℕ → ℕ → Option Lease → Bool
taken now idx none = false
taken now idx (some l) =
    if is_engine l.holder
    then true
    else if is_peer idx l.holder
    then false
    else ltb (now - l.at) lease_ttl

pub holder_of_peer : (idx : ℕ) (h : Holder) → is_peer idx h ≡ true → h ≡ peer idx
holder_of_peer idx (peer i) h = ap peer (ground arith)
holder_of_peer idx engine h = cc

pub claim-taken :
    (now idx : ℕ) (leases : Leases) (o : Bytes)
    → taken now idx (get o leases) ≡ true
    → claim now idx leases o ≡ (leases, true)
unfolding claim
claim-taken now idx leases o h = ground arith

pub claim_free :
    (now idx : ℕ) (leases : Leases) (o : Bytes)
    → taken now idx (get o leases) ≡ false
    → claim now idx leases o ≡ (put o (claimed now idx) leases, false)
unfolding claim
claim_free now idx leases o h = elim (Option-cases (get o leases)) [
  | inl n ↦ rw (claim, n) refl
  | inr (l, n) ↦ ground (arith, holder_of_peer idx l.holder)
]

abbrev pub names_of : List OriginClock → List Bytes
names_of [] = []
names_of (c ∷ have) = c.origin ∷ names_of have

pub is_peer_self : (idx : ℕ) → is_peer idx (peer idx) ≡ true
is_peer_self idx = ground arith

pub get-claim :
    (now idx : ℕ) (leases : Leases) (o name : Bytes)
    → get o (claim now idx leases name).0 ≡ (
        if same o name && not (taken now idx (get name leases))
        then some (claimed now idx)
        else get o leases)
get-claim now idx leases o name = elim (Bool-cases (taken now idx (get name leases))) [
  | inl t ↦ rw (claim-taken now idx leases name t) (ground arith)
  | inr t ↦
      rw (claim_free now idx leases name t)
        (ground (arith, get-put name o (claimed now idx) leases))
]

pub claim_skips :
    (now idx : ℕ) (leases : Leases) (name : Bytes)
    → (claim now idx leases name).1 ≡ taken now idx (get name leases)
claim_skips now idx leases name = elim (Bool-cases (taken now idx (get name leases))) [
  | inl t ↦ rw (claim-taken now idx leases name t) (sym t)
  | inr t ↦ rw (claim_free now idx leases name t) (sym t)
]

pub taken-claimed : (now idx : ℕ) → taken now idx (some (claimed now idx)) ≡ false
taken-claimed now idx = rw (is_peer_self idx) refl

-- A claim does not change what is taken.
pub taken-claim :
    (now idx : ℕ) (leases : Leases) (o name : Bytes)
    → taken now idx (get o (claim now idx leases name).0) ≡ taken now idx (get o leases)
taken-claim now idx leases o name = elim (Bool-cases (same o name)) [
  | inr d ↦ rw (get-claim now idx leases o name, d) refl
  | inl d ↦
      let k : o ≡ name = eq_of_same o name d in
      elim (Bool-cases (taken now idx (get name leases))) [
        | inl t ↦ rw (get-claim now idx leases o name, d, t) refl
        | inr t ↦
            rw (get-claim now idx leases o name, d, t)
              (taken-claimed now idx ∙ sym t ∙ ap (λ n. taken now idx (get n leases)) (sym k))
      ]
]

pub contains_if :
    (o x : Bytes) (b : Bool) (r : List Bytes)
    → contains o (if b then x ∷ r else r) ≡ ((b && same o x) || contains o r)
unfolding contains
contains_if o x b r = ground arith

-- The two combinations of tests that one more origin of the round makes.
pub skipped_and :
    (x k named s t0 t tc : Bool)
    → x ≡ ((k && s) || (named && t0))
    → k ≡ tc
    → t0 ≡ t
    → (s ≡ true → tc ≡ t)
    → x ≡ ((s || named) && t)
skipped_and x k named s t0 t tc e f g h = ground arith

pub leased_and :
    (named s t0 t tc : Bool) (x y l new : Option Lease)
    → x ≡ (if named && not t0 then new else y)
    → t0 ≡ t
    → y ≡ (if s && not tc then new else l)
    → (s ≡ true → tc ≡ t)
    → x ≡ (if (s || named) && not t then new else l)
leased_and named s t0 t tc x y l new e f g h = ground arith
