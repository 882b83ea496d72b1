-- ===== src/Sync/Leases/Single.antt =====
-- sync.rs: an origin's bodies come from one place at a time.
use narshare.Base.{
  ℕ, ◌+◌, ◌<◌, ◌≡◌, ◌≢◌, refl, sym, ap, ◌∙◌, inl, inr, Bool, true, false, not, ◌&&◌, ◌||◌, Option,
  none, some, List, [], ◌∷◌, if◌then◌else◌, arith, Bool-cases,
}
use narshare.Base.Order.{nat_ord, list_ord}
use narshare.Base.Sets.{same, eq_of_same, contains, IsStrict}
use narshare.Base.Keys.{put, get, keys, get-put, get_above}
use narshare.Facts.{Bytes}
use narshare.Index.Messages.{OriginClock}
use narshare.Sync.Leases.{
  Holder, peer, engine, Lease, Leases, Enroll, lease_ttl, is_engine, is_peer, claimed, claim,
  claim_origins, release, Advert, engine_held, hand_off, settle_leases,
}
use narshare.Sync.Leases.Claims.{
  taken, names_of, get-claim, claim_skips, taken-claim, contains_if, skipped_and, leased_and,
}

-- What a round claims and skips: of the origins it names, those that are taken are skipped, and the
-- others are leased to it from now on; no other lease changes.
pub claim_origins_lem :
    (now idx : ℕ) (leases : Leases) (have : List OriginClock) (o : Bytes)
    → (contains o (claim_origins now idx leases have).1
        ≡ (contains o (names_of have) && taken now idx (get o leases)))
      × (get o (claim_origins now idx leases have).0 ≡ (
          if contains o (names_of have) && not (taken now idx (get o leases))
          then some (claimed now idx)
          else get o leases))
unfolding claim_origins contains
claim_origins_lem now idx leases [] o = (refl, refl)
claim_origins_lem now idx leases (c ∷ have) o =
    let ih = claim_origins_lem now idx (claim now idx leases c.origin).0 have o in
    let t = taken-claim now idx leases o c.origin in
    let g = get-claim now idx leases o c.origin in
    let sk = claim_skips now idx leases c.origin in
    let tr : same o c.origin ≡ true
        → taken now idx (get c.origin leases) ≡ taken now idx (get o leases) =
      λ d. ap (λ n. taken now idx (get n leases)) (sym (eq_of_same o c.origin d)) in
    let first =
      contains_if o c.origin (claim now idx leases c.origin).1
        (claim_origins now idx (claim now idx leases c.origin).0 have).1 in
    (
      skipped_and _ _ _ _ _ _ _
          (first ∙ ap (λ b. ((claim now idx leases c.origin).1 && same o c.origin) || b) ih.0) sk t
          tr,
      leased_and _ _ _ _ _ _ _ _ _ ih.1 t g tr,
    )

-- Two peers that claim within a lease's time are not both left with the same origin: when both name
-- it, the first one or the second one skips it.
pub claim_origins-single_flight :
    (now later idx other : ℕ) (leases : Leases) (have theirs : List OriginClock) (o : Bytes)
    → idx ≢ other
    → later < now + lease_ttl
    → contains o (names_of have) ≡ true
    → contains o (names_of theirs) ≡ true
    → (contains o (claim_origins now idx leases have).1
        || contains o (claim_origins later other (claim_origins now idx leases have).0 theirs).1)
      ≡ true
claim_origins-single_flight now later idx other leases have theirs o ne soon h k =
    let first = claim_origins_lem now idx leases have o in
    let second = claim_origins_lem later other (claim_origins now idx leases have).0 theirs o in
    elim (Bool-cases (taken now idx (get o leases))) [
      | inl t ↦ rw (first.0, h, t) refl
      | inr t ↦
          let g : get o (claim_origins now idx leases have).0 ≡ some (claimed now idx) =
            first.1 ∙ rw (h, t) refl in
          rw (first.0, h, t, second.0, k, g) (ground arith)
    ]

abbrev pub fresh_in : Bytes → List Advert → Bool
fresh_in o [] = false
fresh_in o (a ∷ adv) = (same o a.origin && a.fresh_backlog) || fresh_in o adv

abbrev pub named_in : Bytes → List Advert → Bool
named_in o [] = false
named_in o (a ∷ adv) = same o a.origin || named_in o adv

abbrev pub enrolled_in : Bytes → List Enroll → Bool
enrolled_in o [] = false
enrolled_in o (e ∷ enrolls) = same o e.origin || enrolled_in o enrolls

abbrev pub without : ℕ → Option Lease → Option Lease
without idx none = none
without idx (some l) = if is_peer idx l.holder then none else some l

abbrev pub lease_of_engine : ℕ → Lease
lease_of_engine now = record { holder = engine; at = now }

get-release :
    (idx : ℕ) (leases : Leases) (o : Bytes)
    → IsStrict (keys leases)
    → get o (release idx leases) ≡ without idx (get o leases)
unfolding release get
get-release idx [] o h = refl
get-release idx ((name, l) ∷ leases) o h =
    ground (arith, get-release idx leases o h.1, get_above name leases h.0, eq_of_same o name)

get-hand_off :
    (now : ℕ) (leases : Leases) (adv : List Advert) (o : Bytes)
    → get o (hand_off now leases adv).0
      ≡ (if fresh_in o adv then some (lease_of_engine now) else get o leases)
unfolding hand_off
get-hand_off now leases [] o = refl
get-hand_off now leases (a ∷ adv) o = elim (Bool-cases a.fresh_backlog) [
  | inl f ↦ rw f (
      ground (
        arith,
        get-hand_off now (put a.origin (lease_of_engine now) leases) adv o,
        get-put a.origin o (lease_of_engine now) leases,
      ))
  | inr f ↦ rw f (ground (arith, get-hand_off now leases adv o))
]

enrolled-hand_off :
    (now : ℕ) (leases : Leases) (adv : List Advert) (o : Bytes)
    → enrolled_in o (hand_off now leases adv).1
      ≡ (fresh_in o adv || (named_in o adv && engine_held (get o leases)))
unfolding hand_off
enrolled-hand_off now leases [] o = refl
enrolled-hand_off now leases (a ∷ adv) o = elim (Bool-cases a.fresh_backlog) [
  | inl f ↦ rw f (
      ground (
        arith,
        enrolled-hand_off now (put a.origin (lease_of_engine now) leases) adv o,
        get-put a.origin o (lease_of_engine now) leases,
      ))
  | inr f ↦
      let h : same o a.origin ≡ true
          → engine_held (get a.origin leases) ≡ engine_held (get o leases) =
        λ d. ap (λ n. engine_held (get n leases)) (sym (eq_of_same o a.origin d)) in
      rw f (ground (arith, enrolled-hand_off now leases adv o))
]

not_engine : (idx : ℕ) (h : Holder) → is_peer idx h ≡ true → is_engine h ≡ false
not_engine idx (peer i) h = refl
not_engine idx engine h = cc

engine_held-without : (idx : ℕ) (l : Option Lease) → engine_held (without idx l) ≡ engine_held l
engine_held-without idx none = refl
engine_held-without idx (some l) = ground (arith, not_engine idx l.holder)

-- What the settlement of a round leaves: the engine has every origin with a fresh backlog, the peer
-- of the round has none, and all other leases stay. The origins enrolled are the fresh ones and the
-- named ones that the engine had.
pub settle_leases_lem :
    (now idx : ℕ) (leases : Leases) (adv : List Advert) (o : Bytes)
    → IsStrict (keys leases)
    → (get o (settle_leases now idx leases adv).0
        ≡ (if fresh_in o adv then some (lease_of_engine now) else without idx (get o leases)))
      × (enrolled_in o (settle_leases now idx leases adv).1
          ≡ (fresh_in o adv || (named_in o adv && engine_held (get o leases))))
unfolding settle_leases
settle_leases_lem now idx leases adv o h =
    let r = get-release idx leases o h in
    (
      get-hand_off now (release idx leases) adv o ∙ rw r refl,
      enrolled-hand_off now (release idx leases) adv o
          ∙ rw (r, engine_held-without idx (get o leases)) refl,
    )
