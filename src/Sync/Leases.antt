-- ===== src/Sync/Leases.antt =====
-- sync.rs: who serves the bodies of an origin: `claim_origins`, `settle_leases` and `unenroll`.
pub mod Claims
pub mod Single
use narshare.Base.{
  ℕ, ◌-◌, Bool, true, false, ◌&&◌, ◌||◌, Option, none, some, List, [], ◌∷◌, ltb, ◌==◌,
  if◌then◌else◌, not,
}
use narshare.Base.Order.{nat_ord, list_ord}
use narshare.Base.Keys.{put, get, delete}
use narshare.Facts.{Bytes}
use narshare.Index.Messages.{OriginClock}

pub data Holder : Type 0 where
  peer : ℕ → Holder
  engine : Holder

-- Instants are in seconds.
pub record Lease : Type 0 where
  pub holder : Holder
  pub at : ℕ

pub record Enroll : Type 0 where
  pub origin : Bytes
  pub generation : ℕ
  pub target : ℕ

abbrev pub lease_ttl : ℕ
lease_ttl = 150

abbrev pub Leases : Type 0
Leases = List (Bytes × Lease)

abbrev pub is_engine : Holder → Bool
is_engine (peer i) = false
is_engine engine = true

abbrev pub is_peer : ℕ → Holder → Bool
is_peer idx (peer i) = i == idx
is_peer idx engine = false

abbrev pub claimed : ℕ → ℕ → Lease
claimed now idx = record { holder = peer idx; at = now }

-- One origin of the round: the leases, and whether it is skipped.
unfoldable pub claim : ℕ → ℕ → Leases → Bytes → Leases × Bool
claim now idx leases o = elim (get o leases) [
  | none ↦ (put o (claimed now idx) leases, false)
  | some l ↦
      if is_engine l.holder
      then (leases, true)
      else if is_peer idx l.holder
      then (put o (record l { at = now }) leases, false)
      else if ltb (now - l.at) lease_ttl
      then (leases, true)
      else (put o (claimed now idx) leases, false)
]

unfoldable pub claim_origins : ℕ → ℕ → Leases → List OriginClock → Leases × List Bytes
claim_origins now idx leases [] = (leases, [])
claim_origins now idx leases (c ∷ have) =
    let one = claim now idx leases c.origin in
    let rest = claim_origins now idx one.0 have in
    (rest.0, if one.1 then c.origin ∷ rest.1 else rest.1)

-- `retain`: what the loop of this peer claimed is released.
unfoldable pub release : ℕ → Leases → Leases
release idx [] = []
release idx (row ∷ leases) =
    let rest = release idx leases in if is_peer idx row.1.holder then rest else row ∷ rest

-- An origin of the answer: its name, generation and number, and whether a real backlog is left.
pub record Advert : Type 0 where
  pub origin : Bytes
  pub generation : ℕ
  pub seq : ℕ
  pub fresh_backlog : Bool

abbrev pub engine_held : Option Lease → Bool
engine_held none = false
engine_held (some l) = is_engine l.holder

unfoldable pub hand_off : ℕ → Leases → List Advert → Leases × List Enroll
hand_off now leases [] = (leases, [])
hand_off now leases (a ∷ adv) =
    let held = engine_held (get a.origin leases) in
    let next =
      if a.fresh_backlog
      then put a.origin (record { holder = engine; at = now }) leases
      else leases in
    let rest = hand_off now next adv in
    (
      rest.0,
      if a.fresh_backlog || held
          then record { origin = a.origin; generation = a.generation; target = a.seq } ∷ rest.1
          else rest.1,
    )

unfoldable pub settle_leases : ℕ → ℕ → Leases → List Advert → Leases × List Enroll
settle_leases now idx leases adv = hand_off now (release idx leases) adv

abbrev pub unenroll : Leases → Bytes → Leases
unenroll leases o = delete o leases
