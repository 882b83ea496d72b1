-- ===== src/Index/Apply.antt =====
-- index.rs: `apply_suffix`, `apply_snapshot` and `merge_attests`.
pub mod Collect
pub mod Replay
pub mod Repeat
pub mod Snapshot
pub mod Connect
pub mod Gap
use narshare.Base.{
  ℕ, ◌+◌, ◌≡◌, Bool, true, false, not, ◌&&◌, ◌||◌, Option, none, some, List, [], ◌∷◌, ◌++◌, ◌==◌,
  ltb, leb, if◌then◌else◌, length, keep_if, is_empty, Result, ok, err, ◌>>=◌, ◌>>◌, bail_if,
  unexpected_origin,
}
use narshare.Base.Order.{nat_ord, list_ord}
use narshare.Base.Sets.{same}
use narshare.Facts.{Bytes, Attestation}
use narshare.Wire.{Wire, Event, Op, have, drop, attest}
use narshare.Store.{
  Db, HoldOp, add, drop_hash, clock, apply_events, replace_holdings, merge_attestations,
}
use narshare.Index.Messages.{Config, Applied, applied, need_snapshot, is_known_origin, well_formed}

-- What one event materialises; a malformed hash or attestation is journaled and otherwise ignored.
unfoldable pub holds_of : Option Op → List HoldOp
holds_of none = []
holds_of (some (have h)) = if length h == 32 then add h ∷ [] else []
holds_of (some (drop h)) = if length h == 32 then drop_hash h ∷ [] else []
holds_of (some (attest a)) = []

unfoldable pub attests_of : Option Op → List Attestation
attests_of none = []
attests_of (some (have h)) = []
attests_of (some (drop h)) = []
attests_of (some (attest a)) = if well_formed a then a ∷ [] else []

-- What the loop over the events collects.
pub record Plan : Type 0 where
  pub seq : ℕ
  pub journal : List (ℕ × Bytes)
  pub holds : List HoldOp
  pub attests : List Attestation

abbrev pub push_event : Wire → Event → Option Plan → Option Plan
push_event w e none = none
push_event w e (some p) = some (record p {
  journal = (e.seq, w.encode_event e) ∷ p.journal;
  holds = holds_of e.op ++ p.holds;
  attests = attests_of e.op ++ p.attests;
})

-- The loop of `apply_suffix`: replays are skipped, and `none` is a gap.
unfoldable pub collect : Wire → ℕ → List Event → Option Plan
collect w seq [] = some (record { seq = seq; journal = []; holds = []; attests = [] })
collect w seq (e ∷ events) = elim (leb e.seq seq) [
  | true ↦ collect w seq events
  | false ↦ elim (e.seq == seq + 1) [
    | true ↦ push_event w e (collect w e.seq events)
    | false ↦ none
  ]
]

abbrev pub is_unexpected : Config → Bytes → Bool
is_unexpected c origin = same origin c.self_name || not (is_known_origin c origin)

-- The commit of what was collected.
unfoldable pub commit_plan : Wire → Db → Bytes → ℕ → ℕ × ℕ → Option Plan → Result (Db × Applied)
commit_plan w db origin generation expect none = ok (db, need_snapshot)
commit_plan w db origin generation expect (some p) =
    if is_empty p.journal then ok (db, applied 0) else do
      (next, done) ← apply_events w db origin expect (generation, p.seq) p.journal p.holds p.attests
      ok (next, applied (if done then length p.journal else 0))

unfoldable pub apply_suffix : Config → Wire → Db → Bytes → ℕ → List Event → Result (Db × Applied)
apply_suffix c w db origin generation events = do
  bail_if (is_unexpected c origin) unexpected_origin
  cur ← clock db origin
  if ltb generation cur.generation
      then ok (db, applied 0)
      else if ltb cur.generation generation && not ((cur.generation == 0) && (cur.seq == 0))
      then ok (db, need_snapshot)
      else commit_plan w db origin generation (cur.generation, cur.seq) (collect w cur.seq events)

-- Only whole hashes count.
abbrev pub whole_hashes : List Bytes → List Bytes
whole_hashes = keep_if (λ h. length h == 32)

unfoldable pub apply_snapshot : Config → Db → Bytes → ℕ → ℕ → List Bytes → Result (Db × ℕ)
apply_snapshot c db origin generation seq held = do
  bail_if (is_unexpected c origin) unexpected_origin
  (next, done) ← replace_holdings db origin generation seq (whole_hashes held)
  ok (next, if done then length (whole_hashes held) else 0)

unfoldable pub merge_attests : Wire → Db → List Attestation → Db × ℕ
merge_attests w db attests =
    let valid = keep_if well_formed attests in
    if is_empty valid then (db, 0) else merge_attestations w db valid
