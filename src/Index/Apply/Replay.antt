-- ===== src/Index/Apply/Replay.antt =====
-- index.rs: `apply_suffix` as a whole, and when it is repeated.
use narshare.Base.{
  ℕ, ◌≡◌, refl, Bool, true, false, not, ◌&&◌, Option, none, some, List, arith, ◌==◌, ltb,
  if◌then◌else◌, length, is_empty, ok, err, unexpected_origin,
}
use narshare.Base.Order.{nat_ord, list_ord}
use narshare.Facts.{Bytes}
use narshare.Wire.{Wire, Event}
use narshare.Store.{Db, Clock, clock, clock_is}
use narshare.Store.Holdings.{IsName}
use narshare.Store.Apply.{clock_at, applied as commit, apply_events_hit}
use narshare.Index.Messages.{Config, Applied, applied, need_snapshot}
use narshare.Index.Apply.{Plan, collect, commit_plan, apply_suffix, is_unexpected}

clock_is_self : (c : Clock) → clock_is c c.generation c.seq ≡ true
clock_is_self c = ground arith

-- The plan that is committed at the clock as it stands.
abbrev pub committed : Wire → Db → Bytes → ℕ → Option Plan → Db × Applied
committed w db origin generation none = (db, need_snapshot)
committed w db origin generation (some p) = if is_empty p.journal then (db, applied 0) else (
  commit w db origin (generation, p.seq) p.journal p.holds p.attests,
  applied (length p.journal),
)

commit_plan_lem :
    (w : Wire) (db : Db) (origin : Bytes) (generation : ℕ) (p : Option Plan)
    → IsName origin
    → commit_plan w db origin generation
        ((clock_at db origin).generation, (clock_at db origin).seq)
        p
      ≡ ok (committed w db origin generation p)
unfolding commit_plan
commit_plan_lem w db origin generation none n = refl
commit_plan_lem w db origin generation (some p) n = ground (
  arith,
  apply_events_hit w db origin ((clock_at db origin).generation, (clock_at db origin).seq)
      (generation, p.seq) p.journal p.holds p.attests n (clock_is_self (clock_at db origin)),
)

-- The two tests on the generation.
abbrev pub is_old : Clock → ℕ → Bool
is_old c generation = ltb generation c.generation

abbrev pub is_regenerated : Clock → ℕ → Bool
is_regenerated c generation =
    ltb c.generation generation && not ((c.generation == 0) && (c.seq == 0))

-- `apply_suffix` of a known origin, with its reads and its commit carried out.
abbrev pub outcome : Wire → Db → Bytes → ℕ → List Event → Db × Applied
outcome w db origin generation events =
    if is_old (clock_at db origin) generation
    then (db, applied 0)
    else if is_regenerated (clock_at db origin) generation
    then (db, need_snapshot)
    else committed w db origin generation (collect w (clock_at db origin).seq events)

pub apply_suffix_lem :
    (c : Config) (w : Wire) (db : Db) (origin : Bytes) (generation : ℕ) (events : List Event)
    → IsName origin
    → is_unexpected c origin ≡ false
    → apply_suffix c w db origin generation events ≡ ok (outcome w db origin generation events)
unfolding apply_suffix clock
apply_suffix_lem c w db origin generation events n u =
    rw (u, n)
      (ground (
        arith,
        commit_plan_lem w db origin generation (collect w (clock_at db origin).seq events) n,
      ))

-- This node's own origin and origins that the configuration does not name are refused.
pub apply_suffix_refused :
    (c : Config) (w : Wire) (db : Db) (origin : Bytes) (generation : ℕ) (events : List Event)
    → is_unexpected c origin ≡ true
    → apply_suffix c w db origin generation events ≡ err unexpected_origin
unfolding apply_suffix
apply_suffix_refused c w db origin generation events u = rw u
