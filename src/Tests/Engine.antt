-- ===== src/Tests/Engine.antt =====
-- The catch-up engine with one origin: a chunk is asked for and comes back short.
use narshare.Base.{
  subst, ◌+◌, ◌≤◌, ◌<◌, ◌≡◌, refl, ◌⊎◌, true, false, ◌&&◌, ◌||◌, some, List, [], ◌∷◌, arith,
  is_some, if◌then◌else◌,
}
use narshare.Base.Order.{nat_ord, list_ord}
use narshare.Base.Sets.{contains}
use narshare.Base.Keys.{put, get}
use narshare.Index.Messages.{RangeAsk, RangeReply, OriginClock}
use narshare.Sync.Catchup.{
  OriginPlan, enroll, next_ask, ask_first, pick, complete, complete_plan, take_ready, has_work,
  engine_window, last_seq,
}
use narshare.Sync.Catchup.Pieces.{IsChunk, queued, waiting}
use narshare.Sync.Engine.{
  IsOrderly, Engine, Reach, idle, steps, IsSound, enrolls, asks, completes, at_head, asked_for,
}
use narshare.Sync.Engine.Steps.{reach-IsSound, reach-covers, reach-not_stuck}
use narshare.Sync.Leases.{Advert, Leases, peer, claim_origins, settle_leases, engine_held}
use narshare.Sync.Leases.Single.{
  lease_of_engine, fresh_in, named_in, enrolled_in, without, claim_origins-single_flight,
  settle_leases_lem,
}
use narshare.Sync.Loop.{is_good, on_done}
use narshare.Sync.Loop.Sound.{engine_of, on_done-IsSound}
use narshare.Sync.Drain.{Drained}
use narshare.Sync.Drain.Settles.{IsMirror}
use narshare.Sync.Drain.Ends.{buffered_of}
use narshare.Tests.Toy.{toy}
use narshare.Tests.Data.{alice, bobs, first, second, third, fresh_db}

abbrev waiting_plan : OriginPlan
waiting_plan = record {
  generation = 5;
  cursor = 0;
  next = 4;
  target = 4;
  buffered = (0, first ∷ second ∷ third ∷ []) ∷ [];
  retry = (3, 4) ∷ [];
  strikes = 0;
}

abbrev begun : OriginPlan
begun = record waiting_plan { next = 0; buffered = []; retry = [] }

abbrev alice_ask : RangeAsk
alice_ask = record { origin = alice; generation = 5; after = 0; until = 4 }

abbrev enrolled : Engine
enrolled = record { plan = record { origins = (alice, begun) ∷ []; inflight = 0 }; flying = [] }

abbrev asking : Engine
asking = record {
  plan = record { origins = (alice, record begun { next = 4 }) ∷ []; inflight = 1 };
  flying = alice_ask ∷ [];
}

abbrev short : Engine
short = record { plan = record { origins = (alice, waiting_plan) ∷ []; inflight = 0 }; flying = [] }

enrolled_run : (run : Reach enrolled) × IsOrderly enrolled run
unfolding enroll get put
enrolled_run =
    (steps _ enrolled idle (enrolls _ alice 5 0 4 (omega arith)), ((λ h s. refl, omega arith), tt))

asking_run : (run : Reach asking) × IsOrderly asking run
unfolding next_ask ask_first pick get put
asking_run = (
  steps enrolled asking enrolled_run.0 (asks enrolled (alice ∷ []) _ alice_ask refl),
  (tt, enrolled_run.1),
)

short_run : (run : Reach short) × IsOrderly short run
unfolding complete complete_plan get put
short_run = (
  steps asking short asking_run.0
      (completes asking alice_ask [] (first ∷ second ∷ third ∷ []) (at_head [])),
  ((((refl, (refl, (refl, refl))), omega arith), omega arith), asking_run.1),
)

plan_of_alice : get alice short.plan.origins ≡ some waiting_plan
unfolding get
plan_of_alice = refl

reach-covers_example :
    (0 ≤ engine_window)
    × (short.plan.inflight ≡ 0)
    × (0 < 4
        → 4 ≤ 4
        → queued 4 waiting_plan.retry + waiting 4 waiting_plan.buffered + asked_for alice [] 4 ≡ 1)
    × (4 < 4
        → queued 4 waiting_plan.retry + waiting 4 waiting_plan.buffered + asked_for alice [] 4 ≡ 0)
reach-covers_example = reach-covers short alice waiting_plan 4 short_run.0 short_run.1 plan_of_alice

reach-not_stuck_example :
    (has_work short.plan ≡ true)
    ⊎ (asked_for alice short.flying 1 ≡ 1)
    ⊎ (is_some (take_ready short.plan alice).1 ≡ true)
reach-not_stuck_example =
    reach-not_stuck short alice waiting_plan short_run.0 short_run.1 plan_of_alice (omega arith)

abbrev engine_lease : Leases
engine_lease = (alice, lease_of_engine 0) ∷ []

abbrev before_drain : Drained
before_drain = record {
  db = fresh_db;
  plan = short.plan;
  leases = engine_lease;
  applied_any = false;
}

before_drain-IsMirror : IsMirror alice (asked_for alice []) 4 1 before_drain
before_drain-IsMirror = record {
  plan = waiting_plan;
  had = plan_of_alice;
  planned = (reach-IsSound short short_run.0 short_run.1).planned alice waiting_plan plan_of_alice;
  level = refl;
  same_generation = refl;
  aims = refl;
  size = refl;
}

abbrev alice_line : List OriginClock
alice_line = (record { origin = alice; generation = 5; seq = 0 }) ∷ []

named : contains alice (alice ∷ []) ≡ true
unfolding contains
named = refl

claim_origins-single_flight_example :
    (contains alice (claim_origins 10 0 [] alice_line).1
      || contains alice (claim_origins 100 1 (claim_origins 10 0 [] alice_line).0 alice_line).1)
    ≡ true
claim_origins-single_flight_example =
    claim_origins-single_flight 10 100 0 1 [] alice_line alice_line alice
      (λ h. absurd (omega arith)) (omega arith) named named

abbrev alice_backlog : List Advert
alice_backlog = (record { origin = alice; generation = 5; seq = 9; fresh_backlog = true }) ∷ []

abbrev peer_lease : Leases
peer_lease = (alice, record { holder = peer 0; at = 10 }) ∷ []

settle_leases_lem_example :
    (get alice (settle_leases 20 0 peer_lease alice_backlog).0 ≡ (
      if fresh_in alice alice_backlog
      then some (lease_of_engine 20)
      else without 0 (get alice peer_lease)))
    × (enrolled_in alice (settle_leases 20 0 peer_lease alice_backlog).1 ≡ (
        fresh_in alice alice_backlog
        || (named_in alice alice_backlog && engine_held (get alice peer_lease))))
settle_leases_lem_example = settle_leases_lem 20 0 peer_lease alice_backlog alice (tt, tt)

abbrev alice_reply : RangeReply
alice_reply = record {
  origin = alice;
  generation = 5;
  after = 0;
  events = first ∷ second ∷ third ∷ [];
  reachable = true;
}

abbrev waiting_reply : Drained
waiting_reply = record before_drain { plan = asking.plan }

reply_in_range :
    (a : RangeReply)
    → some alice_reply ≡ some a
    → is_good alice_ask a ≡ true
    → IsChunk (0, a.events) × (last_seq 0 a.events ≤ 4)
reply_in_range a e g =
    let k : alice_reply ≡ a = cc e in
    subst (λ x. IsChunk (0, x.events) × (last_seq 0 x.events ≤ 4)) k
      (((refl, (refl, (refl, refl))), omega arith), omega arith)

waiting_for_one : buffered_of waiting_reply.plan alice + 1 < 2
unfolding get
waiting_for_one = omega arith

on_done-IsSound_example :
    (r : Drained) × (on_done 2 bobs toy waiting_reply alice_ask (some alice_reply) ≡ some r)
    × IsSound (engine_of r [])
on_done-IsSound_example =
    on_done-IsSound 2 bobs toy waiting_reply alice_ask (some alice_reply) (alice_ask ∷ []) []
      (at_head []) (reach-IsSound asking asking_run.0 asking_run.1) reply_in_range waiting_for_one
