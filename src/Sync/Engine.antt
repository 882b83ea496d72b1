-- ===== src/Sync/Engine.antt =====
-- sync.rs: `engine_loop` as steps on the planner and the asks that are in flight.
pub mod Plans
pub mod Asking
pub mod Sound
pub mod Steps
use narshare.Base.{
  ℕ, suc, ◌+◌, ◌≤◌, ◌<◌, ◌≡◌, Option, none, some, List, [], ◌∷◌, if◌then◌else◌, length,
}
use narshare.Base.Order.{nat_ord, list_ord}
use narshare.Base.Sets.{same}
use narshare.Base.Keys.{get}
use narshare.Facts.{Bytes}
use narshare.Wire.{Event}
use narshare.Index.Messages.{RangeAsk}
use narshare.Sync.Catchup.{
  Catchup, OriginPlan, enroll, next_ask, unpick, complete, strike, take_ready, applied, drop_origin,
  last_seq, chunk_events, engine_window, u64_size,
}
use narshare.Sync.Catchup.Pieces.{hit, IsChunk, IsPlanned}

-- The planner, and the asks whose replies have not come back over the channel.
pub record Engine : Type 0 where
  pub plan : Catchup
  pub flying : List RangeAsk

abbrev pub piece_of : Bytes → ℕ → RangeAsk → ℕ
piece_of o s ask = if same o ask.origin then hit ask.after ask.until s else 0

-- In how many asks in flight the number `s` of an origin is.
abbrev pub asked_for : Bytes → List RangeAsk → ℕ → ℕ
asked_for o [] s = 0
asked_for o (ask ∷ asks) s = piece_of o s ask + asked_for o asks s

-- One ask leaves the list.
pub data Leaves (ask : RangeAsk) : List RangeAsk → List RangeAsk → Type 0 where
  at_head : (rest : List RangeAsk) → Leaves ask (ask ∷ rest) rest
  further :
      (other : RangeAsk) (before after : List RangeAsk)
      → Leaves ask before after
      → Leaves ask (other ∷ before) (other ∷ after)

pub record IsSound (e : Engine) : Type 0 where
  pub counted : e.plan.inflight ≡ length e.flying
  pub windowed : e.plan.inflight ≤ engine_window
  pub planned :
      (o : Bytes) (p : OriginPlan)
      → get o e.plan.origins ≡ some p
      → IsPlanned p (asked_for o e.flying)

-- The steps of the loop, whatever the replies are and whichever origins are enrolled when: the code
-- asks only that an enrolment is behind its target.
pub data Step : Engine → Engine → Type 0 where
  enrolls :
      (e : Engine) (origin : Bytes) (generation cursor target : ℕ)
      → cursor < target
      → Step e
          (record { plan = (enroll e.plan origin generation cursor target).0; flying = e.flying })
  asks :
      (e : Engine) (order : List Bytes) (plan : Catchup) (ask : RangeAsk)
      → next_ask order e.plan ≡ (plan, some ask)
      → Step e (record { plan = plan; flying = ask ∷ e.flying })
  gives_back :
      (e : Engine) (order : List Bytes) (plan : Catchup) (ask : RangeAsk)
      → next_ask order e.plan ≡ (plan, some ask)
      → Step e (record { plan = unpick plan ask; flying = e.flying })
  completes :
      (e : Engine) (ask : RangeAsk) (rest : List RangeAsk) (events : List Event)
      → Leaves ask e.flying rest
      → Step e
          (record { plan = complete e.plan ask.origin ask.after ask.until events; flying = rest })
  strikes :
      (e : Engine) (ask : RangeAsk) (rest : List RangeAsk)
      → Leaves ask e.flying rest
      → Step e (record { plan = (strike e.plan ask.origin ask.after ask.until).0; flying = rest })
  applies :
      (e : Engine) (origin : Bytes) (plan : Catchup) (generation : ℕ) (events : List Event)
      → take_ready e.plan origin ≡ (plan, some (generation, events))
      → Step e (record { plan = applied plan origin (last_seq 0 events); flying = e.flying })
  drops :
      (e : Engine) (origin : Bytes)
      → Step e (record { plan = drop_origin e.plan origin; flying = e.flying })

pub data Reach : Engine → Type 0 where
  idle : Reach (record { plan = record { origins = []; inflight = 0 }; flying = [] })
  steps : (e next : Engine) → Reach e → Step e next → Reach next

-- What a step relies on and the code does not check: a reply is a run of events within what was
-- asked, a target leaves room for a chunk below 64 bits, and an origin that is enrolled anew has no
-- ask in flight from an earlier plan.
abbrev pub IsOrderlyStep : (e next : Engine) → Step e next → Type 0
IsOrderlyStep e next (enrolls d origin generation cursor target lt) =
    (get origin d.plan.origins ≡ none → (s : ℕ) → asked_for origin d.flying s ≡ 0)
    × (target + chunk_events < u64_size)
IsOrderlyStep e next (completes d ask rest events l) =
    IsChunk (ask.after, events) × (last_seq ask.after events ≤ ask.until)
IsOrderlyStep e next (asks d order plan ask q) = Unit
IsOrderlyStep e next (gives_back d order plan ask q) = Unit
IsOrderlyStep e next (strikes d ask rest l) = Unit
IsOrderlyStep e next (applies d origin plan generation events q) = Unit
IsOrderlyStep e next (drops d origin) = Unit

-- A run, every step of which is orderly.
abbrev pub IsOrderly : (e : Engine) → Reach e → Type 0
IsOrderly e idle = Unit
IsOrderly e (steps d next run step) = IsOrderlyStep d next step × IsOrderly d run
