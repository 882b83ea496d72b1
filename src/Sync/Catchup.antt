-- ===== src/Sync/Catchup.antt =====
-- sync.rs: the catch-up planner `Catchup`, its plan per origin and its operations.
pub mod Pieces
pub mod Cover
use narshare.Base.{
  ℕ, suc, ◌+◌, ◌-◌, ◌%◌, ◌^◌, Bool, true, false, not, ◌&&◌, ◌||◌, Option, none, some, List, [], ◌∷◌,
  ◌++◌, ltb, leb, ◌==◌, if◌then◌else◌, is_empty, min, max,
}
use narshare.Base.Order.{nat_ord, list_ord}
use narshare.Base.Keys.{put, get, delete}
use narshare.Facts.{Bytes}
use narshare.Wire.{Event}
use narshare.Index.Messages.{RangeAsk}
use narshare.Index.Maintain.{journal_backstop}

abbrev pub chunk_events : ℕ
chunk_events = 4096

abbrev pub engine_window : ℕ
engine_window = 6

abbrev pub engine_strikes : ℕ
engine_strikes = 3

abbrev pub u64_size : ℕ
u64_size = 2 ^ 64

-- The buffered chunks are a BTreeMap from where a chunk starts, the retry queue is a VecDeque.
pub record OriginPlan : Type 0 where
  pub generation : ℕ
  pub cursor : ℕ
  pub next : ℕ
  pub target : ℕ
  pub buffered : List (ℕ × List Event)
  pub retry : List (ℕ × ℕ)
  pub strikes : ℕ

-- A HashMap of plans; where its iteration order matters, the order is an argument.
pub record Catchup : Type 0 where
  pub origins : List (Bytes × OriginPlan)
  pub inflight : ℕ

abbrev pub new_plan : ℕ → ℕ → OriginPlan
new_plan generation cursor = record {
  generation = generation;
  cursor = cursor;
  next = cursor;
  target = cursor;
  buffered = [];
  retry = [];
  strikes = 0;
}

abbrev pub or_insert : Option OriginPlan → OriginPlan → OriginPlan
or_insert none p = p
or_insert (some q) p = q

abbrev pub put_plan : Catchup → Bytes → OriginPlan → Catchup
put_plan c origin p = record c { origins = put origin p c.origins }

abbrev pub drop_origin : Catchup → Bytes → Catchup
drop_origin c origin = record c { origins = delete origin c.origins }

abbrev pub enroll_plan : Catchup → Bytes → OriginPlan → Catchup × Bool
enroll_plan c origin p =
    if ltb (min (p.cursor + journal_backstop) (u64_size - 1)) p.target
    then (drop_origin c origin, false)
    else (put_plan c origin p, true)

unfoldable pub enroll : Catchup → Bytes → ℕ → ℕ → ℕ → Catchup × Bool
enroll c origin generation cursor target =
    let p = or_insert (get origin c.origins) (new_plan generation cursor) in
    if not (p.generation == generation)
    then (drop_origin c origin, false)
    else enroll_plan c origin (record p { target = max p.target target })

-- A retry first, else the next chunk up to the target.
unfoldable pub pick : OriginPlan → Option (ℕ × ℕ × OriginPlan)
pick p = elim p.retry [
  | (iv ∷ rest) ↦ some (iv.0, iv.1, record p { retry = rest })
  | [] ↦
      let until = min ((p.next + chunk_events) % u64_size) p.target in
      if ltb p.next p.target then some (p.next, until, record p { next = until }) else none
]

abbrev pub pick_at : Option OriginPlan → Option (ℕ × ℕ × OriginPlan)
pick_at none = none
pick_at (some p) = pick p

abbrev asked : Catchup → Bytes → ℕ × ℕ × OriginPlan → Catchup × Option RangeAsk
asked c name (after, until, p) = (
  record { origins = put name p c.origins; inflight = suc c.inflight },
  some (record { origin = name; generation = p.generation; after = after; until = until }),
)

unfoldable pub ask_first : Catchup → List Bytes → Catchup × Option RangeAsk
ask_first c [] = (c, none)
ask_first c (name ∷ names) = elim (pick_at (get name c.origins)) [
  | some a ↦ asked c name a
  | none ↦ ask_first c names
]

-- `order` is the order in which the map is walked.
unfoldable pub next_ask : List Bytes → Catchup → Catchup × Option RangeAsk
next_ask order c = if leb engine_window c.inflight then (c, none) else ask_first c order

abbrev pub with_plan : Catchup → Bytes → (OriginPlan → OriginPlan) → Catchup
with_plan c origin f = elim (get origin c.origins) [ none ↦ c | some p ↦ put_plan c origin (f p) ]

abbrev pub landed : Catchup → Catchup
landed c = record c { inflight = c.inflight - 1 }

unfoldable pub unpick : Catchup → RangeAsk → Catchup
unpick c ask =
    with_plan (landed c) ask.origin (λ p. record p { retry = (ask.after, ask.until) ∷ p.retry })

-- The number of the last event, or the given one.
abbrev pub last_seq : ℕ → List Event → ℕ
last_seq after [] = after
last_seq after (e ∷ events) = last_seq e.seq events

abbrev push_back : List (ℕ × ℕ) → ℕ → ℕ → List (ℕ × ℕ)
push_back retry after until = retry ++ ((after, until) ∷ [])

unfoldable pub complete_plan : ℕ → ℕ → List Event → OriginPlan → OriginPlan
complete_plan after until events p =
    let covered = last_seq after events in
    record p {
      strikes = 0;
      retry = if ltb covered until then push_back p.retry covered until else p.retry;
      buffered = if is_empty events then p.buffered else put after events p.buffered;
    }

unfoldable pub complete : Catchup → Bytes → ℕ → ℕ → List Event → Catchup
complete c origin after until events =
    with_plan (landed c) origin (complete_plan after until events)

abbrev pub struck : ℕ → ℕ → OriginPlan → OriginPlan
struck after until p = record p { retry = push_back p.retry after until; strikes = suc p.strikes }

unfoldable pub strike : Catchup → Bytes → ℕ → ℕ → Catchup × Bool
strike c origin after until = elim (get origin c.origins) [
  | none ↦ (landed c, true)
  | some p ↦ (put_plan (landed c) origin (struck after until p), ltb (suc p.strikes) engine_strikes)
]

abbrev pub take_first : Catchup → Bytes → OriginPlan → Catchup × Option (ℕ × List Event)
take_first c origin p = elim p.buffered [
  | [] ↦ (c, none)
  | (chunk ∷ rest) ↦
      if ltb p.cursor chunk.0
      then (c, none)
      else (put_plan c origin (record p { buffered = rest }), some (p.generation, chunk.1))
]

unfoldable pub take_ready : Catchup → Bytes → Catchup × Option (ℕ × List Event)
take_ready c origin = elim (get origin c.origins) [
  | none ↦ (c, none)
  | some p ↦ take_first c origin p
]

abbrev pub advanced : ℕ → OriginPlan → OriginPlan
advanced through p =
    let cursor = max p.cursor through in record p { cursor = cursor; next = max p.next cursor }

unfoldable pub applied : Catchup → Bytes → ℕ → Catchup
applied c origin through = with_plan c origin (advanced through)

abbrev pub plan_finished : OriginPlan → Bool
plan_finished p = leb p.target p.cursor && is_empty p.buffered && is_empty p.retry

unfoldable pub finished : Catchup → Bytes → Bool
finished c origin = elim (get origin c.origins) [ none ↦ true | some p ↦ plan_finished p ]

abbrev pub plan_has_work : OriginPlan → Bool
plan_has_work p = not (is_empty p.retry) || ltb p.next p.target

abbrev pub any_work : List (Bytes × OriginPlan) → Bool
any_work [] = false
any_work (row ∷ rows) = plan_has_work row.1 || any_work rows

unfoldable pub has_work : Catchup → Bool
has_work c = any_work c.origins
