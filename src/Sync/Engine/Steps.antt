-- ===== src/Sync/Engine/Steps.antt =====
-- sync.rs: what holds in every state that the engine reaches.
use Prim.Native.Nat.{compare}
use Prim.Native.Nat.Ordering.{lt}
use narshare.Base.{
  ℕ, suc, ◌+◌, ◌≤◌, ◌<◌, ◌≡◌, refl, inl, inr, ◌⊎◌, true, false, some, List, [], ◌∷◌, ltb, length,
  arith, All, is_some, low_or_high,
}
use narshare.Base.Order.{nat_ord, list_ord}
use narshare.Base.Sets.{IsStrict}
use narshare.Base.Keys.{get, keys}
use narshare.Facts.{Bytes}
use narshare.Wire.{Event}
use narshare.Sync.Catchup.{
  Catchup, OriginPlan, unpick, complete, complete_plan, struck, take_ready, has_work, any_work,
  plan_has_work, engine_window,
}
use narshare.Sync.Catchup.Pieces.{queued, waiting, IsPlanned}
use narshare.Sync.Catchup.Cover.{unpicked-IsPlanned, struck-IsPlanned, complete_plan-IsPlanned}
use narshare.Sync.Engine.{
  Engine, at_head, asked_for, IsSound, Step, enrolls, asks, gives_back, completes, strikes, applies,
  drops, Reach, idle, steps, IsOrderlyStep, IsOrderly,
}
use narshare.Sync.Engine.Asking.{next_ask-IsSound, next_ask-Asked, settle}
use narshare.Sync.Engine.Sound.{
  applied-IsSound, enroll-IsSound, drop-IsSound, strike_lem, take_ready-Taken,
}

pub step-IsSound :
    (e next : Engine) (step : Step e next) → IsOrderlyStep e next step → IsSound e → IsSound next
unfolding unpick complete
step-IsSound e next (enrolls d o g cursor target behind) (none_left, small) h =
    enroll-IsSound d o g cursor target h none_left (omega arith) small
step-IsSound e next (asks d order plan ask q) t h =
    let a = next_ask-Asked order d.plan plan ask q in next_ask-IsSound d plan ask h a.0 a.1
step-IsSound e next (gives_back d order plan ask q) t h =
    let a = next_ask-Asked order d.plan plan ask q in
    settle (record { plan = plan; flying = ask ∷ d.flying }) ask d.flying (at_head d.flying) _
      (λ p f k. unpicked-IsPlanned p f ask.after ask.until k)
      (next_ask-IsSound d plan ask h a.0 a.1)
step-IsSound e next (completes d ask rest events l) (run, le) h =
    settle d ask rest l (complete_plan ask.after ask.until events)
      (λ p f k. complete_plan-IsPlanned p f ask.after ask.until events k run le) h
step-IsSound e next (strikes d ask rest l) t h =
    rw (strike_lem d.plan ask.origin ask.after ask.until) (
      settle d ask rest l (struck ask.after ask.until)
        (λ p f k. struck-IsPlanned p f ask.after ask.until k) h)
step-IsSound e next (applies d o plan g events q) t h =
    applied-IsSound d plan o g events h (take_ready-Taken d.plan plan o g events q)
step-IsSound e next (drops d o) t h = drop-IsSound d o h

pub reach-IsSound : (e : Engine) (run : Reach e) → IsOrderly e run → IsSound e
unfolding get
reach-IsSound e idle t = record { counted = refl; windowed = omega arith; planned = λ o p h. cc }
reach-IsSound e (steps d next r s) (t, ts) = step-IsSound d next s t (reach-IsSound d r ts)

-- In every state that the engine reaches by a run in which replies are runs of events within what was
-- asked, targets leave room for a chunk below 64 bits, and no origin is enrolled anew while an ask
-- from an earlier plan of it is in flight: the count of asks in flight is right and within the
-- window, and a number of an enrolled origin that is taken up but not applied is in exactly one place:
-- the retry queue, the buffer or an ask in flight. What is beyond is in none.
pub reach-covers :
    (e : Engine) (o : Bytes) (p : OriginPlan) (s : ℕ) (run : Reach e)
    → IsOrderly e run
    → get o e.plan.origins ≡ some p
    → (length e.flying ≤ engine_window)
      × (e.plan.inflight ≡ length e.flying)
      × (p.cursor < s
          → s ≤ p.next
          → queued s p.retry + waiting s p.buffered + asked_for o e.flying s ≡ 1)
      × (p.next < s → queued s p.retry + waiting s p.buffered + asked_for o e.flying s ≡ 0)
reach-covers e o p s run t g =
    let h = reach-IsSound e run t in
    let k = h.planned o p g in
    (omega (arith, h.counted, h.windowed), h.counted, k.covered s, k.fresh s)

any_work-get :
    (o : Bytes) (rows : List (Bytes × OriginPlan)) (p : OriginPlan)
    → get o rows ≡ some p
    → plan_has_work p ≡ true
    → any_work rows ≡ true
unfolding get
any_work-get o [] p g w = cc
any_work-get o ((j, q) ∷ rows) p g w = ground (arith, any_work-get o rows p)

waiting_above :
    (n k : ℕ) (chunks : List (ℕ × List Event))
    → n < k
    → All (λ (j : ℕ). compare k j ≡ lt) (keys chunks)
    → waiting (suc n) chunks ≡ 0
waiting_above n k [] l all = refl
waiting_above n k (row ∷ rest) l all = ground (arith, waiting_above n k rest l all.1, all.0)

-- A buffered chunk that has the next number makes the head ready.
head-starts :
    (n : ℕ) (chunks : List (ℕ × List Event))
    → IsStrict (keys chunks)
    → 1 ≤ waiting (suc n) chunks
    → (row : ℕ × List Event) × (rest : List (ℕ × List Event)) × (chunks ≡ row ∷ rest) × (row.0 ≤ n)
head-starts n [] sorted h = absurd (omega arith)
head-starts n (row ∷ rest) sorted h = (row, rest, refl, ground (arith, waiting_above n row.0 rest))

queued_has_work : (p : OriginPlan) (s : ℕ) → 1 ≤ queued s p.retry → plan_has_work p ≡ true
queued_has_work p s h = ground arith

pub ready_at_head :
    (c : Catchup) (o : Bytes) (p : OriginPlan) (row : ℕ × List Event) (rest : List (ℕ × List Event))
    → get o c.origins ≡ some p
    → p.buffered ≡ row ∷ rest
    → row.0 ≤ p.cursor
    → is_some (take_ready c o).1 ≡ true
unfolding take_ready
ready_at_head c o p row rest g e le =
    let b : ltb p.cursor row.0 ≡ false = ground arith in rw (take_ready, g, e, b) refl

one_of_three : (a b c : ℕ) → a + b + c ≡ 1 → (1 ≤ a) ⊎ (c ≡ 1) ⊎ (1 ≤ b)
one_of_three a b c h = ground arith

-- Where the next number is.
next_piece :
    (p : OriginPlan) (f : ℕ → ℕ)
    → IsPlanned p f
    → p.cursor < p.target
    → (plan_has_work p ≡ true) ⊎ (f (suc p.cursor) ≡ 1) ⊎ (1 ≤ waiting (suc p.cursor) p.buffered)
next_piece p f k l = elim (low_or_high p.next p.cursor) [
  | inl low ↦ inl (ground arith)
  | inr high ↦ elim (one_of_three _ _ _ (k.covered (suc p.cursor) (omega arith) high)) [
    | inl q ↦ inl (queued_has_work p _ q)
    | inr w ↦ inr w
  ]
]

-- In every state that the engine reaches by a run in which replies are runs of events within what was
-- asked, targets leave room for a chunk below 64 bits, and no origin is enrolled anew while an ask
-- from an earlier plan of it is in flight: while an enrolled origin is behind its target the engine
-- is not stuck, since the planner has work, an
-- ask in flight has the next number, or the head of the buffer is ready to be applied.
pub reach-not_stuck :
    (e : Engine) (o : Bytes) (p : OriginPlan) (run : Reach e)
    → IsOrderly e run
    → get o e.plan.origins ≡ some p
    → p.cursor < p.target
    → (has_work e.plan ≡ true)
      ⊎ (asked_for o e.flying (suc p.cursor) ≡ 1)
      ⊎ (is_some (take_ready e.plan o).1 ≡ true)
unfolding has_work
reach-not_stuck e o p run t g l =
    let k = (reach-IsSound e run t).planned o p g in
    elim (next_piece p (asked_for o e.flying) k l) [
      | inl w ↦ inl (any_work-get o e.plan.origins p g w)
      | inr (inl f) ↦ inr (inl f)
      | inr (inr w) ↦
          let head = head-starts p.cursor p.buffered k.sorted w in
          inr (inr (ready_at_head e.plan o p head.0 head.1 g head.2 head.3))
    ]
