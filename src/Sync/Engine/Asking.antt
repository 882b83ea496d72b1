-- ===== src/Sync/Engine/Asking.antt =====
-- sync.rs: what an engine asks for next, as ranges of the planned catch-ups.
use narshare.Base.{
  ℕ, suc, ◌+◌, ◌<◌, ◌≡◌, refl, sym, subst, ◌∙◌, inl, inr, false, some, List, [], ◌∷◌, leb, arith,
  Bool-cases, Option-cases,
}
use narshare.Base.Order.{nat_ord, list_ord}
use narshare.Base.Sets.{same, same_self, eq_of_same}
use narshare.Base.Keys.{put, get}
use narshare.Facts.{Bytes}
use narshare.Index.Messages.{RangeAsk}
use narshare.Sync.Catchup.{
  Catchup, OriginPlan, next_ask, ask_first, pick, engine_window, landed, with_plan,
}
use narshare.Sync.Catchup.Pieces.{hit, IsPlanned}
use narshare.Sync.Catchup.Cover.{pick-IsPlanned}
use narshare.Sync.Engine.{Engine, Leaves, asked_for, IsSound}
use narshare.Sync.Engine.Plans.{
  asked_for-Leaves, length-Leaves, IsPlanned-ext, put-AllPlanned, more-AllPlanned, own-Planned,
}

-- What the first ask of the walk is, and what it leaves.
pub record Asked (c d : Catchup) (ask : RangeAsk) : Type 0 where
  pub old : OriginPlan
  pub new : OriginPlan
  pub had : get ask.origin c.origins ≡ some old
  pub picked : pick old ≡ some (ask.after, ask.until, new)
  pub left : d ≡ record { origins = put ask.origin new c.origins; inflight = suc c.inflight }

pub picked-Asked :
    (c d : Catchup) (ask : RangeAsk) (name : Bytes) (p q : OriginPlan) (a u : ℕ)
    → get name c.origins ≡ some p
    → pick p ≡ some (a, u, q)
    → d ≡ record { origins = put name q c.origins; inflight = suc c.inflight }
    → ask ≡ record { origin = name; generation = q.generation; after = a; until = u }
    → Asked c d ask
picked-Asked c d ask name p q a u had picked left e =
    subst (λ y. Asked c d y) (sym e)
      (record { old = p; new = q; had = had; picked = picked; left = left })

pub ask_first-Asked :
    (c d : Catchup) (ask : RangeAsk) (names : List Bytes)
    → ask_first c names ≡ (d, some ask)
    → Asked c d ask
unfolding ask_first
ask_first-Asked c d ask [] h = cc
ask_first-Asked c d ask (name ∷ names) h = elim (Option-cases (get name c.origins)) [
  | inl e ↦ ask_first-Asked c d ask names (rw (ask_first, e) at h)
  | inr (p, e) ↦ elim (Option-cases (pick p)) [
    | inl k ↦ ask_first-Asked c d ask names (rw (ask_first, e, k) at h)
    | inr ((a, u, q), k) ↦
        let r = rw (ask_first, e, k) at h in picked-Asked c d ask name p q a u e k (cc r) (cc r)
  ]
]

-- A reply or a failure changes the plan of its origin, if it still has one.
module _ (e : Engine) (ask : RangeAsk) (rest : List RangeAsk) (l : Leaves ask e.flying rest)
    (g : OriginPlan → OriginPlan)
    (keeps : (p : OriginPlan) (f : ℕ → ℕ)
      → IsPlanned p (λ s. hit ask.after ask.until s + f s)
      → IsPlanned (g p) f) where
  others-Planned :
      (j : Bytes) (p : OriginPlan)
      → same j ask.origin ≡ false
      → IsPlanned p (asked_for j e.flying)
      → IsPlanned p (asked_for j rest)
  others-Planned j p d h =
      IsPlanned-ext p _ _ (λ s. sym (asked_for-Leaves ask e.flying rest l j s ∙ rw d (omega arith)))
        h

  own-Settled :
      (p : OriginPlan)
      → IsPlanned p (asked_for ask.origin e.flying)
      → IsPlanned (g p) (asked_for ask.origin rest)
  own-Settled p h = keeps p (asked_for ask.origin rest) (
      IsPlanned-ext p _ _
        (λ s.
          sym (asked_for-Leaves ask e.flying rest l ask.origin s ∙ rw (same_self ask.origin) refl))
        h)

  pub settle :
      IsSound e → IsSound (record { plan = with_plan (landed e.plan) ask.origin g; flying = rest })
  settle h = elim (Option-cases (get ask.origin e.plan.origins)) [
    | inl n ↦
        rw (with_plan, n)
          (record {
            counted = omega (arith, h.counted, length-Leaves ask e.flying rest l);
            windowed = omega (arith, h.windowed);
            planned = λ j p k. elim (Bool-cases (same j ask.origin)) [
              | inl s ↦ cc (eq_of_same j ask.origin s)
              | inr s ↦ others-Planned j p s (h.planned j p k)
            ];
          })
    | inr (q, n) ↦
        rw (with_plan, n)
          (record {
            counted = omega (arith, h.counted, length-Leaves ask e.flying rest l);
            windowed = omega (arith, h.windowed);
            planned =
                put-AllPlanned e.plan.origins ask.origin (g q) (λ o. asked_for o rest)
                  (own-Settled q (h.planned ask.origin q n))
                  (λ j p s k. others-Planned j p s (h.planned j p k));
          })
  ]

pub next_ask-Asked :
    (order : List Bytes) (c d : Catchup) (ask : RangeAsk)
    → next_ask order c ≡ (d, some ask)
    → Asked c d ask × (c.inflight < engine_window)
unfolding next_ask
next_ask-Asked order c d ask h = elim (Bool-cases (leb engine_window c.inflight)) [
  | inl b ↦ cc (rw (next_ask, b) at h)
  | inr b ↦ (ask_first-Asked c d ask order (rw (next_ask, b) at h), ground arith)
]

pub next_ask-IsSound :
    (e : Engine) (d : Catchup) (ask : RangeAsk)
    → IsSound e
    → Asked e.plan d ask
    → e.plan.inflight < engine_window
    → IsSound (record { plan = d; flying = ask ∷ e.flying })
next_ask-IsSound e d ask h a room = rw a.left (record {
  counted = omega (arith, h.counted);
  windowed = omega (arith, room);
  planned =
      put-AllPlanned e.plan.origins ask.origin a.new (λ o. asked_for o (ask ∷ e.flying))
        (own-Planned ask e.flying a.new (
          pick-IsPlanned a.old a.new (asked_for ask.origin e.flying) ask.after ask.until
            (h.planned ask.origin a.old a.had) a.picked))
        (λ j p s k. more-AllPlanned ask e.flying j p s (h.planned j p k));
})
