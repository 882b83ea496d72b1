-- ===== src/Sync/Engine/Sound.antt =====
-- sync.rs: every step of the engine keeps the pieces of all plans.
use narshare.Base.{
  ℕ, ◌+◌, ◌-◌, ◌≤◌, ◌<◌, ◌≡◌, refl, sym, ap, subst, ◌∙◌, inl, inr, ◌⊎◌, true, Option, none, some,
  List, [], ◌∷◌, ltb, ◌==◌, min, max, arith, All, Bool-cases, Option-cases,
}
use narshare.Base.Order.{nat_ord, list_ord}
use narshare.Base.Sets.{same_self}
use narshare.Base.Keys.{put, get, get-put}
use narshare.Facts.{Bytes}
use narshare.Wire.{Event}
use narshare.Sync.Catchup.{
  Catchup, OriginPlan, enroll, strike, struck, take_ready, applied, advanced, drop_origin, last_seq,
  chunk_events, u64_size, landed, put_plan, with_plan, enroll_plan, or_insert,
}
use narshare.Index.Maintain.{journal_backstop}
use narshare.Sync.Catchup.Pieces.{IsChunk, IsPlanned}
use narshare.Sync.Catchup.Cover.{advanced-IsPlanned, new_plan-IsPlanned, raised-IsPlanned}
use narshare.Sync.Engine.{Engine, asked_for, IsSound}
use narshare.Sync.Engine.Plans.{put-AllPlanned, delete-AllPlanned}

pub strike_lem :
    (c : Catchup) (o : Bytes) (a u : ℕ) → (strike c o a u).0 ≡ with_plan (landed c) o (struck a u)
unfolding strike
strike_lem c o a u = elim (Option-cases (get o c.origins)) [
  | inl n ↦ rw (strike, with_plan, n) refl
  | inr (q, n) ↦ rw (strike, with_plan, n) refl
]

-- The chunk that is taken out.
pub record Taken (c d : Catchup) (o : Bytes) (g : ℕ) (events : List Event) : Type 0 where
  pub old : OriginPlan
  pub after : ℕ
  pub rest : List (ℕ × List Event)
  pub had : get o c.origins ≡ some old
  pub first : old.buffered ≡ (after, events) ∷ rest
  pub starts : after ≤ old.cursor
  pub stamp : g ≡ old.generation
  pub left : d ≡ put_plan c o (record old { buffered = rest })

Rows-cases :
    (rows : List (ℕ × List Event))
    → (rows ≡ []) ⊎ ((row : ℕ × List Event) × (rest : List (ℕ × List Event)) × (rows ≡ row ∷ rest))
Rows-cases [] = inl refl
Rows-cases (row ∷ rest) = inr (row, rest, refl)

pub take_ready-Taken :
    (c d : Catchup) (o : Bytes) (g : ℕ) (events : List Event)
    → take_ready c o ≡ (d, some (g, events))
    → Taken c d o g events
unfolding take_ready
take_ready-Taken c d o g events h = elim (Option-cases (get o c.origins)) [
  | inl n ↦ cc (rw (take_ready, n) at h)
  | inr (p, n) ↦ elim (Rows-cases p.buffered) [
    | inl k ↦ cc (rw (take_ready, n, k) at h)
    | inr (row, rest, k) ↦ elim (Bool-cases (ltb p.cursor row.0)) [
      | inl b ↦ cc (rw (take_ready, n, k, b) at h)
      | inr b ↦
          let r = rw (take_ready, n, k, b) at h in
          let ev : row.1 ≡ events = cc r in
          record {
            old = p;
            after = row.0;
            rest = rest;
            had = n;
            first = subst (λ x. p.buffered ≡ (row.0, x) ∷ rest) ev k;
            starts = ground arith;
            stamp = cc r;
            left = sym (ap (λ (x : Catchup × Option (ℕ × List Event)). x.0) r);
          }
    ]
  ]
]

pub last_seq_any :
    (a : ℕ) (events : List Event) → a < last_seq a events → last_seq 0 events ≡ last_seq a events
last_seq_any a [] lt = absurd (omega arith)
last_seq_any a (e ∷ events) lt = refl

pub taken-Planned :
    (p : OriginPlan) (f : ℕ → ℕ) (a : ℕ) (events : List Event) (rest : List (ℕ × List Event))
    → IsPlanned p f
    → p.buffered ≡ (a, events) ∷ rest
    → a ≤ p.cursor
    → IsPlanned (advanced (last_seq 0 events) (record p { buffered = rest })) f
taken-Planned p f a events rest h e le =
    let all : All IsChunk ((a, events) ∷ rest) = rw e at h.chunks in
    rw (last_seq_any a events all.0.1) (advanced-IsPlanned p f a events rest h e le)

pub applied_put :
    (c : Catchup) (o : Bytes) (q : OriginPlan) (l : ℕ)
    → applied (put_plan c o q) o l ≡ put_plan (put_plan c o q) o (advanced l q)
unfolding applied
applied_put c o q l = rw (applied, with_plan, get-put o o q c.origins, same_self o) refl

pub applied-IsSound :
    (e : Engine) (d : Catchup) (o : Bytes) (g : ℕ) (events : List Event)
    → IsSound e
    → Taken e.plan d o g events
    → IsSound (record { plan = applied d o (last_seq 0 events); flying = e.flying })
unfolding applied
applied-IsSound e d o g events h t =
    let q : OriginPlan = record t.old { buffered = t.rest } in
    subst (λ x. IsSound (record { plan = applied x o (last_seq 0 events); flying = e.flying }))
      (sym t.left)
      (rw (applied_put e.plan o q (last_seq 0 events)) (record {
        counted = h.counted;
        windowed = h.windowed;
        planned =
            put-AllPlanned (put o q e.plan.origins) o _ (λ j. asked_for j e.flying)
              (taken-Planned t.old _ t.after events t.rest (h.planned o t.old t.had) t.first
                t.starts)
              (λ j p s k. h.planned j p (sym (rw s at (get-put o j q e.plan.origins)) ∙ k));
      }))

pub drop-IsSound :
    (e : Engine) (o : Bytes)
    → IsSound e
    → IsSound (record { plan = drop_origin e.plan o; flying = e.flying })
drop-IsSound e o h = record {
  counted = h.counted;
  windowed = h.windowed;
  planned = delete-AllPlanned e.plan.origins o (λ j. asked_for j e.flying) h.planned;
}

==_self : (a : ℕ) → (a == a) ≡ true
==_self a = ground arith

enroll_plan-IsSound :
    (e : Engine) (o : Bytes) (p : OriginPlan)
    → IsSound e
    → IsPlanned p (asked_for o e.flying)
    → IsSound (record { plan = (enroll_plan e.plan o p).0; flying = e.flying })
enroll_plan-IsSound e o p h k =
    elim (Bool-cases (ltb (min (p.cursor + journal_backstop) (u64_size - 1)) p.target)) [
      | inl b ↦ rw (enroll_plan, b) (drop-IsSound e o h)
      | inr b ↦
          rw (enroll_plan, b)
            (record {
              counted = h.counted;
              windowed = h.windowed;
              planned =
                  put-AllPlanned e.plan.origins o p (λ j. asked_for j e.flying) k
                    (λ j q s r. h.planned j q r);
            })
    ]

pub enroll-IsSound :
    (e : Engine) (o : Bytes) (g cursor target : ℕ)
    → IsSound e
    → (get o e.plan.origins ≡ none → (s : ℕ) → asked_for o e.flying s ≡ 0)
    → cursor ≤ target
    → target + chunk_events < u64_size
    → IsSound (record { plan = (enroll e.plan o g cursor target).0; flying = e.flying })
unfolding enroll
enroll-IsSound e o g cursor target h none_left le small =
    elim (Option-cases (get o e.plan.origins)) [
      | inl n ↦
          rw (enroll, n, or_insert, ==_self g)
            (enroll_plan-IsSound e o _ h (
              new_plan-IsPlanned g cursor (max cursor target) (asked_for o e.flying) (none_left n)
                (omega arith)))
      | inr (q, n) ↦ elim (Bool-cases (q.generation == g)) [
        | inl b ↦
            rw (enroll, n, or_insert, b)
              (enroll_plan-IsSound e o _ h (raised-IsPlanned q target _ (h.planned o q n) small))
        | inr b ↦ rw (enroll, n, or_insert, b) (drop-IsSound e o h)
      ]
    ]
