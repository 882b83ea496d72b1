-- ===== src/Sync/Loop/Sound.antt =====
-- sync.rs: the handlers of `engine_loop` keep the engine sound.
use narshare.Base.{
  ℕ, zero, suc, ◌+◌, ◌≤◌, ◌<◌, ◌≡◌, refl, sym, ap, subst, ◌∙◌, inl, inr, true, ◌&&◌, Option, none,
  some, List, ltb, ◌==◌, is_some, arith, Bool-cases, Option-cases, ok, err,
}
use narshare.Base.Order.{nat_ord, list_ord}
use narshare.Base.Keys.{get, put, get-put, get-delete}
use narshare.Facts.{Bytes}
use narshare.Wire.{Wire, Event}
use narshare.Store.{Clock, clock}
use narshare.Index.Messages.{Config, RangeAsk, RangeReply}
use narshare.Index.Apply.{apply_suffix}
use narshare.Sync.Catchup.{
  Catchup, OriginPlan, take_ready, last_seq, chunk_events, u64_size, finished, strike, drop_origin,
}
use narshare.Sync.Catchup.Pieces.{IsChunk}
use narshare.Sync.Engine.{
  Engine, IsSound, Leaves, asked_for, enrolls, completes, strikes, applies, drops,
}
use narshare.Sync.Engine.Sound.{Taken, take_ready-Taken}
use narshare.Sync.Engine.Steps.{step-IsSound}
use narshare.Sync.Leases.{Enroll}
use narshare.Sync.Drain.{Drained, done, advanced_by, gave_up, drain_loop, drain_applies}
use narshare.Sync.Drain.Settles.{loop_ends, loop_continues, loop_gives_up}
use narshare.Sync.Drain.Ends.{buffered_of, buffered_of-complete, drain_applies-ends}
use narshare.Sync.Loop.{
  on_enroll, on_done, on_failure, is_good, enroll_at, not_enrolled, with_reply,
}

-- The engine that a state is, with the asks that are in flight.
abbrev pub engine_of : Drained → List RangeAsk → Engine
engine_of s flying = record { plan = s.plan; flying = flying }

-- An origin whose head was taken out and is then dropped.
dropped-IsSound :
    (c d : Catchup) (o : Bytes) (g : ℕ) (events : List Event) (flying : List RangeAsk)
    → IsSound (record { plan = c; flying = flying })
    → Taken c d o g events
    → IsSound (record { plan = drop_origin d o; flying = flying })
dropped-IsSound c d o g events flying h t =
    let q : OriginPlan = record t.old { buffered = t.rest } in
    subst (λ x. IsSound (record { plan = drop_origin x o; flying = flying })) (sym t.left)
      (record {
        counted = h.counted;
        windowed = h.windowed;
        planned = λ j p k.
            h.planned j p
              (ground (arith, get-delete o j (put o q c.origins), get-put o j q c.origins));
      })

gave_up-IsSound :
    (o : Bytes) (flying : List RangeAsk) (s : Drained)
    → IsSound (engine_of s flying)
    → IsSound (engine_of (gave_up o s) flying)
gave_up-IsSound o flying s h =
    step-IsSound (engine_of s flying) _ (drops (engine_of s flying) o) tt h

module _ (c : Config) (w : Wire) (o : Bytes) (flying : List RangeAsk) where
  drain_loop-IsSound :
      (fuel : ℕ) (s r : Drained)
      → IsSound (engine_of s flying)
      → drain_loop fuel c w o s ≡ some r
      → IsSound (engine_of r flying)
  drain_loop-IsSound zero s r h e = unfold drain_loop in cc
  drain_loop-IsSound (suc fuel) s r h e = elim (Option-cases (take_ready s.plan o).1) [
    | inl n ↦
        let k : s ≡ r = cc (loop_ends c w o fuel s n) in
        subst (λ x. IsSound (engine_of x flying)) k h
    | inr ((g, events), n) ↦
        let t : take_ready s.plan o ≡ ((take_ready s.plan o).0, some (g, events)) =
          ap (λ x. ((take_ready s.plan o).0, x)) n in
        elim (Option-cases (done (apply_suffix c w s.db o g events))) [
          | inl d ↦
              let k : gave_up o (record s { plan = (take_ready s.plan o).0 }) ≡ r =
                cc (loop_gives_up c w o fuel s g events n d) in
              subst (λ x. IsSound (engine_of x flying)) k
                (dropped-IsSound s.plan (take_ready s.plan o).0 o g events flying h
                  (take_ready-Taken s.plan _ o g events t))
          | inr (q, d) ↦
              drain_loop-IsSound fuel (advanced_by o s (take_ready s.plan o).0 events q) r
                (step-IsSound (engine_of s flying) _ (applies (engine_of s flying) o _ g events t)
                  tt h)
                (sym (loop_continues c w o fuel s g events q n d) ∙ e)
        ]
  ]

  drain_applies-IsSound :
      (fuel : ℕ) (s r : Drained)
      → IsSound (engine_of s flying)
      → drain_applies fuel c w o s ≡ some r
      → IsSound (engine_of r flying)
  unfolding drain_applies
  drain_applies-IsSound fuel s r h e = elim (Option-cases (drain_loop fuel c w o s)) [
    | inl n ↦ cc (rw (drain_applies, n) at e)
    | inr (d, n) ↦
        let k = drain_loop-IsSound fuel s d h n in
        elim (Bool-cases (finished d.plan o)) [
          | inl f ↦
              let q : gave_up o d ≡ r = cc (rw (drain_applies, n, f) at e) in
              subst (λ x. IsSound (engine_of x flying)) q (gave_up-IsSound o flying d k)
          | inr f ↦
              let q : d ≡ r = cc (rw (drain_applies, n, f) at e) in
              subst (λ x. IsSound (engine_of x flying)) q k
        ]
  ]

failure-IsSound :
    (s : Drained) (ask : RangeAsk) (flying rest : List RangeAsk)
    → Leaves ask flying rest
    → IsSound (engine_of s flying)
    → IsSound (engine_of (on_failure s ask) rest)
failure-IsSound s ask flying rest l h =
    let k = step-IsSound (engine_of s flying) _ (strikes (engine_of s flying) ask rest l) tt h in
    elim (Bool-cases (strike s.plan ask.origin ask.after ask.until).1) [
      | inl b ↦ rw b k
      | inr b ↦ rw b (
          gave_up-IsSound ask.origin rest
            (record s { plan = (strike s.plan ask.origin ask.after ask.until).0 }) k)
    ]

-- Whatever reply or failure the loop takes, its handler ends where it has fuel for one chunk more
-- than are buffered of the origin, and where the engine was sound it is sound again: the count of asks
-- in flight is right and within the window, and no number of an origin that is taken up and not
-- applied is lost or in two places. A good reply has to be a run of events within what was asked.
pub on_done-IsSound :
    (fuel : ℕ) (c : Config) (w : Wire) (s : Drained) (ask : RangeAsk) (reply : Option RangeReply)
    (flying rest : List RangeAsk)
    → Leaves ask flying rest
    → IsSound (engine_of s flying)
    → ((a : RangeReply)
        → reply ≡ some a
        → is_good ask a ≡ true
        → IsChunk (ask.after, a.events) × (last_seq ask.after a.events ≤ ask.until))
    → buffered_of s.plan ask.origin + 1 < fuel
    → (r : Drained) × (on_done fuel c w s ask reply ≡ some r) × IsSound (engine_of r rest)
unfolding on_done
on_done-IsSound fuel c w s ask none flying rest l h good lt =
    (on_failure s ask, refl, failure-IsSound s ask flying rest l h)
on_done-IsSound fuel c w s ask (some a) flying rest l h good lt =
    elim (Bool-cases (is_good ask a)) [
      | inl b ↦
          let g = good a refl b in
          let (r, e) = drain_applies-ends c w ask.origin fuel (with_reply s ask a) (
            omega
              (arith, lt, buffered_of-complete s.plan ask.origin ask.after ask.until a.events)) in
          (
            r,
            rw b e,
            drain_applies-IsSound c w ask.origin rest fuel (with_reply s ask a) r
                (step-IsSound (engine_of s flying) _
                  (completes (engine_of s flying) ask rest a.events l) g h)
                e,
          )
      | inr b ↦ (on_failure s ask, rw b refl, failure-IsSound s ask flying rest l h)
    ]

not_enrolled-IsSound :
    (s : Drained) (e : Enroll) (flying : List RangeAsk)
    → IsSound (engine_of s flying)
    → IsSound (engine_of (not_enrolled s e) flying)
not_enrolled-IsSound s e flying h = elim (Bool-cases (is_some (get e.origin s.plan.origins))) [
  | inl b ↦ rw b h
  | inr b ↦ rw b h
]

enroll_at-IsSound :
    (s : Drained) (e : Enroll) (k : Clock) (flying : List RangeAsk)
    → IsSound (engine_of s flying)
    → (get e.origin s.plan.origins ≡ none → (n : ℕ) → asked_for e.origin flying n ≡ 0)
    → e.target + chunk_events < u64_size
    → IsSound (engine_of (enroll_at s e k) flying)
enroll_at-IsSound s e k flying h free small =
    elim (Bool-cases ((k.generation == e.generation) && ltb k.seq e.target)) [
      | inl b ↦ rw b (
          step-IsSound (engine_of s flying) _
            (enrolls (engine_of s flying) e.origin e.generation k.seq e.target (ground arith))
            (free, small) h)
      | inr b ↦ rw b (not_enrolled-IsSound s e flying h)
    ]

-- An enrolment keeps the engine sound, whether it begins a plan, raises its target, cancels it or
-- does nothing. An origin that is enrolled anew has no ask in flight, and the target leaves room for
-- one more chunk below 64 bits.
pub on_enroll-IsSound :
    (s : Drained) (e : Enroll) (flying : List RangeAsk)
    → IsSound (engine_of s flying)
    → (get e.origin s.plan.origins ≡ none → (n : ℕ) → asked_for e.origin flying n ≡ 0)
    → e.target + chunk_events < u64_size
    → IsSound (engine_of (on_enroll s e) flying)
unfolding on_enroll
on_enroll-IsSound s e flying h free small =
    elim (clock s.db e.origin)
      as (λ x.
        IsSound (engine_of (elim x [ ok k ↦ enroll_at s e k | err y ↦ not_enrolled s e ]) flying)) [
          | ok k ↦ enroll_at-IsSound s e k flying h free small
          | err y ↦ not_enrolled-IsSound s e flying h
        ]
