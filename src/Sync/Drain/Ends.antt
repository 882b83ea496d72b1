-- ===== src/Sync/Drain/Ends.antt =====
-- sync.rs: the loop of `drain_applies` ends, whatever the store answers.
use narshare.Base.{
  ℕ, zero, suc, ◌≤◌, ◌<◌, ◌≡◌, refl, sym, ap, ◌∙◌, inl, inr, Option, none, some, List, [], ◌∷◌,
  length, arith, Bool-cases, Option-cases, is_empty,
}
use narshare.Base.Order.{nat_ord, list_ord}
use narshare.Base.Sets.{same_self}
use narshare.Base.Keys.{get, put, get-put}
use narshare.Facts.{Bytes}
use narshare.Wire.{Wire, Event}
use narshare.Store.{Db}
use narshare.Index.Messages.{Config}
use narshare.Index.Apply.{apply_suffix}
use narshare.Sync.Catchup.{
  Catchup, OriginPlan, take_ready, complete, complete_plan, landed, with_plan,
}
use narshare.Sync.Engine.Sound.{Taken, take_ready-Taken}
use narshare.Sync.Drain.{Drained, done, gave_up, close, drain_loop, drain_applies, advanced_by}
use narshare.Sync.Drain.Settles.{get-advanced, loop_ends, loop_continues, loop_gives_up}

abbrev chunks_of : Option OriginPlan → ℕ
chunks_of none = 0
chunks_of (some p) = length p.buffered

-- How many chunks of the origin are buffered.
abbrev pub buffered_of : Catchup → Bytes → ℕ
buffered_of c o = chunks_of (get o c.origins)

length-put :
    (after : ℕ) (events : List Event) (rows : List (ℕ × List Event))
    → length (put after events rows) ≤ suc (length rows)
unfolding put
length-put after events [] = omega arith
length-put after events (row ∷ rows) = ground (arith, length-put after events rows)

length-complete_plan :
    (a u : ℕ) (events : List Event) (p : OriginPlan)
    → length (complete_plan a u events p).buffered ≤ suc (length p.buffered)
unfolding complete_plan
length-complete_plan a u events p = elim (Bool-cases (is_empty events)) [
  | inl b ↦ rw (b, complete_plan) (omega arith)
  | inr b ↦ rw (b, complete_plan) (length-put a events p.buffered)
]

complete_unknown :
    (c : Catchup) (o : Bytes) (a u : ℕ) (events : List Event)
    → get o c.origins ≡ none
    → complete c o a u events ≡ landed c
unfolding complete
complete_unknown c o a u events n = rw (complete, with_plan, n) refl

complete_known :
    (c : Catchup) (o : Bytes) (a u : ℕ) (events : List Event) (p : OriginPlan)
    → get o c.origins ≡ some p
    → get o (complete c o a u events).origins ≡ some (complete_plan a u events p)
unfolding complete
complete_known c o a u events p n = rw (complete, with_plan, n, get-put, same_self o) refl

-- A reply buffers one chunk at most.
pub buffered_of-complete :
    (c : Catchup) (o : Bytes) (a u : ℕ) (events : List Event)
    → buffered_of (complete c o a u events) o ≤ suc (buffered_of c o)
buffered_of-complete c o a u events = elim (Option-cases (get o c.origins)) [
  | inl n ↦
      let k = ap (λ x. buffered_of x o) (complete_unknown c o a u events n) in omega (arith, k)
  | inr (p, n) ↦
      let new = ap chunks_of (complete_known c o a u events p n) in
      let old : buffered_of c o ≡ length p.buffered = ap chunks_of n in
      omega (arith, new, old, length-complete_plan a u events p)
]

module _ (c : Config) (w : Wire) (o : Bytes) where
  -- A chunk that is taken out is gone from the buffer.
  buffered_of-advanced :
      (s : Drained) (g : ℕ) (events : List Event) (r : Db × ℕ)
      → Taken s.plan (take_ready s.plan o).0 o g events
      → suc (buffered_of (advanced_by o s (take_ready s.plan o).0 events r).plan o)
        ≡ buffered_of s.plan o
  buffered_of-advanced s g events r t =
      ap (λ x. suc (chunks_of x))
        (get-advanced s.plan (take_ready s.plan o).0 o (record t.old { buffered = t.rest }) _
          t.left)
      ∙ sym (ap length t.first)
      ∙ sym (ap chunks_of t.had)

  drain_loop-ends :
      (fuel : ℕ) (s : Drained)
      → buffered_of s.plan o < fuel
      → (r : Drained) × (drain_loop fuel c w o s ≡ some r)
  drain_loop-ends zero s lt = absurd (omega arith)
  drain_loop-ends (suc fuel) s lt = elim (Option-cases (take_ready s.plan o).1) [
    | inl n ↦ (s, loop_ends c w o fuel s n)
    | inr ((g, events), n) ↦ elim (Option-cases (done (apply_suffix c w s.db o g events))) [
      | inl d ↦ (
        gave_up o (record s { plan = (take_ready s.plan o).0 }),
        loop_gives_up c w o fuel s g events n d,
      )
      | inr (q, d) ↦
          let t =
            take_ready-Taken s.plan (take_ready s.plan o).0 o g events
              (ap (λ x. ((take_ready s.plan o).0, x)) n) in
          let rest =
            drain_loop-ends fuel (advanced_by o s (take_ready s.plan o).0 events q)
              (omega (arith, lt, buffered_of-advanced s g events q t)) in
          (rest.0, loop_continues c w o fuel s g events q n d ∙ rest.1)
    ]
  ]

  pub drain_applies-ends :
      (fuel : ℕ) (s : Drained)
      → buffered_of s.plan o < fuel
      → (r : Drained) × (drain_applies fuel c w o s ≡ some r)
  unfolding drain_applies
  drain_applies-ends fuel s lt =
      let r = drain_loop-ends fuel s lt in (close o r.0, rw (drain_applies, r.1) refl)
