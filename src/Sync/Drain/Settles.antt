-- ===== src/Sync/Drain/Settles.antt =====
-- sync.rs: the loop of `drain_applies` ends, and a plan that mirrors the store's clock keeps doing so.
use narshare.Base.{
  ℕ, zero, suc, ◌≤◌, ◌<◌, ◌≡◌, refl, sym, ap, subst, ◌∙◌, inl, inr, false, none, some, List, [],
  ◌∷◌, ◌++◌, length, arith, All, ok, Option-cases,
}
use narshare.Base.Order.{nat_ord, list_ord}
use narshare.Base.Sets.{same_self}
use narshare.Base.Keys.{get, put, get-put}
use narshare.Facts.{Bytes}
use narshare.Wire.{Wire, Event}
use narshare.Store.{Db}
use narshare.Store.Holdings.{IsName}
use narshare.Store.Apply.{clock_at}
use narshare.Index.Messages.{Config, applied}
use narshare.Index.Apply.{apply_suffix, is_unexpected}
use narshare.Sync.Catchup.{
  Catchup, OriginPlan, take_ready, applied as advance, advanced, finished, last_seq, put_plan,
}
use narshare.Sync.Catchup.Pieces.{IsChunk, IsPlanned}
use narshare.Sync.Engine.Sound.{Taken, take_ready-Taken, taken-Planned, last_seq_any, applied_put}
use narshare.Sync.Drain.{Drained, done, gave_up, advanced_by, drain_loop}
use narshare.Sync.Drain.Overlap.{apply_suffix-overlap}
use narshare.Sync.Leases.{Leases}

-- The plan of an origin is as far as the store's clock.
pub record IsMirror (o : Bytes) (f : ℕ → ℕ) (target left : ℕ) (s : Drained) : Type 0 where
  pub plan : OriginPlan
  pub had : get o s.plan.origins ≡ some plan
  pub planned : IsPlanned plan f
  pub level : (clock_at s.db o).seq ≡ plan.cursor
  pub same_generation : plan.generation ≡ (clock_at s.db o).generation
  pub aims : plan.target ≡ target
  pub size : length plan.buffered ≡ left

pub get-advanced :
    (c plan : Catchup) (o : Bytes) (q : OriginPlan) (l : ℕ)
    → plan ≡ put_plan c o q
    → get o (advance plan o l).origins ≡ some (advanced l q)
get-advanced c plan o q l e =
    ap (λ p. get o (advance p o l).origins) e
    ∙ ap (λ (p : Catchup). get o p.origins) (applied_put c o q l)
    ∙ get-put o o (advanced l q) (put o q c.origins)
    ∙ rw (same_self o) refl

not_taken : (c : Catchup) (o : Bytes) → (take_ready c o).1 ≡ none → (take_ready c o).0 ≡ c
unfolding take_ready
not_taken c o n = ground arith

-- The three ways on of the loop.
module _ (c : Config) (w : Wire) (o : Bytes) where
  pub loop_ends :
      (fuel : ℕ) (s : Drained)
      → (take_ready s.plan o).1 ≡ none
      → drain_loop (suc fuel) c w o s ≡ some s
  unfolding drain_loop
  loop_ends fuel s n = rw (drain_loop, n, not_taken s.plan o n) refl

  pub loop_continues :
      (fuel : ℕ) (s : Drained) (g : ℕ) (events : List Event) (r : Db × ℕ)
      → (take_ready s.plan o).1 ≡ some (g, events)
      → done (apply_suffix c w s.db o g events) ≡ some r
      → drain_loop (suc fuel) c w o s
        ≡ drain_loop fuel c w o (advanced_by o s (take_ready s.plan o).0 events r)
  unfolding drain_loop
  loop_continues fuel s g events r n e = rw (drain_loop, n, e) refl

  pub loop_gives_up :
      (fuel : ℕ) (s : Drained) (g : ℕ) (events : List Event)
      → (take_ready s.plan o).1 ≡ some (g, events)
      → done (apply_suffix c w s.db o g events) ≡ none
      → drain_loop (suc fuel) c w o s
        ≡ some (gave_up o (record s { plan = (take_ready s.plan o).0 }))
  unfolding drain_loop
  loop_gives_up fuel s g events n e = rw (drain_loop, n, e) refl

-- The chunks are applied one after the other, each at the clock's generation, and none is refused.
pub data Applies (c : Config) (w : Wire) (o : Bytes)
    : Db → List (ℕ × List Event) → Db → Type 0 where
  none_left : (db : Db) → Applies c w o db [] db
  one_more :
      (db mid next : Db) (after n : ℕ) (events : List Event) (chunks : List (ℕ × List Event))
      → apply_suffix c w db o (clock_at db o).generation events ≡ ok (mid, applied n)
      → Applies c w o mid chunks next
      → Applies c w o db ((after, events) ∷ chunks) next

-- The head of the buffer is beyond what is applied.
abbrev pub IsAhead : ℕ → List (ℕ × List Event) → Type 0
IsAhead n [] = Unit
IsAhead n (row ∷ rest) = n < row.0

-- One chunk of the loop.
module _ (c : Config) (w : Wire) (o : Bytes) (name : IsName o) (known : is_unexpected c o ≡ false)
    (f : ℕ → ℕ) (target : ℕ) where
  abbrev Steps : ℕ → (s : Drained) → Catchup → ℕ → List Event → List (ℕ × List Event) → Type 0
  Steps left s plan g events chunks =
      (r : Db × ℕ) × (fewer : ℕ) × (apply_suffix c w s.db o g events ≡ ok (r.0, applied r.1))
      × (suc fewer ≡ left)
      × (m : IsMirror o f target fewer (advanced_by o s plan events r)) × ((clock_at s.db o).seq
          ≤ (clock_at r.0 o).seq)
      × (after : ℕ) × (chunks ≡ (after, events) ∷ m.plan.buffered)
      × (g ≡ (clock_at s.db o).generation)

  chunk-Steps :
      (left : ℕ) (s : Drained) (plan : Catchup) (g : ℕ) (events : List Event)
      → (m : IsMirror o f target left s) → Taken s.plan plan o g events
      → Steps left s plan g events m.plan.buffered
  chunk-Steps left s plan g events m t =
      let k : m.plan ≡ t.old = cc (sym m.had ∙ t.had) in
      let planned : IsPlanned t.old f = subst (λ p. IsPlanned p f) k m.planned in
      let chunks : All IsChunk ((t.after, events) ∷ t.rest) = rw t.first at planned.chunks in
      let at_cursor : (clock_at s.db o).seq ≡ t.old.cursor = m.level ∙ ap (λ p. p.cursor) k in
      let generation : t.old.generation ≡ (clock_at s.db o).generation =
        sym (ap (λ p. p.generation) k) ∙ m.same_generation in
      let a =
        apply_suffix-overlap c w s.db o name known g t.after (last_seq t.after events) events
          (t.stamp ∙ generation) chunks.0.0 (omega (arith, t.starts)) in
      (
        (a.0, a.1),
        length t.rest,
        a.2,
        sym (ap length t.first) ∙ sym (ap (λ p. length p.buffered) k) ∙ m.size,
        record {
          plan = advanced (last_seq 0 events) (record t.old { buffered = t.rest });
          had = get-advanced s.plan plan o (record t.old { buffered = t.rest }) _ t.left;
          planned = taken-Planned t.old f t.after events t.rest planned t.first t.starts;
          level = a.3 ∙ rw (last_seq_any t.after events chunks.0.1) (omega (arith, at_cursor));
          same_generation = generation ∙ sym a.4;
          aims = sym (ap (λ p. p.target) k) ∙ m.aims;
          size = refl;
        },
        omega (arith, a.3),
        t.after,
        ap (λ p. p.buffered) k ∙ t.first,
        t.stamp ∙ generation,
      )

  abbrev Ends : (s r : Drained) → List (ℕ × List Event) → Type 0
  Ends s r chunks =
      (left : ℕ) × (m : IsMirror o f target left r) × ((take_ready r.plan o).1 ≡ none)
      × ((clock_at s.db o).seq ≤ (clock_at r.db o).seq)
      × (r.leases ≡ s.leases)
      × (taken : List (ℕ × List Event)) × (chunks ≡ taken ++ m.plan.buffered)
      × Applies c w o s.db taken r.db

  -- With more fuel than there are chunks the loop ends, with the head of the buffer not ready.
  pub drain_loop-Ends :
      (fuel left : ℕ) (s : Drained)
      → left < fuel
      → (m : IsMirror o f target left s)
      → (r : Drained) × (drain_loop fuel c w o s ≡ some r) × Ends s r m.plan.buffered
  drain_loop-Ends zero left s lt m = absurd (omega arith)
  drain_loop-Ends (suc fuel) left s lt m = elim (Option-cases (take_ready s.plan o).1) [
    | inl n ↦
        (s, loop_ends c w o fuel s n, (left, m, n, omega arith, refl, [], refl, none_left s.db))
    | inr ((g, events), n) ↦
        let (r1, fewer, ran, less, mid, le, after, first, gen) =
          chunk-Steps left s (take_ready s.plan o).0 g events m (
            take_ready-Taken s.plan (take_ready s.plan o).0 o g events
              (ap (λ x. ((take_ready s.plan o).0, x)) n)) in
        let (r, e, (left2, m2, head, le2, leases, taken, split, all)) =
          drain_loop-Ends fuel fewer (advanced_by o s (take_ready s.plan o).0 events r1)
            (omega (arith, less)) mid in
        (
          r,
          loop_continues c w o fuel s g events r1 n (ap done ran) ∙ e,
          (
            left2,
            m2,
            head,
            omega (arith, le, le2),
            leases,
            (after, events) ∷ taken,
            first ∙ ap (◌∷◌ (after, events)) split,
            one_more s.db r1.0 r.db after r1.1 events taken
                (ap (λ k. apply_suffix c w s.db o k events) (sym gen) ∙ ran) all,
          ),
        )
  ]

abbrev pub Gone : Bytes → ℕ → Drained → Type 0
Gone o target r =
    (get o r.plan.origins ≡ none) × (get o r.leases ≡ none) × (target ≤ (clock_at r.db o).seq)

-- The origin stays enrolled, level with the clock, with what is left of the buffer.
abbrev pub Stays : Bytes → Leases → List (ℕ × List Event) → Drained → Type 0
Stays o leases left r =
    (p : OriginPlan) × (get o r.plan.origins ≡ some p)
    × (p.cursor ≡ (clock_at r.db o).seq)
    × (p.buffered ≡ left)
    × (finished r.plan o ≡ false)
    × (r.leases ≡ leases)
