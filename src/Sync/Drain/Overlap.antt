-- ===== src/Sync/Drain/Overlap.antt =====
-- index.rs: `apply_suffix` of a run that overlaps what the node has.
use narshare.Base.{
  ℕ, ◌≤◌, ◌≡◌, refl, ap, subst, ◌∙◌, inl, inr, true, false, some, List, [], ◌∷◌, max, length,
  is_empty, arith, Bool-cases, ok, low_or_high,
}
use narshare.Base.Order.{nat_ord, list_ord}
use narshare.Base.Sets.{same_self}
use narshare.Facts.{Bytes}
use narshare.Wire.{Wire, Event}
use narshare.Store.{Db, Clock}
use narshare.Store.Journal.{Row, IsRun}
use narshare.Store.Holdings.{IsName}
use narshare.Store.Apply.{clock_at, applied as commit, applied-clock}
use narshare.Index.Messages.{Config, applied}
use narshare.Index.Apply.{Plan, collect, apply_suffix, is_unexpected}
use narshare.Index.Apply.Collect.{EventRun, collect-EventRun, collect_old, collect-IsRun}
use narshare.Index.Apply.Replay.{outcome, committed, apply_suffix_lem}

EventRun-le : (a b : ℕ) (events : List Event) → EventRun a events b → a ≤ b
EventRun-le a b [] h = omega arith
EventRun-le a b (e ∷ events) h = omega (arith, EventRun-le e.seq b events h.1)

empty_run : (a b : ℕ) (rows : List Row) → IsRun a rows b → is_empty rows ≡ true → a ≡ b
empty_run a b [] h e = h
empty_run a b (row ∷ rows) h e = cc

-- A run that starts at or before what the node has is collected up to its end.
collect_overlap :
    (w : Wire) (seq a b : ℕ) (events : List Event)
    → EventRun a events b
    → a ≤ seq
    → (p : Plan) × (collect w seq events ≡ some p) × (p.seq ≡ max seq b)
collect_overlap w seq a b [] run le = unfold collect in (_, refl, omega arith)
collect_overlap w seq a b (e ∷ events) run le = elim (low_or_high e.seq seq) [
  | inl old ↦
      let r = collect_overlap w seq e.seq b events run.1 old in
      (r.0, collect_old w seq e events old ∙ r.1, r.2)
  | inr new ↦
      let s : a ≡ seq = omega arith in
      (
        _,
        collect-EventRun w seq b (e ∷ events) (subst (λ n. EventRun n (e ∷ events) b) s run),
        omega (arith, EventRun-le e.seq b events run.1),
      )
]

-- Such a run is applied: the clock moves to its end, unless it was past it, in the same generation.
module _ (c : Config) (w : Wire) (db : Db) (o : Bytes) (name : IsName o)
    (known : is_unexpected c o ≡ false) where
  abbrev Advances : ℕ → ℕ → List Event → Type 0
  Advances generation b events =
      (next : Db) × (n : ℕ) × (apply_suffix c w db o generation events ≡ ok (next, applied n))
      × ((clock_at next o).seq ≡ max (clock_at db o).seq b)
      × ((clock_at next o).generation ≡ (clock_at db o).generation)

  outcome_current :
      (generation : ℕ) (events : List Event)
      → generation ≡ (clock_at db o).generation
      → outcome w db o generation events
        ≡ committed w db o generation (collect w (clock_at db o).seq events)
  outcome_current generation events g = rw g (ground arith)

  clock_after :
      (generation : ℕ) (p : Plan)
      → clock_at (commit w db o (generation, p.seq) p.journal p.holds p.attests) o
        ≡ record { generation = generation; seq = p.seq; tail_seq = (clock_at db o).tail_seq }
  clock_after generation p =
      applied-clock w db o (generation, p.seq) p.journal p.holds p.attests o ∙ rw (same_self o) refl

  committed-Advances :
      (generation b : ℕ) (events : List Event) (p : Plan)
      → generation ≡ (clock_at db o).generation
      → collect w (clock_at db o).seq events ≡ some p
      → p.seq ≡ max (clock_at db o).seq b
      → Advances generation b events
  committed-Advances generation b events p g e m = elim (Bool-cases (is_empty p.journal)) [
    | inl k ↦ (
      db,
      0,
      apply_suffix_lem c w db o generation events name known
          ∙ ap ok (outcome_current generation events g ∙ rw (e, k) refl),
      empty_run _ _ p.journal (collect-IsRun w (clock_at db o).seq events p e) k ∙ m,
      refl,
    )
    | inr k ↦
        let r = clock_after generation p in
        (
          commit w db o (generation, p.seq) p.journal p.holds p.attests,
          length p.journal,
          apply_suffix_lem c w db o generation events name known
              ∙ ap ok (outcome_current generation events g ∙ rw (e, k) refl),
          ap (λ (k : Clock). k.seq) r ∙ m,
          ap (λ (k : Clock). k.generation) r ∙ g,
        )
  ]

  pub apply_suffix-overlap :
      (generation a b : ℕ) (events : List Event)
      → generation ≡ (clock_at db o).generation
      → EventRun a events b
      → a ≤ (clock_at db o).seq
      → Advances generation b events
  apply_suffix-overlap generation a b events g run le =
      let r = collect_overlap w (clock_at db o).seq a b events run le in
      committed-Advances generation b events r.0 g r.1 r.2
