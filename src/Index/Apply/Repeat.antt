-- ===== src/Index/Apply/Repeat.antt =====
-- index.rs: `apply_suffix` repeated, its invariants, and a run that connects.
use narshare.Base.{
  ℕ, ◌≡◌, refl, sym, ap, subst, ◌∙◌, inl, inr, Option, none, some, List, arith, length, is_empty,
  Bool-cases, ok,
}
use narshare.Base.Order.{nat_ord, list_ord}
use narshare.Base.Sets.{same_self}
use narshare.Facts.{Bytes}
use narshare.Wire.{Wire, Event}
use narshare.Store.{Db}
use narshare.Store.Holdings.{IsName, IsMirrored}
use narshare.Store.Apply.{
  clock_at, HasRuns, applied as commit, applied-clock, applied-HasRuns, applied-IsMirrored,
}
use narshare.Index.Messages.{Config, Applied, applied, need_snapshot}
use narshare.Index.Apply.{Plan, collect, apply_suffix, is_unexpected}
use narshare.Index.Apply.Collect.{collect-IsRun, collect_again}
use narshare.Index.Apply.Replay.{
  outcome, committed, apply_suffix_lem, apply_suffix_refused, is_old, is_regenerated,
}

-- What `apply_suffix` can leave: the store as it was, or one commit of a continued journal.
data Left (w : Wire) (db : Db) (origin : Bytes) (generation : ℕ) (events : List Event)
    : Db × Applied → Type 0 where
  same_db :
      outcome w db origin generation events ≡ (db, applied 0)
      → Left w db origin generation events (db, applied 0)
  no_db : Left w db origin generation events (db, need_snapshot)
  commits :
      (p : Plan)
      → collect w (clock_at db origin).seq events ≡ some p
      → Left w db origin generation events (
        commit w db origin (generation, p.seq) p.journal p.holds p.attests,
        applied (length p.journal),
      )

committed-Left :
    (w : Wire) (db : Db) (origin : Bytes) (generation : ℕ) (events : List Event) (p : Option Plan)
    → collect w (clock_at db origin).seq events ≡ p
    → outcome w db origin generation events ≡ committed w db origin generation p
    → Left w db origin generation events (committed w db origin generation p)
committed-Left w db origin generation events none e o = no_db
committed-Left w db origin generation events (some p) e o = elim (Bool-cases (is_empty p.journal)) [
  | inl h ↦ rw h (same_db (rw h at o))
  | inr h ↦ rw h (commits p e)
]

outcome-Left :
    (w : Wire) (db : Db) (origin : Bytes) (generation : ℕ) (events : List Event)
    → Left w db origin generation events (outcome w db origin generation events)
outcome-Left w db origin generation events =
    elim (Bool-cases (is_old (clock_at db origin) generation)) [
      | inl h ↦ rw h (same_db (rw h refl))
      | inr h ↦ elim (Bool-cases (is_regenerated (clock_at db origin) generation)) [
        | inl k ↦ rw (h, k) no_db
        | inr k ↦
            rw (h, k)
              (committed-Left w db origin generation events
                (collect w (clock_at db origin).seq events) refl (rw (h, k) refl))
      ]
    ]

commit_again :
    (w : Wire) (db : Db) (origin : Bytes) (generation : ℕ) (events : List Event) (p : Plan)
    → collect w (clock_at db origin).seq events ≡ some p
    → (next : Db)
    → clock_at next origin
      ≡ record { generation = generation; seq = p.seq; tail_seq = (clock_at db origin).tail_seq }
    → outcome w next origin generation events ≡ (next, applied 0)
commit_again w db origin generation events p e next k =
    rw (k, collect_again w (clock_at db origin).seq events p e) (ground arith)

Left-again :
    (w : Wire) (db : Db) (origin : Bytes) (generation : ℕ) (events : List Event) (r : Db × Applied)
    → Left w db origin generation events r
    → (next : Db) (n : ℕ) → r ≡ (next, applied n)
    → outcome w next origin generation events ≡ (next, applied 0)
Left-again w db origin generation events r (same_db o) next n e =
    let k : db ≡ next = ap (λ (q : Db × Applied). q.0) e in rw k at o
Left-again w db origin generation events r no_db next n e = cc
Left-again w db origin generation events r (commits p h) next n e =
    let k : commit w db origin (generation, p.seq) p.journal p.holds p.attests ≡ next =
      ap (λ (q : Db × Applied). q.0) e in
    commit_again w db origin generation events p h next (
      sym (ap (λ (d : Db). clock_at d origin) k)
      ∙ applied-clock w db origin (generation, p.seq) p.journal p.holds p.attests origin
      ∙ rw (same_self origin) refl)

-- Applying the same suffix again changes nothing, whatever of it had been new the first time.
pub apply_suffix_again :
    (c : Config) (w : Wire) (db next : Db) (origin : Bytes) (generation : ℕ) (events : List Event)
    (n : ℕ)
    → IsName origin
    → apply_suffix c w db origin generation events ≡ ok (next, applied n)
    → apply_suffix c w next origin generation events ≡ ok (next, applied 0)
apply_suffix_again c w db next origin generation events n name h =
    elim (Bool-cases (is_unexpected c origin)) [
      | inl u ↦ cc (apply_suffix_refused c w db origin generation events u)
      | inr u ↦
          let first : ok (outcome w db origin generation events) ≡ ok (next, applied n) =
            sym (apply_suffix_lem c w db origin generation events name u) ∙ h in
          apply_suffix_lem c w next origin generation events name u
          ∙ ap ok (
              Left-again w db origin generation events _
                (outcome-Left w db origin generation events) next n (cc))
    ]

Left-HasRuns :
    (w : Wire) (db : Db) (origin : Bytes) (generation : ℕ) (events : List Event) (r : Db × Applied)
    → Left w db origin generation events r
    → HasRuns db
    → HasRuns r.0
Left-HasRuns w db origin generation events r (same_db o) runs = runs
Left-HasRuns w db origin generation events r no_db runs = runs
Left-HasRuns w db origin generation events r (commits p h) runs =
    applied-HasRuns w db origin (generation, p.seq) p.journal p.holds p.attests runs
      (collect-IsRun w (clock_at db origin).seq events p h)

Left-IsMirrored :
    (w : Wire) (db : Db) (origin : Bytes) (generation : ℕ) (events : List Event) (r : Db × Applied)
    → Left w db origin generation events r
    → IsMirrored db
    → IsMirrored r.0
Left-IsMirrored w db origin generation events r (same_db o) m = m
Left-IsMirrored w db origin generation events r no_db m = m
Left-IsMirrored w db origin generation events r (commits p h) m =
    applied-IsMirrored w db origin (generation, p.seq) p.journal p.holds p.attests m

-- Both invariants of the store survive any suffix, whatever its events are.
pub apply_suffix-invariants :
    (c : Config) (w : Wire) (db next : Db) (origin : Bytes) (generation : ℕ) (events : List Event)
    (r : Applied)
    → IsName origin
    → HasRuns db
    → IsMirrored db
    → apply_suffix c w db origin generation events ≡ ok (next, r)
    → HasRuns next × IsMirrored next
apply_suffix-invariants c w db next origin generation events r name runs m h =
    elim (Bool-cases (is_unexpected c origin)) [
      | inl u ↦ cc (apply_suffix_refused c w db origin generation events u)
      | inr u ↦
          let left = outcome-Left w db origin generation events in
          let e : outcome w db origin generation events ≡ (next, r) =
            cc (sym (apply_suffix_lem c w db origin generation events name u) ∙ h) in
          let k : (outcome w db origin generation events).0 ≡ next =
            ap (λ (q : Db × Applied). q.0) e in
          (
            subst HasRuns k (Left-HasRuns w db origin generation events _ left runs),
            subst IsMirrored k (Left-IsMirrored w db origin generation events _ left m),
          )
    ]
