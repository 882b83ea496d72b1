-- ===== src/Store/Apply.antt =====
-- store/rocks.rs: `apply_events` on both answers, and the journal invariant of every origin.
use narshare.Base.{
  ℕ, ◌≤◌, ◌≡◌, ap, inl, inr, true, Option, List, arith, if◌then◌else◌, Bool-cases, ok, leb,
}
use narshare.Base.Order.{nat_ord, list_ord}
use narshare.Base.Sets.{same, contains}
use narshare.Facts.{Bytes, Attestation}
use narshare.Wire.{Wire}
use narshare.Store.{
  Db, Clock, HoldOp, clock, clock_or_zero, clock_is, put_clock, put_journal, merge_facts,
  apply_events, put_rows, compact_journal, drop_rows,
}
use narshare.Store.Holdings.{
  IsName, IsMirrored, held_after, held_by_ops, apply_holds_lem, hold-held_by_ops, held_by_ops-frame,
  held_by_ops-IsMirrored,
}
use narshare.Store.Journal.{Row, IsRun, IsRun-append, put_rows_run, drop_rows-IsRun}

-- The clock as `clock` reads it.
abbrev pub clock_at : Db → Bytes → Clock
clock_at db o = clock_or_zero (db.clocks o)

-- The journal of each origin runs from its tail to its clock without a gap.
abbrev pub HasRuns : Db → Type 0
HasRuns db = (o : Bytes) → IsRun (clock_at db o).tail_seq (db.journal o) (clock_at db o).seq

-- What a commit leaves.
unfoldable pub applied : Wire → Db → Bytes → ℕ × ℕ → List Row → List HoldOp → List Attestation → Db
applied w db origin set journal holds attests =
    put_clock (merge_facts w (held_by_ops (put_journal db origin journal) origin holds) attests)
      origin (record { generation = set.0; seq = set.1; tail_seq = (clock_at db origin).tail_seq })

module _ (w : Wire) (db : Db) (origin : Bytes) (expect set : ℕ × ℕ) (journal : List Row)
    (holds : List HoldOp) (attests : List Attestation) (n : IsName origin) where
  -- The clock is the expected one: the commit happens.
  pub apply_events_hit :
      clock_is (clock_at db origin) expect.0 expect.1 ≡ true
      → apply_events w db origin expect set journal holds attests
        ≡ ok (applied w db origin set journal holds attests, true)
  unfolding apply_events applied clock
  apply_events_hit h = rw (n, h, apply_holds_lem (put_journal db origin journal) origin holds n)

module _ (w : Wire) (db : Db) (origin : Bytes) (set : ℕ × ℕ) (journal : List Row)
    (holds : List HoldOp) (attests : List Attestation) where
  abbrev mid : Db
  mid = held_by_ops (put_journal db origin journal) origin holds

  mid-clocks : mid.clocks ≡ db.clocks
  unfolding put_journal
  mid-clocks =
      ap (λ (d : Db). d.clocks) (held_by_ops-frame (put_journal db origin journal) origin holds)

  mid-journal : mid.journal ≡ (put_journal db origin journal).journal
  mid-journal =
      ap (λ (d : Db). d.journal) (held_by_ops-frame (put_journal db origin journal) origin holds)

  pub applied-clock :
      (o : Bytes)
      → clock_at (applied w db origin set journal holds attests) o ≡ (
          if same o origin
          then record { generation = set.0; seq = set.1; tail_seq = (clock_at db origin).tail_seq }
          else clock_at db o)
  unfolding applied put_clock merge_facts
  applied-clock o = ground (arith, ap (λ (f : Bytes → Option Clock). f o) mid-clocks)

  pub applied-journal :
      (o : Bytes)
      → (applied w db origin set journal holds attests).journal o
        ≡ (if same o origin then put_rows (db.journal origin) journal else db.journal o)
  unfolding applied put_clock merge_facts put_journal
  applied-journal o = ap (λ (f : Bytes → List Row). f o) mid-journal

  -- Possession follows the operations; other origins keep theirs.
  pub applied-hold :
      (o h : Bytes)
      → contains h ((applied w db origin set journal holds attests).hold o) ≡ (
          if same o origin
          then held_after (contains h (db.hold o)) h holds
          else contains h (db.hold o))
  unfolding applied put_clock merge_facts put_journal
  applied-hold o h = hold-held_by_ops (put_journal db origin journal) origin holds o h

  pub applied-IsMirrored :
      IsMirrored db → IsMirrored (applied w db origin set journal holds attests)
  unfolding applied put_clock merge_facts put_journal
  applied-IsMirrored m = held_by_ops-IsMirrored (put_journal db origin journal) origin holds m

  IsRun-next :
      HasRuns db
      → IsRun (clock_at db origin).seq journal set.1
      → IsRun (clock_at db origin).tail_seq (put_rows (db.journal origin) journal) set.1
  IsRun-next runs next =
      rw (put_rows_run _ _ set.1 (db.journal origin) journal (runs origin) next)
        (IsRun-append _ _ set.1 (db.journal origin) journal (runs origin) next)

  -- A commit that continues the journal keeps every journal a run.
  pub applied-HasRuns :
      HasRuns db
      → IsRun (clock_at db origin).seq journal set.1
      → HasRuns (applied w db origin set journal holds attests)
  applied-HasRuns runs next o = elim (Bool-cases (same o origin)) [
    | inl e ↦ rw (applied-clock o, applied-journal o, e) (IsRun-next runs next)
    | inr e ↦ rw (applied-clock o, applied-journal o, e) (runs o)
  ]

-- Compaction to a floor within the journal keeps the runs; the floor is the new tail.
abbrev pub compacted : Db → Bytes → ℕ → Db
compacted db origin floor =
    if leb floor (clock_at db origin).tail_seq
    then db
    else put_clock
        (record db {
          journal = λ o.
              if same o origin
              then drop_rows (clock_at db origin).tail_seq floor (db.journal origin)
              else db.journal o;
        })
        origin (record (clock_at db origin) { tail_seq = floor })

pub compact_journal_lem :
    (db : Db) (origin : Bytes) (floor : ℕ)
    → IsName origin
    → compact_journal db origin floor ≡ ok (compacted db origin floor)
unfolding compact_journal clock
compact_journal_lem db origin floor n = rw n (ground arith)

pub compacted-HasRuns :
    (db : Db) (origin : Bytes) (floor : ℕ)
    → HasRuns db
    → floor ≤ (clock_at db origin).seq
    → HasRuns (compacted db origin floor)
unfolding put_clock
compacted-HasRuns db origin floor runs hi o =
    elim (Bool-cases (leb floor (clock_at db origin).tail_seq)) [
      | inl e ↦ rw (e, HasRuns) (runs o)
      | inr e ↦ elim (Bool-cases (same o origin)) [
        | inl s ↦
            rw (e, s)
              (drop_rows-IsRun _ _ _ floor (db.journal origin) (runs origin) (omega arith)
                (ground arith) hi)
        | inr s ↦ rw (e, s) (runs o)
      ]
    ]
