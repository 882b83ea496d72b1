-- ===== src/Index/Maintain/Compact.antt =====
-- index.rs: what `compact` may drop, and what it must keep.
use narshare.Base.{
  ℕ, ◌+◌, ◌-◌, ◌≤◌, ◌<◌, ◌≡◌, refl, subst, ◌∙◌, inl, inr, List, [], ◌∷◌, arith, ltb, if◌then◌else◌,
  min, max, Bool-cases, All, ok,
}
use narshare.Base.Order.{nat_ord, list_ord}
use narshare.Base.Sets.{same, eq_of_same}
use narshare.Facts.{Bytes}
use narshare.Store.{Db, clock, put_clock, seq_or_zero}
use narshare.Store.Holdings.{IsName}
use narshare.Store.Apply.{clock_at, HasRuns, compacted, compact_journal_lem, compacted-HasRuns}
use narshare.Index.Messages.{Config, origin_set}
use narshare.Index.Maintain.{
  journal_backstop, min_mark, compact_floor, compact_origin, compact_origins, compact,
}

min_mark-le :
    (db : Db) (origin : Bytes) (peers : List Bytes) (floor : ℕ)
    → min_mark db origin peers floor ≤ floor
unfolding min_mark
min_mark-le db origin [] floor = omega arith
min_mark-le db origin (peer ∷ peers) floor =
    let m = seq_or_zero (db.wm peer origin) in
    omega (arith, min_mark-le db origin peers (min floor m))

min_mark-marks :
    (db : Db) (origin : Bytes) (peers : List Bytes) (floor : ℕ)
    → All (λ (peer : Bytes). min_mark db origin peers floor ≤ seq_or_zero (db.wm peer origin)) peers
unfolding min_mark
min_mark-marks db origin [] floor = tt
min_mark-marks db origin (peer ∷ peers) floor =
    let m = seq_or_zero (db.wm peer origin) in
    (
      omega (arith, min_mark-le db origin peers (min floor m)),
      min_mark-marks db origin peers (min floor m),
    )

weaken :
    (f : Bytes → ℕ) (a b : ℕ) (peers : List Bytes)
    → All (λ (peer : Bytes). a ≤ f peer) peers
    → All (λ (peer : Bytes). max a b ≤ max (f peer) b) peers
weaken f a b [] h = tt
weaken f a b (peer ∷ peers) (h, hs) = (omega arith, weaken f a b peers hs)

-- The floor is within the journal. It passes no peer's watermark, except where that peer is more
-- than the backstop behind; and no more than the backstop is ever kept.
pub compact_floor-bounds :
    (c : Config) (db : Db) (origin : Bytes) (seq : ℕ)
    → (compact_floor c db origin seq ≤ seq)
      × (seq ≤ compact_floor c db origin seq + journal_backstop)
      × All
          (λ (peer : Bytes).
            compact_floor c db origin seq
            ≤ max (seq_or_zero (db.wm peer origin)) (seq - journal_backstop))
          c.peer_names
unfolding compact_floor
compact_floor-bounds c db origin seq = (
  omega (arith, min_mark-le db origin c.peer_names seq),
  omega arith,
  weaken (λ (peer : Bytes). seq_or_zero (db.wm peer origin)) (min_mark db origin c.peer_names seq)
      (seq - journal_backstop) c.peer_names (min_mark-marks db origin c.peer_names seq),
)

-- What compaction of one store to another may do.
record Compacts (c : Config) (marks db next : Db) : Type 0 where
  seqs : (o : Bytes) → (clock_at next o).seq ≡ (clock_at db o).seq
  generations : (o : Bytes) → (clock_at next o).generation ≡ (clock_at db o).generation
  tails :
      (o : Bytes)
      → (clock_at next o).tail_seq
        ≤ max (clock_at db o).tail_seq (compact_floor c marks o (clock_at db o).seq)
  holds : next.hold ≡ db.hold
  holders : next.holdby ≡ db.holdby
  runs : HasRuns next

Compacts-self : (c : Config) (marks db : Db) → HasRuns db → Compacts c marks db db
Compacts-self c marks db runs = record {
  seqs = λ o. refl;
  generations = λ o. refl;
  tails = λ o. omega arith;
  holds = refl;
  holders = refl;
  runs = runs;
}

compacted-clock :
    (db : Db) (origin : Bytes) (floor : ℕ) (o : Bytes)
    → (clock_at db origin).tail_seq < floor
    → clock_at (compacted db origin floor) o
      ≡ (if same o origin then record (clock_at db origin) { tail_seq = floor } else clock_at db o)
unfolding put_clock
compacted-clock db origin floor o h = ground arith

compacted-hold : (db : Db) (origin : Bytes) (floor : ℕ) → (compacted db origin floor).hold ≡ db.hold
unfolding put_clock
compacted-hold db origin floor = ground arith

compacted-holdby :
    (db : Db) (origin : Bytes) (floor : ℕ) → (compacted db origin floor).holdby ≡ db.holdby
unfolding put_clock
compacted-holdby db origin floor = ground arith

Compacts-compacted :
    (c : Config) (marks db : Db) (origin : Bytes)
    → HasRuns db
    → (clock_at db origin).tail_seq < compact_floor c marks origin (clock_at db origin).seq
    → Compacts c marks db
        (compacted db origin (compact_floor c marks origin (clock_at db origin).seq))
Compacts-compacted c marks db origin runs h =
    let floor = compact_floor c marks origin (clock_at db origin).seq in
    record {
      seqs = λ o. ground (arith, compacted-clock db origin floor o h, eq_of_same o origin);
      generations = λ o. ground (arith, compacted-clock db origin floor o h, eq_of_same o origin);
      tails = λ o. ground (arith, compacted-clock db origin floor o h, eq_of_same o origin);
      holds = compacted-hold db origin floor;
      holders = compacted-holdby db origin floor;
      runs =
          compacted-HasRuns db origin floor runs
            (compact_floor-bounds c marks origin (clock_at db origin).seq).0;
    }

Compacts-trans :
    (c : Config) (marks db mid next : Db)
    → Compacts c marks db mid
    → Compacts c marks mid next
    → Compacts c marks db next
Compacts-trans c marks db mid next p q = record {
  seqs = λ o. q.seqs o ∙ p.seqs o;
  generations = λ o. q.generations o ∙ p.generations o;
  tails = λ o. omega (
    arith,
    p.tails o,
    subst
        (λ s.
          (clock_at next o).tail_seq ≤ max (clock_at mid o).tail_seq (compact_floor c marks o s))
        (p.seqs o) (q.tails o),
  );
  holds = q.holds ∙ p.holds;
  holders = q.holders ∙ p.holders;
  runs = q.runs;
}

abbrev turn : Config → Db → Db → Bytes → Db
turn c marks db origin =
    if ltb (clock_at db origin).tail_seq (compact_floor c marks origin (clock_at db origin).seq)
    then compacted db origin (compact_floor c marks origin (clock_at db origin).seq)
    else db

compact_origin_lem :
    (c : Config) (marks db : Db) (origin : Bytes)
    → IsName origin
    → compact_origin c marks db origin ≡ ok (turn c marks db origin)
unfolding compact_origin clock
compact_origin_lem c marks db origin n = rw n (
    ground (
      arith,
      compact_journal_lem db origin (compact_floor c marks origin (clock_at db origin).seq) n,
    ))

Compacts-turn :
    (c : Config) (marks db : Db) (origin : Bytes)
    → HasRuns db
    → Compacts c marks db (turn c marks db origin)
Compacts-turn c marks db origin runs =
    elim (Bool-cases
      (ltb (clock_at db origin).tail_seq (compact_floor c marks origin (clock_at db origin).seq))) [
        | inl e ↦ rw e (Compacts-compacted c marks db origin runs (ground arith))
        | inr e ↦ rw e (Compacts-self c marks db runs)
      ]

compact_origins_lem :
    (c : Config) (marks db : Db) (names : List Bytes)
    → All IsName names
    → HasRuns db
    → (next : Db) × (compact_origins c marks db names ≡ ok next) × Compacts c marks db next
unfolding compact_origins
compact_origins_lem c marks db [] ns runs = (db, refl, Compacts-self c marks db runs)
compact_origins_lem c marks db (origin ∷ names) (n, ns) runs =
    let mid = turn c marks db origin in
    let p = Compacts-turn c marks db origin runs in
    let (next, e, q) = compact_origins_lem c marks mid names ns p.runs in
    (next, rw (compact_origin_lem c marks db origin n) e, Compacts-trans c marks db mid next p q)

-- With proper names compaction never fails. Every clock keeps its generation and sequence number,
-- possession stays, each journal is still an unbroken run, and its tail passes neither the journal's
-- end nor a watermark, the backstop aside.
pub compact-keeps :
    (c : Config) (db : Db)
    → All IsName (origin_set c)
    → HasRuns db
    → (next : Db) × (compact c db ≡ ok next)
      × ((o : Bytes) → (clock_at next o).seq ≡ (clock_at db o).seq)
      × ((o : Bytes) → (clock_at next o).generation ≡ (clock_at db o).generation)
      × ((o : Bytes)
          → (clock_at next o).tail_seq
            ≤ max (clock_at db o).tail_seq (compact_floor c db o (clock_at db o).seq))
      × (next.hold ≡ db.hold)
      × (next.holdby ≡ db.holdby)
      × HasRuns next
unfolding compact
compact-keeps c db names runs =
    let (next, e, q) = compact_origins_lem c db db (origin_set c) names runs in
    (next, e, q.seqs, q.generations, q.tails, q.holds, q.holders, q.runs)
