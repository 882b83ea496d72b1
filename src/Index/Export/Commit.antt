-- ===== src/Index/Export/Commit.antt =====
-- index.rs: what `export_ops` leaves in the node's own store.
use mathlib.Core.List.{append-nil, append_assoc}
use narshare.Base.{
  ℕ, ◌+◌, ◌≡◌, refl, sym, ap, subst, ◌∙◌, false, List, [], ◌∷◌, ◌++◌, map, arith, length,
  length-append, ok, some,
}
use narshare.Base.Order.{nat_ord, list_ord}
use narshare.Base.Sets.{same, same_self, contains}
use narshare.Facts.{Bytes, Attestation}
use narshare.Wire.{Wire}
use narshare.Store.{Db, Clock, HoldOp, clock, chunks}
use narshare.Store.Holdings.{IsName, IsMirrored, held_after}
use narshare.Store.Journal.{Row, IsRun, put_rows_run}
use narshare.Store.Apply.{
  clock_at, HasRuns, applied as commit, apply_events_hit, applied-clock, applied-hold,
  applied-journal, applied-HasRuns, applied-IsMirrored,
}
use narshare.Store.Replace.{concat, concat-chunks, held_after-append}
use narshare.Index.Messages.{Config}
use narshare.Index.Export.{
  ExportOp, att, hold, events_after, chunk_holds, chunk_atts, encode_rows, export_chunk,
  export_chunks, export_chunk_size, export_ops, wire_op,
}

encode_rows-IsRun :
    (w : Wire) (seq : ℕ) (ops : List ExportOp)
    → IsRun seq (encode_rows w (events_after seq ops)) (seq + length ops)
unfolding events_after
encode_rows-IsRun w seq [] = omega arith
encode_rows-IsRun w seq (op ∷ ops) = (
  omega arith,
  subst (λ b. IsRun (seq + 1) (encode_rows w (events_after (seq + 1) ops)) b) (omega arith)
      (encode_rows-IsRun w (seq + 1) ops),
)

chunk_holds-append :
    (xs ys : List ExportOp) → chunk_holds (xs ++ ys) ≡ chunk_holds xs ++ chunk_holds ys
chunk_holds-append [] ys = refl
chunk_holds-append (att a ∷ xs) ys = chunk_holds-append xs ys
chunk_holds-append (hold h ∷ xs) ys = ap (◌∷◌ h) (chunk_holds-append xs ys)

-- The rows of the events of an export.
abbrev pub rows_after : Wire → ℕ → List ExportOp → List Row
rows_after w seq ops = encode_rows w (events_after seq ops)

rows_after-append :
    (w : Wire) (seq : ℕ) (xs ys : List ExportOp)
    → rows_after w seq (xs ++ ys) ≡ rows_after w seq xs ++ rows_after w (seq + length xs) ys
unfolding events_after
rows_after-append w seq [] ys = ap (λ n. rows_after w n ys) (omega arith)
rows_after-append w seq (op ∷ xs) ys =
    ap (◌∷◌ (seq + 1, w.encode_event (record { seq = seq + 1; op = some (wire_op op) }))) (
      rows_after-append w (seq + 1) xs ys
      ∙ ap (λ n. rows_after w (seq + 1) xs ++ rows_after w n ys) (omega arith))

-- What exporting the operations leaves.
record Exported (w : Wire) (origin : Bytes) (db next : Db) (ops : List ExportOp) : Type 0 where
  journal : next.journal origin ≡ db.journal origin ++ rows_after w (clock_at db origin).seq ops
  clocks : clock_at next origin ≡ record {
    generation = (clock_at db origin).generation;
    seq = (clock_at db origin).seq + length ops;
    tail_seq = (clock_at db origin).tail_seq;
  }
  holds :
      (h : Bytes)
      → contains h (next.hold origin) ≡ held_after (contains h (db.hold origin)) h (chunk_holds ops)
  others :
      (o : Bytes)
      → same o origin ≡ false
      → (clock_at next o ≡ clock_at db o)
        × ((h : Bytes) → contains h (next.hold o) ≡ contains h (db.hold o))
  runs : HasRuns next
  mirrored : IsMirrored next

module _ (w : Wire) (db : Db) (origin : Bytes) (ops : List ExportOp) where
  abbrev after_chunk : Db
  after_chunk =
      commit w db origin ((clock_at db origin).generation, (clock_at db origin).seq + length ops)
        (encode_rows w (events_after (clock_at db origin).seq ops)) (chunk_holds ops)
        (chunk_atts ops)

  Exported-chunk : HasRuns db → IsMirrored db → Exported w origin db after_chunk ops
  Exported-chunk runs m = record {
    journal =
        applied-journal w db origin _ _ _ _ origin
        ∙ rw (same_self origin) (
            put_rows_run (clock_at db origin).tail_seq (clock_at db origin).seq
              ((clock_at db origin).seq + length ops) (db.journal origin)
              (rows_after w (clock_at db origin).seq ops) (runs origin)
              (encode_rows-IsRun w (clock_at db origin).seq ops));
    clocks = applied-clock w db origin _ _ _ _ origin ∙ rw (same_self origin) refl;
    holds = λ h. applied-hold w db origin _ _ _ _ origin h ∙ rw (same_self origin) refl;
    others = λ o d. (
      applied-clock w db origin _ _ _ _ o ∙ rw d refl,
      λ h. applied-hold w db origin _ _ _ _ o h ∙ rw d refl,
    );
    runs =
        applied-HasRuns w db origin _ _ _ _ runs (encode_rows-IsRun w (clock_at db origin).seq ops);
    mirrored = applied-IsMirrored w db origin _ _ _ _ m;
  }

export_chunk_lem :
    (c : Config) (w : Wire) (db : Db) (ops : List ExportOp)
    → IsName c.self_name
    → export_chunk c w db (clock_at db c.self_name).generation (clock_at db c.self_name).seq ops
      ≡ ok (after_chunk w db c.self_name ops)
unfolding export_chunk
export_chunk_lem c w db ops n =
    let k = clock_at db c.self_name in
    rw
      (apply_events_hit w db c.self_name (k.generation, k.seq) (k.generation, k.seq + length ops)
        (encode_rows w (events_after k.seq ops)) (chunk_holds ops) (chunk_atts ops) n
        (ground arith))
      refl

Exported-none :
    (w : Wire) (origin : Bytes) (db : Db) → HasRuns db → IsMirrored db → Exported w origin db db []
unfolding events_after
Exported-none w origin db runs m = record {
  journal = sym (append-nil (db.journal origin));
  clocks =
      ap
        (λ (s : ℕ). record {
          generation = (clock_at db origin).generation;
          seq = s;
          tail_seq = (clock_at db origin).tail_seq;
        })
        (omega arith);
  holds = λ h. refl;
  others = λ o d. (refl, λ h. refl);
  runs = runs;
  mirrored = m;
}

Exported-append :
    (w : Wire) (origin : Bytes) (db mid next : Db) (xs ys : List ExportOp)
    → Exported w origin db mid xs
    → Exported w origin mid next ys
    → Exported w origin db next (xs ++ ys)
Exported-append w origin db mid next xs ys p q =
    let seq = (clock_at db origin).seq in
    record {
      journal =
          q.journal
          ∙ ap (λ (k : Clock). mid.journal origin ++ rows_after w k.seq ys) p.clocks
          ∙ ap (λ rows. rows ++ rows_after w (seq + length xs) ys) p.journal
          ∙ append_assoc (db.journal origin) (rows_after w seq xs)
              (rows_after w (seq + length xs) ys)
          ∙ ap (λ rows. db.journal origin ++ rows) (sym (rows_after-append w seq xs ys));
      clocks = ground (arith, p.clocks, q.clocks, length-append xs ys);
      holds = λ h.
          q.holds h
          ∙ rw (p.holds h, chunk_holds-append xs ys)
              (sym (
                held_after-append (contains h (db.hold origin)) h (chunk_holds xs)
                  (chunk_holds ys)));
      others = λ o d.
          ((q.others o d).0 ∙ (p.others o d).0, λ h. (q.others o d).1 h ∙ (p.others o d).1 h);
      runs = q.runs;
      mirrored = q.mirrored;
    }

export_chunks_lem :
    (c : Config) (w : Wire) (db : Db) (cs : List (List ExportOp))
    → IsName c.self_name
    → HasRuns db
    → IsMirrored db
    → (next : Db) × (export_chunks c w db
          (clock_at db c.self_name).generation
          (clock_at db c.self_name).seq
          cs
        ≡ ok next)
      × Exported w c.self_name db next (concat cs)
unfolding export_chunks
export_chunks_lem c w db [] n runs m = (db, refl, Exported-none w c.self_name db runs m)
export_chunks_lem c w db (ops ∷ cs) n runs m =
    let mid = after_chunk w db c.self_name ops in
    let p = Exported-chunk w db c.self_name ops runs m in
    let (next, e, q) = export_chunks_lem c w mid cs n p.runs p.mirrored in
    (
      next,
      rw (export_chunk_lem c w db ops n)
          (ap (λ (k : Clock). export_chunks c w mid k.generation k.seq cs) (sym p.clocks) ∙ e),
      Exported-append w c.self_name db mid next ops (concat cs) p q,
    )

chunk_holds-map :
    (attests : List Attestation) (holds : List HoldOp)
    → chunk_holds (map att attests ++ map hold holds) ≡ holds
chunk_holds-map [] [] = refl
chunk_holds-map [] (h ∷ holds) = ap (◌∷◌ h) (chunk_holds-map [] holds)
chunk_holds-map (a ∷ attests) holds = chunk_holds-map attests holds

abbrev pub ops_of : List Attestation → List HoldOp → List ExportOp
ops_of attests holds = map att attests ++ map hold holds

-- An export with a proper own name never fails on a store that keeps its invariants, in however many
-- chunks it is committed. This node's clock advances by one for each operation, its possession follows
-- the operations, its journal is continued by the encoded events of the operations, attestations
-- first, the clock and the possession of every other origin stay, and so do the invariants.
pub export_ops-commits :
    (c : Config) (w : Wire) (db : Db) (attests : List Attestation) (holds : List HoldOp)
    → IsName c.self_name
    → HasRuns db
    → IsMirrored db
    → (next : Db) × (export_ops c w db attests holds ≡ ok (next, length (ops_of attests holds)))
      × (clock_at next c.self_name ≡ record {
        generation = (clock_at db c.self_name).generation;
        seq = (clock_at db c.self_name).seq + length (ops_of attests holds);
        tail_seq = (clock_at db c.self_name).tail_seq;
      })
      × ((h : Bytes)
          → contains h (next.hold c.self_name)
            ≡ held_after (contains h (db.hold c.self_name)) h holds)
      × ((o : Bytes)
          → same o c.self_name ≡ false
          → (clock_at next o ≡ clock_at db o)
            × ((h : Bytes) → contains h (next.hold o) ≡ contains h (db.hold o)))
      × HasRuns next
      × IsMirrored next
      × (next.journal c.self_name
          ≡ db.journal c.self_name
            ++ rows_after w (clock_at db c.self_name).seq (ops_of attests holds))
unfolding export_ops clock
export_ops-commits c w db attests holds n runs m =
    let ops = ops_of attests holds in
    let cs = chunks (length ops) export_chunk_size ops in
    let (next, e, p0) = export_chunks_lem c w db cs n runs m in
    let p : Exported w c.self_name db next ops =
      subst (Exported w c.self_name db next)
        (concat-chunks (length ops) export_chunk_size ops (omega arith) (omega arith)) p0 in
    (
      next,
      rw (n, e) refl,
      p.clocks,
      λ h.
          p.holds h
          ∙ ap (held_after (contains h (db.hold c.self_name)) h) (chunk_holds-map attests holds),
      p.others,
      p.runs,
      p.mirrored,
      p.journal,
    )
