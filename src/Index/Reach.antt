-- ===== src/Index/Reach.antt =====
-- index.rs: every operation of the index as a step of the store, and what all reachable stores have.
use narshare.Base.{ℕ, ◌≡◌, refl, sym, subst, ◌∙◌, inl, inr, List, arith, Bool-cases, All, ok}
use narshare.Base.Order.{nat_ord, list_ord}
use narshare.Base.Sets.{same, eq_of_same}
use narshare.Facts.{Bytes, Attestation}
use narshare.Wire.{Wire, Event}
use narshare.Store.{
  Db, HoldOp, clock, put_clock, set_generation, merge_attestations, advance_watermark,
  retain_origins,
}
use narshare.Store.Holdings.{IsName, IsMirrored}
use narshare.Store.Journal.{IsRun}
use narshare.Store.Apply.{clock_at, HasRuns}
use narshare.Store.Replace.{retain_origins-IsMirrored, retain_origins-HasRuns}
use narshare.Index.Messages.{Config, Applied, origin_set}
use narshare.Index.Apply.{apply_suffix, apply_snapshot, merge_attests}
use narshare.Index.Apply.Repeat.{apply_suffix-invariants}
use narshare.Index.Apply.Snapshot.{apply_snapshot-invariants}
use narshare.Index.Export.{export_ops}
use narshare.Index.Export.Commit.{export_ops-commits}
use narshare.Index.Maintain.{compact}
use narshare.Index.Maintain.Compact.{compact-keeps}

-- One call of the index on its store, with the answer that it gave.
pub data Step (c : Config) (w : Wire) (db next : Db) : Type 0 where
  suffix_in :
      (origin : Bytes) (generation : ℕ) (events : List Event) (r : Applied)
      → IsName origin
      → apply_suffix c w db origin generation events ≡ ok (next, r)
      → Step c w db next
  snapshot_in :
      (origin : Bytes) (generation seq count : ℕ) (held : List Bytes)
      → IsName origin
      → apply_snapshot c db origin generation seq held ≡ ok (next, count)
      → Step c w db next
  facts_in : (attests : List Attestation) → (merge_attests w db attests).0 ≡ next → Step c w db next
  exported :
      (attests : List Attestation) (holds : List HoldOp) (count : ℕ)
      → IsName c.self_name
      → export_ops c w db attests holds ≡ ok (next, count)
      → Step c w db next
  compacts : All IsName (origin_set c) → compact c db ≡ ok next → Step c w db next
  acknowledged :
      (peer origin : Bytes) (seq : ℕ)
      → advance_watermark db peer origin seq ≡ ok next
      → Step c w db next
  reaped : retain_origins db (origin_set c) ≡ next → Step c w db next
  reminted :
      (g : ℕ) → IsName c.self_name → set_generation db c.self_name g ≡ ok next → Step c w db next

pub data Reach (c : Config) (w : Wire) (db : Db) : Db → Type 0 where
  here : Reach c w db db
  there : {mid next : Db} → Reach c w db mid → Step c w mid next → Reach c w db next

abbrev pub Kept : Db → Type 0
Kept db = HasRuns db × IsMirrored db

-- The invariants read four of the tables.
Kept-frame :
    (db next : Db)
    → next.clocks ≡ db.clocks
    → next.journal ≡ db.journal
    → next.hold ≡ db.hold
    → next.holdby ≡ db.holdby
    → Kept db
    → Kept next
Kept-frame db next ec ej eh eb (runs, m) = (λ o. rw (ec, ej) (runs o), λ o h. rw (eh, eb) (m o h))

merge_attests-Kept :
    (w : Wire) (db : Db) (attests : List Attestation)
    → Kept db
    → Kept (merge_attests w db attests).0
unfolding merge_attests merge_attestations
merge_attests-Kept w db attests k =
    Kept-frame db (merge_attests w db attests).0 (ground arith) (ground arith) (ground arith)
      (ground arith) k

advance_watermark-Kept :
    (db next : Db) (peer origin : Bytes) (seq : ℕ)
    → advance_watermark db peer origin seq ≡ ok next
    → Kept db
    → Kept next
unfolding advance_watermark
advance_watermark-Kept db next peer origin seq h k =
    Kept-frame db next (ground arith) (ground arith) (ground arith) (ground arith) k

compact-Kept :
    (c : Config) (db next : Db)
    → All IsName (origin_set c)
    → compact c db ≡ ok next
    → Kept db
    → Kept next
compact-Kept c db next names h (runs, m) =
    let (made, e, _, _, _, eh, eb, runs2) = compact-keeps c db names runs in
    let k : made ≡ next = cc (sym e ∙ h) in
    let m2 : IsMirrored made = λ o x. rw (eh, eb) (m o x) in
    (subst HasRuns k runs2, subst IsMirrored k m2)

export_ops-Kept :
    (c : Config) (w : Wire) (db next : Db) (attests : List Attestation) (holds : List HoldOp)
    (count : ℕ)
    → IsName c.self_name
    → export_ops c w db attests holds ≡ ok (next, count)
    → Kept db
    → Kept next
export_ops-Kept c w db next attests holds count n h (runs, m) =
    let (made, e, _, _, _, runs2, m2, _) = export_ops-commits c w db attests holds n runs m in
    let k : made ≡ next = cc (sym e ∙ h) in (subst HasRuns k runs2, subst IsMirrored k m2)

abbrev with_generation : Db → Bytes → ℕ → Db
with_generation db o g = put_clock db o (record (clock_at db o) { generation = g })

set_generation-with_generation :
    (db : Db) (o : Bytes) (g : ℕ) → IsName o → set_generation db o g ≡ ok (with_generation db o g)
unfolding set_generation clock
set_generation-with_generation db o g n = rw n refl

with_generation-Kept :
    (db : Db) (origin : Bytes) (g : ℕ) → Kept db → Kept (with_generation db origin g)
unfolding put_clock
with_generation-Kept db origin g (runs, m) = (
  λ o. elim (Bool-cases (same o origin)) [
    | inl e ↦ rw e (
        subst (λ x. IsRun (clock_at db origin).tail_seq (db.journal x) (clock_at db origin).seq)
          (sym (eq_of_same o origin e)) (runs origin))
    | inr e ↦ rw e (runs o)
  ],
  m,
)

Step-Kept : (c : Config) (w : Wire) (db next : Db) → Step c w db next → Kept db → Kept next
Step-Kept c w db next (suffix_in origin generation events r n h) k =
    apply_suffix-invariants c w db next origin generation events r n k.0 k.1 h
Step-Kept c w db next (snapshot_in origin generation seq count held n h) k =
    apply_snapshot-invariants c db next origin generation seq count held n k.0 k.1 h
Step-Kept c w db next (facts_in attests h) k = subst Kept h (merge_attests-Kept w db attests k)
Step-Kept c w db next (exported attests holds count n h) k =
    export_ops-Kept c w db next attests holds count n h k
Step-Kept c w db next (compacts names h) k = compact-Kept c db next names h k
Step-Kept c w db next (acknowledged peer origin seq h) k =
    advance_watermark-Kept db next peer origin seq h k
Step-Kept c w db next (reaped h) k =
    subst Kept h (
      retain_origins-HasRuns db (origin_set c) k.0,
      retain_origins-IsMirrored db (origin_set c) k.1,
    )
Step-Kept c w db next (reminted g n h) k =
    let e : with_generation db c.self_name g ≡ next =
      cc (sym (set_generation-with_generation db c.self_name g n) ∙ h) in
    subst Kept e (with_generation-Kept db c.self_name g k)

-- In every store that these steps can reach, whatever the peers send and in whatever order, each
-- origin's journal runs without a gap from its tail to its clock, and the two possession tables
-- mirror each other, if this holds at the start. The origins' names are proper ones.
pub Reach-invariants :
    (c : Config) (w : Wire) (db next : Db)
    → Reach c w db next
    → HasRuns db
    → IsMirrored db
    → HasRuns next × IsMirrored next
Reach-invariants c w db next here runs m = (runs, m)
Reach-invariants c w db next (there {mid} path step) runs m =
    Step-Kept c w mid next step (Reach-invariants c w db mid path runs m)
