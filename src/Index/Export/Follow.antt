-- ===== src/Index/Export/Follow.antt =====
-- index.rs: a peer that applies the events of an export has the exporter's possession.
use narshare.Base.{
  ℕ, suc, ◌+◌, ◌≡◌, refl, sym, ap, subst, ◌∙◌, false, some, List, [], ◌∷◌, ◌++◌, map, arith, length,
  All, ok,
}
use narshare.Base.Order.{nat_ord, list_ord}
use narshare.Base.Sets.{contains}
use narshare.Facts.{Bytes, Attestation}
use narshare.Wire.{Wire, Event}
use narshare.Store.{Db, Clock, HoldOp, add, drop_hash}
use narshare.Store.Holdings.{IsName, IsMirrored}
use narshare.Store.Journal.{Row, values}
use narshare.Store.Apply.{clock_at, HasRuns}
use narshare.Index.Messages.{Config, applied, decode_all}
use narshare.Index.Apply.{apply_suffix, is_unexpected, holds_of}
use narshare.Index.Apply.Collect.{EventRun, all_holds}
use narshare.Index.Apply.Connect.{arrived, apply_suffix_connects}
use narshare.Index.Export.{ExportOp, hold, wire_op, events_after, export_ops}
use narshare.Index.Export.Commit.{rows_after, ops_of, export_ops-commits}

-- The 32 bytes of a NAR hash.
abbrev pub IsHoldOp : HoldOp → Type 0
IsHoldOp (add h) = length h ≡ 32
IsHoldOp (drop_hash h) = length h ≡ 32

all_holds-map :
    (seq : ℕ) (holds : List HoldOp)
    → All IsHoldOp holds
    → all_holds (events_after seq (map hold holds)) ≡ holds
unfolding events_after holds_of
all_holds-map seq [] a = refl
all_holds-map seq (add h ∷ holds) (a, rest) =
    rw a (ap (◌∷◌ (add h)) (all_holds-map (seq + 1) holds rest))
all_holds-map seq (drop_hash h ∷ holds) (a, rest) =
    rw a (ap (◌∷◌ (drop_hash h)) (all_holds-map (seq + 1) holds rest))

all_holds-ops :
    (seq : ℕ) (attests : List Attestation) (holds : List HoldOp)
    → All IsHoldOp holds
    → all_holds (events_after seq (ops_of attests holds)) ≡ holds
unfolding events_after holds_of
all_holds-ops seq [] holds a = all_holds-map seq holds a
all_holds-ops seq (t ∷ attests) holds a = all_holds-ops (seq + 1) attests holds a

events_after-EventRun :
    (seq : ℕ) (ops : List ExportOp) → EventRun seq (events_after seq ops) (seq + length ops)
unfolding events_after
events_after-EventRun seq [] = omega arith
events_after-EventRun seq (op ∷ ops) = (
  omega arith,
  subst (EventRun (seq + 1) (events_after (seq + 1) ops)) (omega arith)
      (events_after-EventRun (seq + 1) ops),
)

length-events_after : (seq : ℕ) (ops : List ExportOp) → length (events_after seq ops) ≡ length ops
unfolding events_after
length-events_after seq [] = refl
length-events_after seq (op ∷ ops) = ap suc (length-events_after (seq + 1) ops)

-- What an export writes to the journal decodes to its events.
decode_all-rows_after :
    (w : Wire) (seq : ℕ) (ops : List ExportOp)
    → decode_all w (values (rows_after w seq ops)) ≡ ok (events_after seq ops)
unfolding events_after decode_all
decode_all-rows_after w seq [] = refl
decode_all-rows_after w seq (op ∷ ops) =
    rw
      (
        w.decode-encode (record { seq = seq + 1; op = some (wire_op op) }),
        decode_all-rows_after w (seq + 1) ops,
      )
      refl

-- An export continues the exporter's journal by rows that decode to events. A peer that expects the
-- exporter, at its clock and with the same possession for it, applies these events whole; then it has
-- the exporter's clock and the exporter's possession again. The store keeps its invariants, there is
-- something to export, and the hashes have 32 bytes.
pub export_ops-apply_suffix :
    (c peer_config : Config) (w : Wire) (db peer : Db) (op : ExportOp) (ops : List ExportOp)
    (attests : List Attestation) (holds : List HoldOp)
    → IsName c.self_name
    → HasRuns db
    → IsMirrored db
    → ops_of attests holds ≡ op ∷ ops
    → All IsHoldOp holds
    → is_unexpected peer_config c.self_name ≡ false
    → (clock_at peer c.self_name).generation ≡ (clock_at db c.self_name).generation
    → (clock_at peer c.self_name).seq ≡ (clock_at db c.self_name).seq
    → ((h : Bytes) → contains h (peer.hold c.self_name) ≡ contains h (db.hold c.self_name))
    → (next : Db) × (follower : Db) × (rows : List Row) × (events : List Event) × (export_ops c w db
          attests holds
        ≡ ok (next, length (op ∷ ops)))
      × (next.journal c.self_name ≡ db.journal c.self_name ++ rows)
      × (decode_all w (values rows) ≡ ok events)
      × (apply_suffix peer_config w peer c.self_name (clock_at db c.self_name).generation events
          ≡ ok (follower, applied (length (op ∷ ops))))
      × ((clock_at follower c.self_name).generation ≡ (clock_at next c.self_name).generation)
      × ((clock_at follower c.self_name).seq ≡ (clock_at next c.self_name).seq)
      × ((h : Bytes) → contains h (follower.hold c.self_name) ≡ contains h (next.hold c.self_name))
unfolding events_after
export_ops-apply_suffix c peer_config w db peer op ops attests holds n runs m split whole u g s
      agree =
    let seq = (clock_at db c.self_name).seq in
    let (next, e, clk, hld, _, _, _, jrn) = export_ops-commits c w db attests holds n runs m in
    let first : Event = record { seq = seq + 1; op = some (wire_op op) } in
    let rest = events_after (seq + 1) ops in
    let run : EventRun (clock_at peer c.self_name).seq (first ∷ rest) (seq + length (op ∷ ops)) =
      subst (λ a. EventRun a (first ∷ rest) (seq + length (op ∷ ops))) (sym s)
        (events_after-EventRun seq (op ∷ ops)) in
    let follower = arrived w peer c.self_name (seq + length (op ∷ ops)) first rest run in
    let (ran, fclk, fhld, _) =
      apply_suffix_connects w peer c.self_name (seq + length (op ∷ ops)) first rest run peer_config
        n u in
    let same_holds : all_holds (first ∷ rest) ≡ holds =
      sym (ap (λ xs. all_holds (events_after seq xs)) split)
      ∙ all_holds-ops seq attests holds whole in
    (
      next,
      follower,
      rows_after w seq (op ∷ ops),
      first ∷ rest,
      e ∙ ap (λ xs. ok (next, length xs)) split,
      jrn ∙ ap (λ xs. db.journal c.self_name ++ rows_after w seq xs) split,
      decode_all-rows_after w seq (op ∷ ops),
      ap (λ k. apply_suffix peer_config w peer c.self_name k (first ∷ rest)) (sym g)
          ∙ ran
          ∙ ap (λ k. ok (follower, applied (suc k))) (length-events_after (seq + 1) ops),
      ap (λ (k : Clock). k.generation) fclk ∙ g ∙ sym (ap (λ (k : Clock). k.generation) clk),
      ap (λ (k : Clock). k.seq) fclk
          ∙ sym (ap (λ (k : Clock). k.seq) clk ∙ ap (λ xs. seq + length xs) split),
      λ h. fhld h ∙ rw (same_holds, agree h) (sym (hld h)),
    )
