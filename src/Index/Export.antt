-- ===== src/Index/Export.antt =====
-- index.rs: the node's own half: `export_ops` and `retract_hold`.
pub mod Commit
pub mod Follow
use narshare.Base.{
  ℕ, zero, suc, ◌+◌, ◌≡◌, Bool, true, false, not, Option, none, some, List, [], ◌∷◌, ◌++◌, map,
  if◌then◌else◌, length, Result, ok, err, ◌>>=◌, ◌>>◌, bail_if, self_apply_raced,
}
use narshare.Facts.{Bytes, Attestation}
use narshare.Wire.{Wire, Event, Op, have, drop, attest}
use narshare.Store.{Db, HoldOp, add, drop_hash, clock, apply_events, chunks, is_held}
use narshare.Index.Messages.{Config}

-- The local `enum Op`.
pub data ExportOp : Type 0 where
  att : Attestation → ExportOp
  hold : HoldOp → ExportOp

abbrev pub wire_op : ExportOp → Op
wire_op (att a) = attest a
wire_op (hold (add h)) = have h
wire_op (hold (drop_hash h)) = drop h

-- The events of a chunk, numbered on from `seq`.
unfoldable pub events_after : ℕ → List ExportOp → List Event
events_after seq [] = []
events_after seq (op ∷ ops) =
    (record { seq = seq + 1; op = some (wire_op op) }) ∷ events_after (seq + 1) ops

abbrev pub chunk_holds : List ExportOp → List HoldOp
chunk_holds [] = []
chunk_holds (att a ∷ ops) = chunk_holds ops
chunk_holds (hold h ∷ ops) = h ∷ chunk_holds ops

abbrev pub chunk_atts : List ExportOp → List Attestation
chunk_atts [] = []
chunk_atts (att a ∷ ops) = a ∷ chunk_atts ops
chunk_atts (hold h ∷ ops) = chunk_atts ops

abbrev pub encode_rows : Wire → List Event → List (ℕ × Bytes)
encode_rows w [] = []
encode_rows w (e ∷ events) = (e.seq, w.encode_event e) ∷ encode_rows w events

unfoldable pub export_chunk : Config → Wire → Db → ℕ → ℕ → List ExportOp → Result Db
export_chunk c w db generation seq chunk = do
  (next, done) ←
      apply_events w db c.self_name (generation, seq) (generation, seq + length chunk)
        (encode_rows w (events_after seq chunk)) (chunk_holds chunk) (chunk_atts chunk)
  bail_if (not done) self_apply_raced
  ok next

unfoldable pub export_chunks : Config → Wire → Db → ℕ → ℕ → List (List ExportOp) → Result Db
export_chunks c w db generation seq [] = ok db
export_chunks c w db generation seq (chunk ∷ rest) = do
  next ← export_chunk c w db generation seq chunk
  export_chunks c w next generation (seq + length chunk) rest

abbrev pub export_chunk_size : ℕ
export_chunk_size = 10000

unfoldable pub export_ops : Config → Wire → Db → List Attestation → List HoldOp → Result (Db × ℕ)
export_ops c w db attests holds = do
  let ops = map att attests ++ map hold holds
  cur ← clock db c.self_name
  next ← export_chunks c w db cur.generation cur.seq (chunks (length ops) export_chunk_size ops)
  ok (next, length ops)

unfoldable pub retract_hold : Config → Wire → Db → Bytes → Result (Db × Bool)
retract_hold c w db nar_hash = do
  held ← is_held db c.self_name nar_hash
  if not held
      then ok (db, false)
      else do (next, emitted) ← export_ops c w db [] (drop_hash nar_hash ∷ []); ok (next, true)
