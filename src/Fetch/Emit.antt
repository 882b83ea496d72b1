-- ===== src/Fetch/Emit.antt =====
-- fetch.rs: the emitter of a transfer, which sends the archive in order, piece by piece.
-- `sha256` is the digest of the crate sha2, `listens n` whether the client still takes a message
-- after it has taken `n`. A hasher is the bytes that it has been fed.
pub mod Checked
pub mod Content
pub mod Gate
pub mod Pieces
pub mod Rounds
pub mod Spans
pub mod Transfer
use narshare.Base.{
  ℕ, zero, suc, ◌+◌, ◌-◌, ◌%◌, ◌^◌, Bool, true, false, ◌&&◌, Option, none, some, List, [], ◌∷◌,
  ◌++◌, ltb, leb, ◌==◌, if◌then◌else◌, length, drop, Result, ok, err,
}
use narshare.Base.Order.{nat_ord, list_ord}
use narshare.Base.Sets.{same}
use narshare.Base.Keys.{put, get, delete}
use narshare.Facts.{Bytes}
use narshare.Manifest.{Manifest}
use narshare.Narinfo.{RemoteNarinfo}
use narshare.Fetch.{fallback_plan, manifest_plan, SpanExec, lit_exec, fetch_exec, replay_exec, Plan}
use narshare.Fetch.Buffer.{Buffer, slice, take_prefix, take_span}

-- What the client is sent: bytes, or that the transfer is broken off.
pub data Message : Type 0 where
  piece : (b : Bytes) → Message
  broken : Message

-- How a round of emission ends: `Pump`, `EmitEnd`, or an index or key out of bounds.
pub data Stop : Type 0 where
  need_data finished client_gone hash_mismatch panicked : Stop
  early_replay : Stop
  replay_length : (found : ℕ) → (len : ℕ) → Stop

pub record Emitter : Type 0 where
  pub spans : List (ℕ × SpanExec)
  pub lits : Bytes
  pub span_i : ℕ
  pub span_emitted : ℕ
  pub emit_pos : ℕ
  pub end : ℕ
  pub full : Bool
  pub nar_hash : Bytes
  pub hasher : Bytes
  pub buffered : Buffer
  pub held : List (ℕ × (Bytes × ℕ))
  pub out : List Message

unfoldable pub new_emitter : Plan → RemoteNarinfo → ℕ → ℕ → Bool → Emitter
new_emitter plan info start end full = record {
  spans = plan.spans;
  lits = plan.lits;
  span_i = 0;
  span_emitted = 0;
  emit_pos = start;
  end = end;
  full = full;
  nar_hash = info.nar_hash;
  hasher = [];
  buffered = [];
  held = [];
  out = [];
}

-- The manifest's plan where it is asked for and can be used; one span that streams in otherwise.
abbrev pub manifest_min : ℕ
manifest_min = 4194304

abbrev pub plan_or_fallback : ℕ → ℕ → Result Plan → Plan
plan_or_fallback start end (ok plan) = plan
plan_or_fallback start end (err reason) = fallback_plan start end

abbrev pub plan_from :
    (Bytes → Option Bytes) → Option Manifest → RemoteNarinfo → ℕ → ℕ → ℕ → ℕ → Plan
plan_from hex none info start end budget window = fallback_plan start end
plan_from hex (some m) info start end budget window =
    plan_or_fallback start end (manifest_plan hex m info budget window)

unfoldable pub transfer_plan :
    (Bytes → Option Bytes) → Option Manifest → RemoteNarinfo → ℕ → ℕ → Bool → ℕ → ℕ → Plan
transfer_plan hex manifest info start end full budget window =
    if full && leb manifest_min info.nar_size
    then plan_from hex manifest info start end budget window
    else fallback_plan start end

abbrev pub next_span : Emitter → Emitter
next_span em = record em { span_i = em.span_i + 1 }

-- The end of `emit`: the position moves, and the piece goes out.
abbrev pub gone_unless : Emitter × Bool → Emitter × Option Stop
gone_unless (em, sent) = (em, if sent then none else some client_gone)

-- `emit(..).await?`: a dead end ends the round, the rest runs otherwise.
abbrev pub and_then :
    Emitter × Option Stop → (Emitter → Emitter × Option Stop) → Emitter × Option Stop
and_then (em, none) next = next em
and_then (em, some stop) next = (em, some stop)

-- `entry.1 -= 1` on a usize; the last replay lets the bytes go.
abbrev pub one_less : ℕ → ℕ
one_less n = (n + 2 ^ 64 - 1) % 2 ^ 64

abbrev pub keep_held : ℕ → Bytes → ℕ → Emitter → Emitter
keep_held unique bytes remaining em = record em {
  held = if remaining == 0 then delete unique em.held else put unique (bytes, remaining) em.held;
}

-- The loop over a span that streams in, on fuel; a piece that is taken has at least one byte.
abbrev pub streamed : Bytes → Buffer → Emitter → Emitter
streamed b left em = record em { buffered = left; span_emitted = em.span_emitted + length b }

abbrev pub end_stream : Emitter → Emitter × Option Stop
end_stream em = (next_span (record em { span_emitted = 0 }), none)

-- A span that is replayed later is assembled whole.
unfoldable pub concat : List Bytes → Bytes
concat [] = []
concat (b ∷ bs) = b ++ concat bs

-- The loop over the spans that are left.
abbrev pub pump_next : Emitter × Option Stop → (Emitter → Emitter × Stop) → Emitter × Stop
pump_next (em, none) rest = rest em
pump_next (em, some stop) rest = (em, stop)

-- Buffered bytes that the emitter has passed are dropped, up to the first that it has not.
unfoldable pub drop_passed : ℕ → Buffer → Buffer
drop_passed pos [] = []
drop_passed pos ((k, b) ∷ rows) =
    let rest = drop_passed pos rows in if leb (k + length b) pos then rest else (k, b) ∷ rows

abbrev pub land_first : Emitter × Stop → (Emitter → Emitter × Stop) → Emitter × Stop
land_first (em, need_data) rest = rest em
land_first (em, stop) rest = (em, stop)

abbrev pub land_next : Emitter × Stop → (Emitter → Emitter × Stop) → Emitter × Stop
land_next r rest =
    land_first r (λ em. rest (record em { buffered = drop_passed em.emit_pos em.buffered }))

module _ (listens : ℕ → Bool) where
  -- `out.send(m).await`
  unfoldable pub send : Message → Emitter → Emitter × Bool
  send m em =
      if listens (length em.out) then (record em { out = em.out ++ m ∷ [] }, true) else (em, false)

  unfoldable pub deliver : Bytes → Emitter → Emitter × Option Stop
  deliver b em = gone_unless (send (piece b) (record em { emit_pos = em.emit_pos + length b }))

  -- An aborted transfer tells the client.
  abbrev pub told : Emitter × Stop → Emitter × Stop
  told (em, early_replay) = ((send broken em).0, early_replay)
  told (em, replay_length found len) = ((send broken em).0, replay_length found len)
  told (em, stop) = (em, stop)

module _ (sha256 : Bytes → Bytes) (listens : ℕ → Bool) where
  unfoldable pub emit : Bytes → Emitter → Emitter × Option Stop
  emit b em =
      let fed = record em { hasher = em.hasher ++ b } in
      if em.full
      then if em.emit_pos + length b == em.end
        then if same (sha256 fed.hasher) em.nar_hash
          then deliver listens b fed
          else ((send listens broken fed).0, some hash_mismatch)
        else deliver listens b fed
      else deliver listens b em

  unfoldable pub emit_all : List Bytes → Emitter → Emitter × Option Stop
  emit_all [] em = (em, none)
  emit_all (b ∷ bs) em = and_then (emit b em) (emit_all bs)

  unfoldable pub pump_lit : ℕ → ℕ → Emitter → Emitter × Option Stop
  pump_lit lit_off len em =
      if leb (lit_off + len) (length em.lits)
      then and_then (emit (slice lit_off (lit_off + len) em.lits) em) (λ em'. (next_span em', none))
      else (em, some panicked)

  abbrev pub replay_entry : ℕ → ℕ → Option (Bytes × ℕ) → Emitter → Emitter × Option Stop
  replay_entry unique len none em = (em, some early_replay)
  replay_entry unique len (some (bytes, n)) em =
      if length bytes == len
      then and_then (emit bytes (keep_held unique bytes (one_less n) em))
          (λ em'. (next_span em', none))
      else (
        record em { held = put unique (bytes, one_less n) em.held },
        some (replay_length (length bytes) len),
      )

  unfoldable pub pump_replay : ℕ → ℕ → Emitter → Emitter × Option Stop
  pump_replay unique len em = replay_entry unique len (get unique em.held) em

  abbrev pub stream_piece :
      Option (Bytes × Buffer) → Emitter → (Emitter → Emitter × Option Stop) → Emitter × Option Stop
  stream_piece none em rest = (em, some need_data)
  stream_piece (some (b, left)) em rest = and_then (emit b (streamed b left em)) rest

  unfoldable pub pump_stream : ℕ → ℕ → Emitter → Emitter × Option Stop
  pump_stream zero len em = if ltb em.span_emitted len then (em, some panicked) else end_stream em
  pump_stream (suc fuel) len em =
      let rest =
        stream_piece (take_prefix em.buffered em.emit_pos (len - em.span_emitted)) em
          (pump_stream fuel len) in
      if ltb em.span_emitted len then rest else end_stream em

  abbrev pub retain_slices :
      ℕ → ℕ → Option (Result (List Bytes × Buffer)) → Emitter → Emitter × Option Stop
  retain_slices unique retain_for none em = (em, some need_data)
  retain_slices unique retain_for (some (err reason)) em = (em, some panicked)
  retain_slices unique retain_for (some (ok (slices, left))) em =
      and_then
        (emit_all slices
          (record em { buffered = left; held = put unique (concat slices, retain_for) em.held }))
        (λ em'. (next_span em', none))

  unfoldable pub pump_retained : ℕ → ℕ → ℕ → ℕ → Emitter → Emitter × Option Stop
  pump_retained off len unique retain_for em =
      retain_slices unique retain_for (take_span em.buffered off (off + len)) em

  unfoldable pub pump_span : ℕ → SpanExec → Emitter → Emitter × Option Stop
  pump_span off (lit_exec lit_off len) em = pump_lit lit_off len em
  pump_span off (replay_exec unique len) em = pump_replay unique len em
  pump_span off (fetch_exec len none) em = pump_stream (len - em.span_emitted) len em
  pump_span off (fetch_exec len (some (unique, retain_for))) em =
      pump_retained off len unique retain_for em

  unfoldable pub pump_spans : List (ℕ × SpanExec) → Emitter → Emitter × Stop
  pump_spans [] em = (em, finished)
  pump_spans (s ∷ spans) em = pump_next (pump_span s.0 s.1 em) (pump_spans spans)

  unfoldable pub pump : Emitter → Emitter × Stop
  pump em = pump_spans (drop em.span_i em.spans) em

  -- A chunk lands, and emission goes on.
  abbrev pub land : ℕ × Bytes → Emitter → Emitter × Stop
  land c em = told listens (pump (record em { buffered = put c.0 c.1 em.buffered }))

  -- The chunks in the order in which they arrive, each range once.
  unfoldable pub land_all : List (ℕ × Bytes) → Emitter → Emitter × Stop
  land_all [] em = (em, need_data)
  land_all (c ∷ cs) em = land_next (land c em) (land_all cs)

  -- What needs no data goes out, then the chunks land.
  unfoldable pub transfer_with :
      Plan → RemoteNarinfo → ℕ → ℕ → Bool → List (ℕ × Bytes) → Emitter × Stop
  transfer_with plan info start end full chunks =
      land_first (told listens (pump (new_emitter plan info start end full))) (land_all chunks)

  -- `run_transfer`, for the manifest that a holder has given and the chunks as they arrive.
  unfoldable pub transfer :
      (Bytes → Option Bytes)
      → Option Manifest
      → RemoteNarinfo
      → ℕ
      → ℕ
      → ℕ
      → ℕ
      → List (ℕ × Bytes)
      → Emitter × Stop
  unfolding transfer_with
  transfer hex manifest info start end budget window chunks =
      let full = (start == 0) && (end == info.nar_size) in
      transfer_with (transfer_plan hex manifest info start end full budget window) info start end
        full chunks
