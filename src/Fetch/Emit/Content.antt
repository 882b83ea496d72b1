-- ===== src/Fetch/Emit/Content.antt =====
-- fetch.rs: what the client is sent is the archive, in order.
use narshare.Base.{
  ℕ, ◌+◌, ◌≤◌, ◌≡◌, refl, sym, subst, ap, ◌∙◌, Bool, Option, none, some, List, [], ◌∷◌, ◌++◌,
  length, drop, All, arith, length-append,
}
use mathlib.Core.List.{append-nil}
use narshare.Base.Order.{nat_ord, list_ord}
use narshare.Facts.{Bytes}
use narshare.Fetch.{SpanExec, lit_exec, fetch_exec, replay_exec}
use narshare.Fetch.Covers.{IsContiguous}
use narshare.Fetch.Buffer.{slice}
use narshare.Fetch.Buffer.Reading.{At, append-At}
use narshare.Fetch.Buffer.Cut.{IsCutClosed, IsSound}
use narshare.Fetch.Emit.{
  piece, Stop, need_data, finished, client_gone, hash_mismatch, panicked, early_replay,
  replay_length, Emitter, and_then, emit,
}
use narshare.Fetch.Emit.Checked.{received, received-append}
use narshare.Fetch.Emit.Pieces.{sent, IsDeadEnd, Emitted, went, dead, emit-Emitted}

-- The archive that a plan describes: its literals are the archive's bytes, and the spans that share
-- an index have the bytes `seg` of that index.
abbrev pub Describes : Bytes → (ℕ → Bytes) → Bytes → ℕ × SpanExec → Type 0
Describes nar seg lits (off, lit_exec lit_off len) =
    (lit_off + len ≤ length lits) × At nar off (slice lit_off (lit_off + len) lits)
Describes nar seg lits (off, fetch_exec len none) = Unit
Describes nar seg lits (off, fetch_exec len (some (unique, n))) =
    (length (seg unique) ≡ len) × At nar off (seg unique)
Describes nar seg lits (off, replay_exec unique len) =
    (length (seg unique) ≡ len) × At nar off (seg unique)

-- The position in the first of the spans that are left.
abbrev pub IsPlaced : ℕ → ℕ → List (ℕ × SpanExec) → ℕ → Type 0
IsPlaced pos emitted [] end = (emitted ≡ 0) × (pos ≡ end)
IsPlaced pos emitted ((off, lit_exec o len) ∷ rest) end =
    (emitted ≡ 0) × (off ≡ pos) × IsContiguous (pos + len) rest end
IsPlaced pos emitted ((off, replay_exec u len) ∷ rest) end =
    (emitted ≡ 0) × (off ≡ pos) × IsContiguous (pos + len) rest end
IsPlaced pos emitted ((off, fetch_exec len (some r)) ∷ rest) end =
    (emitted ≡ 0) × (off ≡ pos) × IsContiguous (pos + len) rest end
IsPlaced pos emitted ((off, fetch_exec len none) ∷ rest) end =
    (emitted ≤ len) × (off + emitted ≡ pos) × IsContiguous (off + len) rest end

pub none-IsPlaced :
    (pos : ℕ) (spans : List (ℕ × SpanExec)) (end : ℕ)
    → IsContiguous pos spans end
    → IsPlaced pos 0 spans end
none-IsPlaced pos [] end h = (refl, h)
none-IsPlaced pos ((off, lit_exec o len) ∷ rest) end h = (refl, h.0, h.1)
none-IsPlaced pos ((off, replay_exec u len) ∷ rest) end h = (refl, h.0, h.1)
none-IsPlaced pos ((off, fetch_exec len (some r)) ∷ rest) end h = (refl, h.0, h.1)
none-IsPlaced pos ((off, fetch_exec len none) ∷ rest) end h =
    (omega arith, omega (arith, h.0), subst (λ x. IsContiguous (x + len) rest end) (sym h.0) h.1)

-- The archive, what a plan says of it, the range that is sent, and what is known of buffered bytes.
pub record Scene : Type 1 where
  pub nar : Bytes
  pub seg : ℕ → Bytes
  pub lits : Bytes
  pub start : ℕ
  pub end : ℕ
  pub P : ℕ → Bytes → Type 0
  pub closed : IsCutClosed P
  pub honest : (k : ℕ) (b : Bytes) → P k b → At nar k b

module _ (scene : Scene) where
  open scene use {nar, seg, lits, start, end, P, closed, honest}

  -- What the client has is the archive from `start` to the position.
  abbrev pub IsOut : Emitter → Type 0
  IsOut em = (em.emit_pos ≡ start + length (received em.out)) × At nar start (received em.out)

  -- What else an emitter with the spans `rest` to go must be.
  abbrev pub IsReady : List (ℕ × SpanExec) → Emitter → Type 0
  IsReady rest em =
      (drop em.span_i em.spans ≡ rest)
      × (em.lits ≡ lits)
      × All (λ (row : ℕ × (Bytes × ℕ)). row.1.0 ≡ seg row.0) em.held
      × IsSound P closed em.buffered
      × All (Describes nar seg lits) rest

  abbrev pub IsGoing : List (ℕ × SpanExec) → Emitter → Type 0
  IsGoing rest em = IsOut em × IsReady rest em × IsPlaced em.emit_pos em.span_emitted rest end

  -- How a round may end: no index is out of bounds, and no replay has another length.
  abbrev pub Ends : Emitter → Stop → Type 0
  Ends em need_data = (rest : List (ℕ × SpanExec)) × IsGoing rest em
  Ends em finished = At nar start (received em.out) × (start + length (received em.out) ≡ end)
  Ends em panicked = ⊥
  Ends em (replay_length found len) = ⊥
  Ends em client_gone = At nar start (received em.out)
  Ends em hash_mismatch = At nar start (received em.out)
  Ends em early_replay = At nar start (received em.out)

  pub dead-Ends :
      (em em' : Emitter) (stop : Stop)
      → IsDeadEnd stop
      → received em'.out ≡ received em.out
      → IsOut em
      → Ends em' stop
  dead-Ends em em' need_data d e h = elim d [ ]
  dead-Ends em em' finished d e h = elim d [ ]
  dead-Ends em em' client_gone d e h = subst (At nar start) (sym e) h.1
  dead-Ends em em' hash_mismatch d e h = subst (At nar start) (sym e) h.1
  dead-Ends em em' panicked d e h = elim d [ ]
  dead-Ends em em' early_replay d e h = elim d [ ]
  dead-Ends em em' (replay_length found len) d e h = elim d [ ]

  pub sent-IsOut :
      (h b : Bytes) (em : Emitter) → At nar em.emit_pos b → IsOut em → IsOut (sent h b em)
  sent-IsOut h b em at (pos, old) =
      let e : received (em.out ++ piece b ∷ []) ≡ received em.out ++ b =
        received-append em.out (piece b ∷ []) ∙ ap (λ x. received em.out ++ x) (append-nil b) in
      (
        rw e (omega (arith, pos, length-append (received em.out) b)),
        rw e (append-At nar start (received em.out) b old (subst (λ x. At nar x b) pos at)),
      )

  -- What holds of the emitter when a step leaves the spans `rest`.
  abbrev pub Goes : List (ℕ × SpanExec) → Emitter × Option Stop → Type 0
  Goes rest (em, none) = IsGoing rest em
  Goes rest (em, some stop) = Ends em stop

  pub emit-Goes :
      (sha256 : Bytes → Bytes) (listens : ℕ → Bool) (b : Bytes) (em : Emitter)
      (next : Emitter → Emitter × Option Stop) (rest : List (ℕ × SpanExec))
      → At nar em.emit_pos b
      → IsOut em
      → ((h : Bytes) → IsOut (sent h b em) → Goes rest (next (sent h b em)))
      → Goes rest (and_then (emit sha256 listens b em) next)
  emit-Goes sha256 listens b em next rest at old step =
      go (emit sha256 listens b em) (emit-Emitted sha256 listens b em)
    where
      go : (r : Emitter × Option Stop) → Emitted b em r → Goes rest (and_then r next)
      go r (went h) = step h (sent-IsOut h b em at old)
      go r (dead em' stop d e) = dead-Ends em em' stop d e old
