-- ===== src/Fetch/Emit/Spans.antt =====
-- fetch.rs: each kind of span sends its bytes of the archive.
use narshare.Base.{
  ℕ, zero, suc, ◌+◌, ◌-◌, ◌≤◌, ◌<◌, ◌≡◌, sym, subst, ap, inl, inr, ◌∙◌, Bool, Option, none, some,
  List, [], ◌∷◌, ltb, ◌==◌, length, drop, All, arith, Bool-cases, length-append, le→leb, ltb→lt,
  ==_iff,
}
use narshare.Base.Order.{nat_ord, list_ord}
use narshare.Base.Keys.{get}
use narshare.Base.Rows.{All-put, All-delete, All-get}
use narshare.Facts.{Bytes}
use narshare.Fetch.{SpanExec, lit_exec, fetch_exec, replay_exec}
use narshare.Fetch.Covers.{IsContiguous}
use narshare.Fetch.Buffer.{Buffer, slice}
use narshare.Fetch.Buffer.Reading.{At, append-At}
use narshare.Fetch.Buffer.Cut.{IsSeries, IsPiece, take_prefix-IsPiece, length-slice}
use narshare.Fetch.Emit.{
  Message, Stop, Emitter, next_span, and_then, one_less, keep_held, streamed, end_stream, concat,
  emit, emit_all, pump_lit, replay_entry, stream_piece, pump_stream,
}
use narshare.Fetch.Emit.Pieces.{sent, Emitted, went, dead, emit-Emitted}
use narshare.Fetch.Emit.Content.{
  none-IsPlaced, Scene, IsOut, IsReady, IsGoing, Goes, dead-Ends, sent-IsOut, emit-Goes,
}

pub drop_next :
    (i : ℕ) (spans : List (ℕ × SpanExec)) (s : ℕ × SpanExec) (rest : List (ℕ × SpanExec))
    → drop i spans ≡ s ∷ rest
    → drop (i + 1) spans ≡ rest
drop_next zero [] s rest e = cc e
drop_next zero (x ∷ spans) s rest e = cc e
drop_next (suc i) [] s rest e = cc e
drop_next (suc i) (x ∷ spans) s rest e =
    let f : suc i + 1 ≡ suc (i + 1) = omega arith in rw f (drop_next i spans s rest e)

module _ (scene : Scene) where
  open scene use {nar, seg, lits, start, end, P, closed, honest}

  -- A piece of the rest of the span goes out, and the next span is taken up.
  emit_next-Goes :
      (sha256 : Bytes → Bytes) (listens : ℕ → Bool) (b : Bytes) (em : Emitter) (s : ℕ × SpanExec)
      (rest : List (ℕ × SpanExec))
      → At nar em.emit_pos b
      → IsOut scene em
      → IsReady scene (s ∷ rest) em
      → em.span_emitted ≡ 0
      → IsContiguous (em.emit_pos + length b) rest end
      → Goes scene rest (and_then (emit sha256 listens b em) (λ em'. (next_span em', none)))
  emit_next-Goes sha256 listens b em s rest at old ready zero_emitted laid =
      emit-Goes scene sha256 listens b em (λ em'. (next_span em', none)) rest at old
        (λ h out. (
          out,
          (drop_next em.span_i em.spans s rest ready.0, ready.1, ready.2, ready.3, ready.4.1),
          rw zero_emitted (none-IsPlaced (em.emit_pos + length b) rest end laid),
        ))

  pub lit-Goes :
      (sha256 : Bytes → Bytes) (listens : ℕ → Bool) (off o len : ℕ) (em : Emitter)
      (rest : List (ℕ × SpanExec))
      → IsGoing scene ((off, lit_exec o len) ∷ rest) em
      → Goes scene rest (pump_lit sha256 listens o len em)
  unfolding pump_lit
  lit-Goes sha256 listens off o len em rest (out, ready, placed) =
      let fits : o + len ≤ length em.lits = rw ready.1 ready.4.0.0 in
      let n = length-slice o (o + len) em.lits fits in
      let at : At nar off (slice o (o + len) em.lits) = rw ready.1 ready.4.0.1 in
      rw (pump_lit, le→leb _ _ fits)
        (emit_next-Goes sha256 listens (slice o (o + len) em.lits) em (off, lit_exec o len) rest
          (subst (λ x. At nar x (slice o (o + len) em.lits)) placed.1 at) out ready placed.0
          (subst (λ x. IsContiguous (em.emit_pos + x) rest end) (omega (arith, n)) placed.2))

  held-All :
      (unique n : ℕ) (bytes : Bytes) (em : Emitter)
      → bytes ≡ seg unique
      → All (λ (row : ℕ × (Bytes × ℕ)). row.1.0 ≡ seg row.0) em.held
      → All (λ (row : ℕ × (Bytes × ℕ)). row.1.0 ≡ seg row.0) (keep_held unique bytes n em).held
  held-All unique n bytes em e h = elim (Bool-cases (n == 0)) [
    | inl y ↦ rw y (All-delete _ unique em.held h)
    | inr more ↦ rw more (All-put _ unique (bytes, n) em.held e h)
  ]

  pub replay-Goes :
      (sha256 : Bytes → Bytes) (listens : ℕ → Bool) (off unique len : ℕ) (row : Option (Bytes × ℕ))
      (em : Emitter) (rest : List (ℕ × SpanExec))
      → get unique em.held ≡ row
      → IsGoing scene ((off, replay_exec unique len) ∷ rest) em
      → Goes scene rest (replay_entry sha256 listens unique len row em)
  replay-Goes sha256 listens off unique len none em rest e (out, ready, placed) = out.1
  replay-Goes sha256 listens off unique len (some (bytes, n)) em rest e (out, ready, placed) =
      let same_bytes =
        All-get (λ (row : ℕ × (Bytes × ℕ)). row.1.0 ≡ seg row.0) unique (bytes, n) em.held ready.2
          e in
      let size : length bytes ≡ len = ap length same_bytes ∙ ready.4.0.0 in
      let at : At nar off bytes = rw same_bytes ready.4.0.1 in
      rw ((==_iff (length bytes) len).1 size) (
        emit_next-Goes sha256 listens bytes (keep_held unique bytes (one_less n) em)
          (off, replay_exec unique len) rest (subst (λ x. At nar x bytes) placed.1 at) out
          (
            ready.0,
            ready.1,
            held-All unique (one_less n) bytes em same_bytes ready.2,
            ready.3,
            ready.4,
          )
          placed.0 (subst (λ x. IsContiguous (em.emit_pos + x) rest end) (sym size) placed.2))

  -- The loop over a span that streams in: the fuel is what is left of the span.
  end_stream-Goes :
      (off len : ℕ) (em : Emitter) (rest : List (ℕ × SpanExec))
      → len ≤ em.span_emitted
      → IsGoing scene ((off, fetch_exec len none) ∷ rest) em
      → Goes scene rest (end_stream em)
  end_stream-Goes off len em rest le (out, ready, placed) =
      let e : off + len ≡ em.emit_pos = omega (arith, le, placed.0, placed.1) in
      (
        out,
        (drop_next em.span_i em.spans _ rest ready.0, ready.1, ready.2, ready.3, ready.4.1),
        none-IsPlaced em.emit_pos rest end (subst (λ x. IsContiguous x rest end) e placed.2),
      )

  stream_piece-Goes :
      (sha256 : Bytes → Bytes) (listens : ℕ → Bool) (off len : ℕ) (p : Option (Bytes × Buffer))
      (em : Emitter) (rest : List (ℕ × SpanExec)) (next : Emitter → Emitter × Option Stop)
      → IsPiece P closed em.emit_pos (len - em.span_emitted) p
      → em.span_emitted < len
      → IsGoing scene ((off, fetch_exec len none) ∷ rest) em
      → ((em' : Emitter)
          → em.span_emitted < em'.span_emitted
          → IsGoing scene ((off, fetch_exec len none) ∷ rest) em'
          → Goes scene rest (next em'))
      → Goes scene rest (stream_piece sha256 listens p em next)
  stream_piece-Goes sha256 listens off len none em rest next part lt going step =
      ((off, fetch_exec len none) ∷ rest, going)
  stream_piece-Goes sha256 listens off len (some (b, left)) em rest next part lt going step =
      emit-Goes scene sha256 listens b (streamed b left em) next rest (honest em.emit_pos b part.0)
        going.0
        (λ h sent_out. step (sent h b (streamed b left em)) (omega (arith, part.2)) (
          sent_out,
          (going.1.0, going.1.1, going.1.2, part.3, going.1.4),
          (omega (arith, part.1, lt), omega (arith, going.2.1), going.2.2),
        ))

  pub stream-Goes :
      (sha256 : Bytes → Bytes) (listens : ℕ → Bool) (off fuel len : ℕ) (em : Emitter)
      (rest : List (ℕ × SpanExec))
      → len ≤ em.span_emitted + fuel
      → IsGoing scene ((off, fetch_exec len none) ∷ rest) em
      → Goes scene rest (pump_stream sha256 listens fuel len em)
  unfolding pump_stream
  stream-Goes sha256 listens off zero len em rest le going =
      elim (Bool-cases (ltb em.span_emitted len)) [
        | inl more ↦ absurd (ground (arith, le, more))
        | inr done ↦ rw done (end_stream-Goes off len em rest (omega (arith, le)) going)
      ]
  stream-Goes sha256 listens off (suc fuel) len em rest le going =
      elim (Bool-cases (ltb em.span_emitted len)) [
        | inl more ↦
            let lt : em.span_emitted < len = ltb→lt _ _ more in
            rw more (
              stream_piece-Goes sha256 listens off len _ em rest
                (pump_stream sha256 listens fuel len)
                (take_prefix-IsPiece P closed em.buffered em.emit_pos (len - em.span_emitted)
                  (omega (arith, lt)) going.1.3)
                lt going
                (λ em' grown going'.
                  stream-Goes sha256 listens off fuel len em' rest (omega (arith, le, grown))
                    going'))
        | inr done ↦ rw done (end_stream-Goes off len em rest (ground (arith, done)) going)
      ]

  -- A span that is retained: its pieces follow one another over the whole of it.
  pub series-At :
      (a z : ℕ) (bs : List Bytes)
      → IsSeries P a bs z
      → At nar a (concat bs) × (a + length (concat bs) ≡ z)
  unfolding concat
  series-At a z [] h = (λ i lt. absurd (omega (arith, lt)), omega (arith, h))
  series-At a z (b ∷ bs) h =
      let rest = series-At (a + length b) z bs h.2 in
      (
        append-At nar a b (concat bs) (honest a b h.0) rest.0,
        omega (arith, rest.1, length-append b (concat bs)),
      )

  abbrev pub moved : Bytes → ℕ → List Message → Emitter → Emitter
  moved h pos out em = record em { hasher = h; emit_pos = pos; out = out }

  pub emit_all-Goes :
      (sha256 : Bytes → Bytes) (listens : ℕ → Bool) (bs : List Bytes) (z : ℕ) (em : Emitter)
      (next : Emitter → Emitter × Option Stop) (rest : List (ℕ × SpanExec))
      → IsSeries P em.emit_pos bs z
      → IsOut scene em
      → ((h : Bytes) (out : List Message)
          → IsOut scene (moved h z out em)
          → Goes scene rest (next (moved h z out em)))
      → Goes scene rest (and_then (emit_all sha256 listens bs em) next)
  unfolding emit_all
  emit_all-Goes sha256 listens [] z em next rest series old step =
      subst
        (λ x.
          IsOut scene (moved em.hasher x em.out em)
          → Goes scene rest (next (moved em.hasher x em.out em)))
        (sym series) (step em.hasher em.out) old
  emit_all-Goes sha256 listens (b ∷ bs) z em next rest series old step =
      go (emit sha256 listens b em) (emit-Emitted sha256 listens b em)
        (λ h. emit_all-Goes sha256 listens bs z (sent h b em) next rest series.2)
    where
      go :
          (r : Emitter × Option Stop)
          → Emitted b em r
          → ((h : Bytes)
              → IsOut scene (sent h b em)
              → ((h' : Bytes) (out : List Message)
                  → IsOut scene (moved h' z out em)
                  → Goes scene rest (next (moved h' z out em)))
              → Goes scene rest (and_then (emit_all sha256 listens bs (sent h b em)) next))
          → Goes scene rest (and_then (and_then r (emit_all sha256 listens bs)) next)
      go r (went h) ih = ih h (sent-IsOut scene h b em (honest em.emit_pos b series.0) old) step
      go r (dead em' stop d e) ih = dead-Ends scene em em' stop d e old
