-- ===== src/Fetch/Emit/Rounds.antt =====
-- fetch.rs: a round of emission sends bytes of the archive.
use narshare.Base.{
  ℕ, ◌+◌, ◌-◌, ◌≡◌, refl, sym, subst, Bool, Option, none, some, List, [], ◌∷◌, arith, Result, ok,
  err,
}
use narshare.Base.Order.{nat_ord}
use narshare.Base.Keys.{put, get}
use narshare.Base.Rows.{All-put}
use narshare.Facts.{Bytes}
use narshare.Fetch.{SpanExec, lit_exec, fetch_exec, replay_exec}
use narshare.Fetch.Covers.{IsContiguous}
use narshare.Fetch.Buffer.{Buffer, take_span}
use narshare.Fetch.Buffer.Reading.{eq_of_At}
use narshare.Fetch.Buffer.Cut.{IsSeries}
use narshare.Fetch.Buffer.Whole.{IsWhole, take_span-IsWhole}
use narshare.Fetch.Emit.{
  Stop, Emitter, next_span, concat, pump_next, retain_slices, pump_replay, pump_retained, pump_span,
  pump_spans, pump,
}
use narshare.Fetch.Emit.Content.{none-IsPlaced, Scene, IsGoing, Ends, Goes}
use narshare.Fetch.Emit.Spans.{
  drop_next, lit-Goes, replay-Goes, stream-Goes, series-At, emit_all-Goes,
}

module _ (scene : Scene) where
  open scene use {nar, seg, lits, start, end, P, closed}

  retain-Goes :
      (sha256 : Bytes → Bytes) (listens : ℕ → Bool) (off len unique n : ℕ)
      (taken : Option (Result (List Bytes × Buffer))) (em : Emitter) (rest : List (ℕ × SpanExec))
      → IsWhole P closed off (off + len) taken
      → IsGoing scene ((off, fetch_exec len (some (unique, n))) ∷ rest) em
      → Goes scene rest (retain_slices sha256 listens unique n taken em)
  retain-Goes sha256 listens off len unique n none em rest whole going =
      ((off, fetch_exec len (some (unique, n))) ∷ rest, going)
  retain-Goes sha256 listens off len unique n (some (err e)) em rest whole going = elim whole [ ]
  retain-Goes sha256 listens off len unique n (some (ok (slices, left))) em rest whole going =
      let s : ℕ × SpanExec = (off, fetch_exec len (some (unique, n))) in
      let read = series-At scene off (off + len) slices whole.0 in
      let of_index : concat slices ≡ seg unique =
        eq_of_At nar off (concat slices) (seg unique) read.0 going.1.4.0.1
          (omega (arith, read.1, going.1.4.0.0)) in
      let em' : Emitter = record em {
        buffered = left;
        held = put unique (concat slices, n) em.held;
      } in
      emit_all-Goes scene sha256 listens slices (off + len) em' (λ em''. (next_span em'', none))
        rest (subst (λ x. IsSeries P x slices (off + len)) going.2.1 whole.0) going.0
        (λ h out is_out. (
          is_out,
          (
            drop_next em.span_i em.spans s rest going.1.0,
            going.1.1,
            All-put (λ (row : ℕ × (Bytes × ℕ)). row.1.0 ≡ seg row.0) unique (concat slices, n)
                em.held of_index going.1.2,
            whole.1,
            going.1.4.1,
          ),
          rw going.2.0 (
              none-IsPlaced (off + len) rest end
                (subst (λ x. IsContiguous (x + len) rest end) (sym going.2.1) going.2.2)),
        ))

  -- A step over a span leaves the emitter ready for the spans after it.
  span-Goes :
      (sha256 : Bytes → Bytes) (listens : ℕ → Bool) (s : ℕ × SpanExec) (em : Emitter)
      (rest : List (ℕ × SpanExec))
      → IsGoing scene (s ∷ rest) em
      → Goes scene rest (pump_span sha256 listens s.0 s.1 em)
  unfolding pump_span pump_replay pump_retained
  span-Goes sha256 listens (off, lit_exec o len) em rest going =
      lit-Goes scene sha256 listens off o len em rest going
  span-Goes sha256 listens (off, replay_exec unique len) em rest going =
      replay-Goes scene sha256 listens off unique len (get unique em.held) em rest refl going
  span-Goes sha256 listens (off, fetch_exec len none) em rest going =
      stream-Goes scene sha256 listens off (len - em.span_emitted) len em rest (omega arith) going
  span-Goes sha256 listens (off, fetch_exec len (some (unique, n))) em rest going =
      retain-Goes sha256 listens off len unique n (take_span em.buffered off (off + len)) em rest
        (take_span-IsWhole P closed em.buffered off (off + len) (omega arith) going.1.3) going

  next-Ends :
      (r : Emitter × Option Stop) (rest : List (ℕ × SpanExec)) (next : Emitter → Emitter × Stop)
      → Goes scene rest r
      → ((em : Emitter) → IsGoing scene rest em → Ends scene (next em).0 (next em).1)
      → Ends scene (pump_next r next).0 (pump_next r next).1
  next-Ends (em, none) rest next goes step = step em goes
  next-Ends (em, some stop) rest next goes step = goes

  spans-Ends :
      (sha256 : Bytes → Bytes) (listens : ℕ → Bool) (spans : List (ℕ × SpanExec)) (em : Emitter)
      → IsGoing scene spans em
      → Ends scene (pump_spans sha256 listens spans em).0 (pump_spans sha256 listens spans em).1
  unfolding pump_spans
  spans-Ends sha256 listens [] em (out, ready, placed) = (out.1, omega (arith, out.0, placed.1))
  spans-Ends sha256 listens (s ∷ spans) em going =
      next-Ends (pump_span sha256 listens s.0 s.1 em) spans (pump_spans sha256 listens spans)
        (span-Goes sha256 listens s em spans going) (spans-Ends sha256 listens spans)

  pub pump-Ends :
      (sha256 : Bytes → Bytes) (listens : ℕ → Bool) (em : Emitter) (spans : List (ℕ × SpanExec))
      → IsGoing scene spans em
      → Ends scene (pump sha256 listens em).0 (pump sha256 listens em).1
  unfolding pump
  pump-Ends sha256 listens em spans going =
      subst (λ x. Ends scene (pump_spans sha256 listens x em).0 (pump_spans sha256 listens x em).1)
        (sym going.1.0) (spans-Ends sha256 listens spans em going)
