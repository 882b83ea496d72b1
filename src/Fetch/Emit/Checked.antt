-- ===== src/Fetch/Emit/Checked.antt =====
-- fetch.rs: each step of the emitter keeps the gate on the hash of a whole archive.
use narshare.Base.{
  ℕ, zero, suc, ◌+◌, ◌-◌, ◌≡◌, refl, sym, subst, ap, inl, inr, ◌∙◌, Bool, true, false, Option, none,
  some, List, [], ◌∷◌, ◌++◌, ltb, leb, ◌==◌, if◌then◌else◌, length, arith, Bool-cases, Result, ok,
  err, length-append,
}
use mathlib.Core.List.{append_assoc, append-nil}
use narshare.Base.Order.{nat_ord, list_ord}
use narshare.Base.Sets.{same, eq_of_same}
use narshare.Facts.{Bytes}
use narshare.Base.Keys.{put, get}
use narshare.Fetch.{SpanExec, lit_exec, fetch_exec, replay_exec}
use narshare.Fetch.Buffer.{Buffer, slice, take_prefix, take_span}
use narshare.Fetch.Emit.{
  Message, piece, broken, Stop, need_data, Emitter, next_span, and_then, one_less, keep_held,
  streamed, concat, send, deliver, emit, emit_all, pump_lit, replay_entry, pump_replay,
  stream_piece, pump_stream, retain_slices, pump_retained, pump_span,
}

-- The bytes that the client has.
abbrev pub received : List Message → Bytes
received [] = []
received (piece b ∷ ms) = b ++ received ms
received (broken ∷ ms) = received ms

pub received-append : (ms ns : List Message) → received (ms ++ ns) ≡ received ms ++ received ns
received-append [] ns = refl
received-append (piece b ∷ ms) ns =
    ap (λ x. b ++ x) (received-append ms ns) ∙ sym (append_assoc b (received ms) (received ns))
received-append (broken ∷ ms) ns = received-append ms ns

module _ (sha256 : Bytes → Bytes) (listens : ℕ → Bool) (hash : Bytes) (end : ℕ) where
  -- Whoever has as many bytes as the archive has bytes of its hash.
  abbrev pub IsChecked : Emitter → Type 0
  IsChecked em = length (received em.out) ≡ end → sha256 (received em.out) ≡ hash

  -- While the emission of a whole archive goes on, all that was hashed was sent.
  abbrev pub IsLive : Emitter → Type 0
  IsLive em =
      (em.full ≡ true)
      × (em.nar_hash ≡ hash)
      × (em.end ≡ end)
      × (em.hasher ≡ received em.out)
      × (em.emit_pos ≡ length (received em.out))
      × IsChecked em

  -- A round that waits for data leaves the emitter as the next must find it.
  abbrev pub AtStop : Emitter → Stop → Type 0
  AtStop em need_data = IsLive em
  AtStop em other = IsChecked em

  abbrev pub Keeps : Emitter × Option Stop → Type 0
  Keeps (em, none) = IsLive em
  Keeps (em, some stop) = AtStop em stop

  and_then-Keeps :
      (r : Emitter × Option Stop) (next : Emitter → Emitter × Option Stop)
      → Keeps r
      → ((em : Emitter) → IsLive em → Keeps (next em))
      → Keeps (and_then r next)
  and_then-Keeps (em, none) next h step = step em h
  and_then-Keeps (em, some stop) next h step = h

  if-Keeps :
      (t : Bool) (x y : Emitter × Option Stop)
      → (t ≡ true → Keeps x)
      → (t ≡ false → Keeps y)
      → Keeps (if t then x else y)
  if-Keeps true x y hx hy = hx refl
  if-Keeps false x y hx hy = hy refl

  pub send_broken-IsChecked : (em : Emitter) → IsChecked em → IsChecked (send listens broken em).0
  unfolding send
  send_broken-IsChecked em h = elim (Bool-cases (listens (length em.out))) [
    | inl y ↦
        let e : received (em.out ++ broken ∷ []) ≡ received em.out =
          received-append em.out (broken ∷ []) ∙ append-nil (received em.out) in
        rw (send, y, e) h
    | inr n ↦ rw (send, n) h
  ]

  -- A piece goes out when the bytes with it are not the last or have the hash.
  deliver-Keeps :
      (b : Bytes) (em : Emitter)
      → IsLive em
      → (em.emit_pos + length b ≡ end → sha256 (em.hasher ++ b) ≡ hash)
      → Keeps (deliver listens b (record em { hasher = em.hasher ++ b }))
  unfolding deliver send
  deliver-Keeps b em (full, kept, last, fed, pos, old) gate =
      elim (Bool-cases (listens (length em.out))) [
        | inl y ↦
            let e : received (em.out ++ piece b ∷ []) ≡ received em.out ++ b =
              received-append em.out (piece b ∷ [])
              ∙ ap (λ x. received em.out ++ x) (append-nil b) in
            let n = length-append (received em.out) b in
            rw (deliver, send, y, e)
              (
                full,
                kept,
                last,
                ap (λ x. x ++ b) fed,
                omega (arith, n, pos),
                λ whole.
                    subst (λ x. sha256 (x ++ b) ≡ hash) fed (gate (omega (arith, n, pos, whole))),
              )
        | inr n ↦ rw (deliver, send, n) old
      ]

  pub emit-Keeps : (b : Bytes) (em : Emitter) → IsLive em → Keeps (emit sha256 listens b em)
  unfolding emit
  emit-Keeps b em live =
      if-Keeps em.full _ _
        (λ y.
          if-Keeps (em.emit_pos + length b == em.end) _ _
            (λ last.
              if-Keeps (same (sha256 (em.hasher ++ b)) em.nar_hash) _ _
                (λ good.
                  deliver-Keeps b em live
                    (λ w. eq_of_same (sha256 (em.hasher ++ b)) em.nar_hash good ∙ live.1))
                (λ bad. send_broken-IsChecked (record em { hasher = em.hasher ++ b }) live.5))
            (λ more. deliver-Keeps b em live (λ w. absurd (ground (arith, w, more, live.2)))))
        (λ n. cc (n, live.0))

  emit_all-Keeps :
      (bs : List Bytes) (em : Emitter) → IsLive em → Keeps (emit_all sha256 listens bs em)
  unfolding emit_all
  emit_all-Keeps [] em live = live
  emit_all-Keeps (b ∷ bs) em live =
      and_then-Keeps (emit sha256 listens b em) (emit_all sha256 listens bs) (emit-Keeps b em live)
        (emit_all-Keeps bs)

  -- A piece goes out, and the next span is taken up.
  emit_next-Keeps :
      (b : Bytes) (em : Emitter)
      → IsLive em
      → Keeps (and_then (emit sha256 listens b em) (λ em'. (next_span em', none)))
  emit_next-Keeps b em live =
      and_then-Keeps (emit sha256 listens b em) (λ em'. (next_span em', none))
        (emit-Keeps b em live) (λ em' h. h)

  replay_entry-Keeps :
      (unique len : ℕ) (row : Option (Bytes × ℕ)) (em : Emitter)
      → IsLive em
      → Keeps (replay_entry sha256 listens unique len row em)
  replay_entry-Keeps unique len none em live = live.5
  replay_entry-Keeps unique len (some (bytes, n)) em live =
      if-Keeps (length bytes == len) _ _
        (λ y. emit_next-Keeps bytes (keep_held unique bytes (one_less n) em) live) (λ n. live.5)

  stream_piece-Keeps :
      (p : Option (Bytes × Buffer)) (em : Emitter) (rest : Emitter → Emitter × Option Stop)
      → IsLive em
      → ((em' : Emitter) → IsLive em' → Keeps (rest em'))
      → Keeps (stream_piece sha256 listens p em rest)
  stream_piece-Keeps none em rest live step = live
  stream_piece-Keeps (some (b, left)) em rest live step =
      and_then-Keeps (emit sha256 listens b (streamed b left em)) rest
        (emit-Keeps b (streamed b left em) live) step

  pump_stream-Keeps :
      (fuel len : ℕ) (em : Emitter) → IsLive em → Keeps (pump_stream sha256 listens fuel len em)
  unfolding pump_stream
  pump_stream-Keeps zero len em live =
      if-Keeps (ltb em.span_emitted len) _ _ (λ y. live.5) (λ n. live)
  pump_stream-Keeps (suc fuel) len em live =
      if-Keeps (ltb em.span_emitted len) _ _
        (λ y.
          stream_piece-Keeps (take_prefix em.buffered em.emit_pos (len - em.span_emitted)) em
            (pump_stream sha256 listens fuel len) live (pump_stream-Keeps fuel len))
        (λ n. live)

  retain_slices-Keeps :
      (unique n : ℕ) (taken : Option (Result (List Bytes × Buffer))) (em : Emitter)
      → IsLive em
      → Keeps (retain_slices sha256 listens unique n taken em)
  retain_slices-Keeps unique n none em live = live
  retain_slices-Keeps unique n (some (err reason)) em live = live.5
  retain_slices-Keeps unique n (some (ok (slices, left))) em live =
      and_then-Keeps _ (λ em'. (next_span em', none))
        (emit_all-Keeps slices
          (record em { buffered = left; held = put unique (concat slices, n) em.held }) live)
        (λ em' h. h)

  pub pump_span-Keeps :
      (off : ℕ) (e : SpanExec) (em : Emitter)
      → IsLive em
      → Keeps (pump_span sha256 listens off e em)
  unfolding pump_span pump_lit pump_replay pump_retained
  pump_span-Keeps off (lit_exec lit_off len) em live =
      if-Keeps (leb (lit_off + len) (length em.lits)) _ _
        (λ y. emit_next-Keeps (slice lit_off (lit_off + len) em.lits) em live) (λ n. live.5)
  pump_span-Keeps off (replay_exec unique len) em live =
      replay_entry-Keeps unique len (get unique em.held) em live
  pump_span-Keeps off (fetch_exec len none) em live =
      pump_stream-Keeps (len - em.span_emitted) len em live
  pump_span-Keeps off (fetch_exec len (some (unique, n))) em live =
      retain_slices-Keeps unique n (take_span em.buffered off (off + len)) em live
