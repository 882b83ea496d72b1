-- ===== src/Fetch/Emit/Transfer.antt =====
-- fetch.rs: a transfer sends the archive, however its chunks arrive.
use narshare.Base.{
  ℕ, ◌+◌, ◌≤◌, ◌<◌, ◌≡◌, ◌≢◌, refl, sym, subst, inl, inr, ◌⊎◌, Bool, List, [], ◌∷◌, leb, length,
  All, arith, Bool-cases,
}
use narshare.Base.Order.{nat_ord}
use narshare.Base.Keys.{put}
use narshare.Base.Rows.{All-put}
use narshare.Facts.{Bytes}
use narshare.Narinfo.{RemoteNarinfo}
use narshare.Fetch.{SpanExec, Plan}
use narshare.Fetch.Covers.{IsContiguous}
use narshare.Fetch.Buffer.{Buffer, slice}
use narshare.Fetch.Buffer.Disjoint.{IsDisjoint, IsFree, Beside, put-IsDisjoint, IsDisjoint-lower}
use narshare.Fetch.Buffer.Reading.{At, slice-At}
use narshare.Fetch.Buffer.Cut.{IsCutClosed, length-slice}
use narshare.Fetch.Emit.{
  Stop, need_data, finished, client_gone, hash_mismatch, panicked, early_replay, replay_length,
  Emitter, new_emitter, drop_passed, land_first, pump, told, land_all, transfer_with,
}
use narshare.Fetch.Emit.Checked.{received}
use narshare.Fetch.Emit.Pieces.{received-broken}
use narshare.Fetch.Emit.Content.{Describes, none-IsPlaced, Scene, IsGoing, Ends}
use narshare.Fetch.Emit.Rounds.{pump-Ends}

-- Chunks of the archive, none empty, with no byte in common.
abbrev pub AreChunks : Bytes → List (ℕ × Bytes) → Type 0
AreChunks nar [] = Unit {0}
AreChunks nar (c ∷ cs) =
    At nar c.0 c.1
    × (0 < length c.1)
    × All (λ (d : ℕ × Bytes). Beside c.0 (length c.1) d.0 (length d.1)) cs
    × AreChunks nar cs

-- What is known of buffered bytes while chunks are still to come.
abbrev IsBuffered : Bytes → List (ℕ × Bytes) → ℕ → Bytes → Type 0
IsBuffered nar cs k b =
    At nar k b × All (λ (d : ℕ × Bytes). Beside k (length b) d.0 (length d.1)) cs

Beside-part :
    (k n j m : ℕ) (cs : List (ℕ × Bytes))
    → k ≤ j
    → j + m ≤ k + n
    → All (λ (d : ℕ × Bytes). Beside k n d.0 (length d.1)) cs
    → All (λ (d : ℕ × Bytes). Beside j m d.0 (length d.1)) cs
Beside-part k n j m [] low high h = tt
Beside-part k n j m (d ∷ cs) low high h = (ground (arith, h.0), Beside-part k n j m cs low high h.1)

IsBuffered-IsCutClosed : (nar : Bytes) (cs : List (ℕ × Bytes)) → IsCutClosed (IsBuffered nar cs)
IsBuffered-IsCutClosed nar cs k from to b h lt le = (
  slice-At nar k from to b h.0,
  Beside-part k (length b) (k + from) (length (slice from to b)) cs (omega arith)
      (omega (arith, length-slice from to b le)) h.1,
)

module _ (nar : Bytes) (seg : ℕ → Bytes) (lits : Bytes) (start end : ℕ) where
  abbrev scene : List (ℕ × Bytes) → Scene
  scene cs = record {
    nar = nar;
    seg = seg;
    lits = lits;
    start = start;
    end = end;
    P = IsBuffered nar cs;
    closed = IsBuffered-IsCutClosed nar cs;
    honest = λ k b h. h.0;
  }

  -- How a transfer ends.
  abbrev IsSent : Emitter × Stop → Type 0
  IsSent (em, stop) =
      At nar start (received em.out)
      × ((stop ≢ finished) ⊎ (start + length (received em.out) ≡ end))
      × (stop ≢ panicked)

  told-IsSent :
      (listens : ℕ → Bool) (cs : List (ℕ × Bytes)) (r : Emitter × Stop)
      (next : Emitter → Emitter × Stop)
      → Ends (scene cs) r.0 r.1
      → ((em : Emitter) (spans : List (ℕ × SpanExec))
          → IsGoing (scene cs) spans em
          → IsSent (next em))
      → IsSent (land_first (told listens r) next)
  told-IsSent listens cs (em, need_data) next h step = step em h.0 h.1
  told-IsSent listens cs (em, finished) next h step = (h.0, inr h.1, λ e. cc e)
  told-IsSent listens cs (em, client_gone) next h step = (h, inl (λ e. cc e), λ e. cc e)
  told-IsSent listens cs (em, hash_mismatch) next h step = (h, inl (λ e. cc e), λ e. cc e)
  told-IsSent listens cs (em, panicked) next h step = elim h [ ]
  told-IsSent listens cs (em, early_replay) next h step =
      (subst (At nar start) (sym (received-broken listens em)) h, inl (λ e. cc e), λ e. cc e)
  told-IsSent listens cs (em, replay_length found len) next h step = elim h [ ]

  IsFree-room :
      (c : ℕ × Bytes) (cs : List (ℕ × Bytes)) (buf : Buffer)
      → All (λ (row : ℕ × Bytes). IsBuffered nar (c ∷ cs) row.0 row.1) buf
      → IsFree c.0 (length c.1) buf
  IsFree-room c cs [] h = tt
  IsFree-room c cs (row ∷ buf) h = (ground (arith, h.0.1.0), IsFree-room c cs buf h.1)

  tail_of :
      (c : ℕ × Bytes) (cs : List (ℕ × Bytes)) (buf : Buffer)
      → All (λ (row : ℕ × Bytes). IsBuffered nar (c ∷ cs) row.0 row.1) buf
      → All (λ (row : ℕ × Bytes). IsBuffered nar cs row.0 row.1) buf
  tail_of c cs [] h = tt
  tail_of c cs (row ∷ buf) h = ((h.0.0, h.0.1.1), tail_of c cs buf h.1)

  drop_passed-keeps :
      (Q : ℕ × Bytes → Type 0) (pos a : ℕ) (buf : Buffer)
      → IsDisjoint a buf
      → All Q buf
      → IsDisjoint a (drop_passed pos buf) × All Q (drop_passed pos buf)
  unfolding drop_passed
  drop_passed-keeps Q pos a [] d h = (tt, tt)
  drop_passed-keeps Q pos a ((k, b) ∷ buf) d h = elim (Bool-cases (leb (k + length b) pos)) [
    | inl y ↦ rw y (
        drop_passed-keeps Q pos a buf
          (IsDisjoint-lower (k + length b) a buf (omega (arith, d.0)) d.2) h.1)
    | inr more ↦ rw more (d, h)
  ]

  land_all-IsSent :
      (sha256 : Bytes → Bytes) (listens : ℕ → Bool) (cs : List (ℕ × Bytes)) (em : Emitter)
      (spans : List (ℕ × SpanExec))
      → AreChunks nar cs
      → IsGoing (scene cs) spans em
      → IsSent (land_all sha256 listens cs em)
  unfolding land_all
  land_all-IsSent sha256 listens [] em spans chunks going = (going.0.1, inl (λ e. cc e), λ e. cc e)
  land_all-IsSent sha256 listens (c ∷ cs) em spans chunks going =
      let free = IsFree-room c cs em.buffered going.1.3.1 in
      let em' : Emitter = record em { buffered = put c.0 c.1 em.buffered } in
      told-IsSent listens cs (pump sha256 listens em')
        (λ e.
          land_all sha256 listens cs (record e { buffered = drop_passed e.emit_pos e.buffered }))
        (pump-Ends (scene cs) sha256 listens em' spans (
          going.0,
          (
            going.1.0,
            going.1.1,
            going.1.2,
            (
              put-IsDisjoint 0 c.0 c.1 em.buffered (omega arith) chunks.1 free going.1.3.0,
              All-put _ c.0 c.1 em.buffered (chunks.0, chunks.2)
                  (tail_of c cs em.buffered going.1.3.1),
            ),
            going.1.4,
          ),
          going.2,
        ))
        (λ e rest h.
          land_all-IsSent sha256 listens cs
            (record e { buffered = drop_passed e.emit_pos e.buffered }) rest chunks.3
            (
              h.0,
              (
                h.1.0,
                h.1.1,
                h.1.2,
                drop_passed-keeps _ e.emit_pos 0 e.buffered h.1.3.0 h.1.3.1,
                h.1.4,
              ),
              h.2,
            ))

-- A plan whose spans follow one another from `start` to `end` and describe the archive, and chunks of
-- the archive with no byte in common, in any order of arrival: what the client is sent is the archive
-- from `start` on, byte by byte; a transfer that ends as finished has sent all of it up to `end`; and
-- no index is out of bounds.
pub transfer_with-sends :
    (sha256 : Bytes → Bytes) (listens : ℕ → Bool) (nar : Bytes) (seg : ℕ → Bytes) (plan : Plan)
    (info : RemoteNarinfo) (start end : ℕ) (full : Bool) (chunks : List (ℕ × Bytes))
    → IsContiguous start plan.spans end
    → All (Describes nar seg plan.lits) plan.spans
    → AreChunks nar chunks
    → At nar start (received (transfer_with sha256 listens plan info start end full chunks).0.out)
      × (((transfer_with sha256 listens plan info start end full chunks).1 ≢ finished)
          ⊎ (start
                + length
                    (received (transfer_with sha256 listens plan info start end full chunks).0.out)
              ≡ end))
      × ((transfer_with sha256 listens plan info start end full chunks).1 ≢ panicked)
unfolding transfer_with new_emitter
transfer_with-sends sha256 listens nar seg plan info start end full chunks laid describes are =
    told-IsSent nar seg plan.lits start end listens chunks
      (pump sha256 listens (new_emitter plan info start end full)) (land_all sha256 listens chunks)
      (pump-Ends (scene nar seg plan.lits start end chunks) sha256 listens
        (new_emitter plan info start end full) plan.spans going)
      (λ em spans h.
        land_all-IsSent nar seg plan.lits start end sha256 listens chunks em spans are h)
  where
    going :
        IsGoing
          (scene nar seg plan.lits start end chunks)
          plan.spans
          (new_emitter plan info start end full)
    going = (
      (omega arith, λ i lt. absurd (omega (arith, lt))),
      (refl, refl, tt, (tt, tt), describes),
      none-IsPlaced start plan.spans end laid,
    )
