-- ===== src/Fetch/Emit/Gate.antt =====
-- fetch.rs: the gate on the hash of a whole archive, over a transfer.
use narshare.Base.{
  ℕ, ◌<◌, ◌≡◌, refl, Bool, true, ◌&&◌, Option, none, some, List, [], ◌∷◌, ◌==◌, length, drop, arith,
}
use narshare.Base.Order.{nat_ord, list_ord}
use narshare.Facts.{Bytes}
use narshare.Base.Keys.{put}
use narshare.Manifest.{Manifest}
use narshare.Narinfo.{RemoteNarinfo}
use narshare.Fetch.{SpanExec, Plan}
use narshare.Fetch.Emit.{
  Stop, need_data, finished, client_gone, hash_mismatch, panicked, early_replay, replay_length,
  Emitter, new_emitter, transfer_plan, pump_next, drop_passed, land_first, pump_span, pump_spans,
  pump, told, land, land_all, transfer,
}
use narshare.Fetch.Emit.Checked.{
  received, IsChecked, IsLive, Keeps, AtStop, send_broken-IsChecked, pump_span-Keeps,
}

module _ (sha256 : Bytes → Bytes) (listens : ℕ → Bool) (hash : Bytes) (end : ℕ) where
  abbrev pub Rests : Emitter × Stop → Type 0
  Rests (em, stop) = AtStop sha256 listens hash end em stop

  pump_next-Rests :
      (r : Emitter × Option Stop) (rest : Emitter → Emitter × Stop)
      → Keeps sha256 listens hash end r
      → ((em : Emitter) → IsLive sha256 listens hash end em → Rests (rest em))
      → Rests (pump_next r rest)
  pump_next-Rests (em, none) rest h step = step em h
  pump_next-Rests (em, some stop) rest h step = h

  pump_spans-Rests :
      (spans : List (ℕ × SpanExec)) (em : Emitter)
      → IsLive sha256 listens hash end em
      → Rests (pump_spans sha256 listens spans em)
  unfolding pump_spans
  pump_spans-Rests [] em live = live.5
  pump_spans-Rests (s ∷ spans) em live =
      pump_next-Rests (pump_span sha256 listens s.0 s.1 em) (pump_spans sha256 listens spans)
        (pump_span-Keeps sha256 listens hash end s.0 s.1 em live) (pump_spans-Rests spans)

  told-Rests : (r : Emitter × Stop) → Rests r → Rests (told listens r)
  told-Rests (em, need_data) h = h
  told-Rests (em, finished) h = h
  told-Rests (em, client_gone) h = h
  told-Rests (em, hash_mismatch) h = h
  told-Rests (em, panicked) h = h
  told-Rests (em, early_replay) h = send_broken-IsChecked sha256 listens hash end em h
  told-Rests (em, replay_length found len) h = send_broken-IsChecked sha256 listens hash end em h

  pub pump-Rests :
      (em : Emitter)
      → IsLive sha256 listens hash end em
      → Rests (told listens (pump sha256 listens em))
  unfolding pump
  pump-Rests em live = told-Rests _ (pump_spans-Rests (drop em.span_i em.spans) em live)

  -- One round, then the rest where it waits.
  first-IsChecked :
      (r : Emitter × Stop) (rest : Emitter → Emitter × Stop)
      → Rests r
      → ((em : Emitter)
          → IsLive sha256 listens hash end em
          → IsChecked sha256 listens hash end (rest em).0)
      → IsChecked sha256 listens hash end (land_first r rest).0
  first-IsChecked (em, need_data) rest h step = step em h
  first-IsChecked (em, finished) rest h step = h
  first-IsChecked (em, client_gone) rest h step = h
  first-IsChecked (em, hash_mismatch) rest h step = h
  first-IsChecked (em, panicked) rest h step = h
  first-IsChecked (em, early_replay) rest h step = h
  first-IsChecked (em, replay_length found len) rest h step = h

  land_all-IsChecked :
      (cs : List (ℕ × Bytes)) (em : Emitter)
      → IsLive sha256 listens hash end em
      → IsChecked sha256 listens hash end (land_all sha256 listens cs em).0
  unfolding land_all
  land_all-IsChecked [] em live = live.5
  land_all-IsChecked (c ∷ cs) em live =
      first-IsChecked (land sha256 listens c em)
        (λ em'.
          land_all sha256 listens cs
            (record em' { buffered = drop_passed em'.emit_pos em'.buffered }))
        (pump-Rests (record em { buffered = put c.0 c.1 em.buffered }) live)
        (λ em' h.
          land_all-IsChecked cs (record em' { buffered = drop_passed em'.emit_pos em'.buffered }) h)

-- However the chunks of a whole archive arrive, whatever they hold, and whatever manifest the plan
-- is made from: a client that has received as many bytes as the narinfo claims, at least one, has
-- received bytes whose digest is the narinfo's.
pub transfer-gated :
    (sha256 : Bytes → Bytes) (listens : ℕ → Bool) (hex : Bytes → Option Bytes)
    (manifest : Option Manifest) (info : RemoteNarinfo) (budget window : ℕ)
    (chunks : List (ℕ × Bytes))
    → 0 < info.nar_size
    → length (
        received
          (transfer sha256 listens hex manifest info 0 info.nar_size budget window chunks).0.out)
      ≡ info.nar_size
    → sha256 (
        received
          (transfer sha256 listens hex manifest info 0 info.nar_size budget window chunks).0.out)
      ≡ info.nar_hash
unfolding transfer new_emitter
transfer-gated sha256 listens hex manifest info budget window chunks pos =
    first-IsChecked sha256 listens info.nar_hash info.nar_size
      (told listens (pump sha256 listens (new_emitter plan info 0 info.nar_size full)))
      (land_all sha256 listens chunks)
      (pump-Rests sha256 listens info.nar_hash info.nar_size
        (new_emitter plan info 0 info.nar_size full)
        (full_lem, refl, refl, refl, refl, λ whole. absurd (omega (arith, whole, pos))))
      (land_all-IsChecked sha256 listens info.nar_hash info.nar_size chunks)
  where
    full : Bool
    full = (◌==◌ 0 0) && (info.nar_size == info.nar_size)

    full_lem : full ≡ true
    full_lem = ground arith

    plan : Plan
    plan = transfer_plan hex manifest info 0 info.nar_size full budget window
