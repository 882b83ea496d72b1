-- ===== src/Fetch/Emit/Pieces.antt =====
-- fetch.rs: how the emission of one piece ends.
use narshare.Base.{
  ℕ, ◌+◌, ◌≡◌, refl, inl, inr, ◌∙◌, Bool, true, false, Option, none, some, [], ◌∷◌, ◌++◌, ◌==◌,
  if◌then◌else◌, length, Bool-cases,
}
use mathlib.Core.List.{append-nil}
use narshare.Base.Order.{nat_ord, list_ord}
use narshare.Base.Sets.{same}
use narshare.Facts.{Bytes}
use narshare.Fetch.Emit.{
  piece, broken, Stop, client_gone, hash_mismatch, Emitter, gone_unless, send, deliver, emit,
}
use narshare.Fetch.Emit.Checked.{received, received-append}

-- The emitter when a piece has gone out; `h` is what its hasher has been fed.
abbrev pub sent : Bytes → Bytes → Emitter → Emitter
sent h b em = record em {
  hasher = h;
  emit_pos = em.emit_pos + length b;
  out = em.out ++ piece b ∷ [];
}

abbrev pub IsDeadEnd : Stop → Type 0
IsDeadEnd client_gone = Unit {0}
IsDeadEnd hash_mismatch = Unit {0}
IsDeadEnd other = ⊥

-- A piece goes out, or emission is at a dead end and the client has what it had.
pub data Emitted (b : Bytes) (em : Emitter) : Emitter × Option Stop → Type 0 where
  went : (h : Bytes) → Emitted b em (sent h b em, none)
  dead :
      (em' : Emitter) (stop : Stop)
      → IsDeadEnd stop
      → received em'.out ≡ received em.out
      → Emitted b em (em', some stop)

module _ (listens : ℕ → Bool) where
  deliver-Emitted :
      (b h : Bytes) (em : Emitter) → Emitted b em (deliver listens b (record em { hasher = h }))
  unfolding deliver send
  deliver-Emitted b h em = go (listens (length em.out))
    where
      go :
          (t : Bool)
          → Emitted b em (
              gone_unless (
                if t
                then (sent h b em, true)
                else (record em { hasher = h; emit_pos = em.emit_pos + length b }, false)))
      go true = went h
      go false = dead _ client_gone tt refl

  pub received-broken : (em : Emitter) → received (send listens broken em).0.out ≡ received em.out
  unfolding send
  received-broken em = elim (Bool-cases (listens (length em.out))) [
    | inl y ↦ rw (send, y) (received-append em.out (broken ∷ []) ∙ append-nil (received em.out))
    | inr n ↦ rw (send, n) refl
  ]

if-Emitted :
    (b : Bytes) (em : Emitter) (t : Bool) (x y : Emitter × Option Stop)
    → Emitted b em x
    → Emitted b em y
    → Emitted b em (if t then x else y)
if-Emitted b em true x y hx hy = hx
if-Emitted b em false x y hx hy = hy

module _ (sha256 : Bytes → Bytes) (listens : ℕ → Bool) where
  pub emit-Emitted : (b : Bytes) (em : Emitter) → Emitted b em (emit sha256 listens b em)
  unfolding emit
  emit-Emitted b em =
      let h = em.hasher ++ b in
      let goes = deliver-Emitted listens b h em in
      let fed = record em { hasher = h } in
      if-Emitted b em em.full _ _
        (if-Emitted b em (em.emit_pos + length b == em.end) _ _
          (if-Emitted b em (same (sha256 h) em.nar_hash) _ _ goes
            (dead (send listens broken fed).0 hash_mismatch tt (received-broken listens fed)))
          goes)
        (deliver-Emitted listens b em.hasher em)
