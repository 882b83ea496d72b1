-- ===== src/Sync/Catchup/Pieces.antt =====
-- sync.rs: in which pieces of a plan a sequence number is.
use narshare.Base.{
  ℕ, suc, ◌+◌, ◌≤◌, ◌<◌, ◌≡◌, refl, inl, inr, ◌&&◌, none, some, List, [], ◌∷◌, ◌++◌, ltb, leb,
  if◌then◌else◌, arith, All, Bool-cases,
}
use narshare.Base.Order.{nat_ord, list_ord}
use narshare.Base.Sets.{same, eq_of_same, IsStrict}
use narshare.Base.Keys.{put, get, keys}
use narshare.Wire.{Event}
use narshare.Index.Apply.Collect.{EventRun}
use narshare.Sync.Catchup.{OriginPlan, last_seq, chunk_events, u64_size}

-- Whether the piece after `a` up to `u` has `s`.
abbrev pub hit : ℕ → ℕ → ℕ → ℕ
hit a u s = if ltb a s && leb s u then 1 else 0

abbrev pub queued : ℕ → List (ℕ × ℕ) → ℕ
queued s [] = 0
queued s (iv ∷ retry) = hit iv.0 iv.1 s + queued s retry

abbrev pub waiting : ℕ → List (ℕ × List Event) → ℕ
waiting s [] = 0
waiting s (chunk ∷ chunks) = hit chunk.0 (last_seq chunk.0 chunk.1) s + waiting s chunks

-- A chunk is a run of events that is not empty.
abbrev pub IsChunk : ℕ × List Event → Type 0
IsChunk chunk =
    EventRun chunk.0 chunk.1 (last_seq chunk.0 chunk.1) × (chunk.0 < last_seq chunk.0 chunk.1)

-- In how many pieces `s` is; `f` counts those in flight.
abbrev pub pieces : OriginPlan → (ℕ → ℕ) → ℕ → ℕ
pieces p f s = queued s p.retry + waiting s p.buffered + f s

-- What is not applied and was taken up is in exactly one piece; nothing is in two.
pub record IsPlanned (p : OriginPlan) (f : ℕ → ℕ) : Type 0 where
  pub ordered : p.cursor ≤ p.next
  pub bounded : p.target + chunk_events < u64_size
  pub chunks : All IsChunk p.buffered
  pub sorted : IsStrict (keys p.buffered)
  pub once : (s : ℕ) → pieces p f s ≤ 1
  pub covered : (s : ℕ) → p.cursor < s → s ≤ p.next → pieces p f s ≡ 1
  pub fresh : (s : ℕ) → p.next < s → pieces p f s ≡ 0

pub queued-push :
    (s a u : ℕ) (retry : List (ℕ × ℕ))
    → queued s (retry ++ ((a, u) ∷ [])) ≡ hit a u s + queued s retry
queued-push s a u [] = refl
queued-push s a u (iv ∷ retry) = omega (arith, queued-push s a u retry)

pub waiting-get :
    (a : ℕ) (chunks : List (ℕ × List Event)) (events : List Event)
    → All IsChunk chunks
    → get a chunks ≡ some events
    → 1 ≤ waiting (suc a) chunks
unfolding get
waiting-get a [] events all h = cc
waiting-get a ((j, w) ∷ chunks) events all h = elim (Bool-cases (same a j)) [
  | inl e ↦ ground (arith, eq_of_same a j e, all.0.1)
  | inr e ↦ omega (arith, waiting-get a chunks events all.1 (rw e at h))
]

pub waiting-put :
    (s a : ℕ) (events : List Event) (chunks : List (ℕ × List Event))
    → get a chunks ≡ none
    → waiting s (put a events chunks) ≡ hit a (last_seq a events) s + waiting s chunks
unfolding get put
waiting-put s a events [] h = refl
waiting-put s a events ((j, w) ∷ chunks) h = ground (arith, waiting-put s a events chunks)

pub All-put :
    (a : ℕ) (events : List Event) (chunks : List (ℕ × List Event))
    → All IsChunk chunks
    → IsChunk (a, events)
    → All IsChunk (put a events chunks)
unfolding put
All-put a events [] all k = (k, tt)
All-put a events ((j, w) ∷ chunks) all k = ground (arith, All-put a events chunks all.1 k)
