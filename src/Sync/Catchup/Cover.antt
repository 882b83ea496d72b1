-- ===== src/Sync/Catchup/Cover.antt =====
-- sync.rs: what the operations of the planner do to the pieces of a plan.
use narshare.Base.{
  ℕ, suc, ◌+◌, ◌%◌, ◌≤◌, ◌<◌, ◌≡◌, refl, ap, ◌∙◌, inl, inr, ◌⊎◌, true, Option, none, some, List, [],
  ◌∷◌, ◌++◌, ltb, if◌then◌else◌, min, max, arith, All, Bool-cases, Option-cases,
}
use narshare.Base.Order.{nat_ord, list_ord}
use narshare.Base.Sets.{IsStrict}
use narshare.Base.Keys.{get, keys, put-IsStrict}
use narshare.Wire.{Event}
use narshare.Sync.Catchup.{
  OriginPlan, new_plan, pick, complete_plan, struck, advanced, last_seq, chunk_events, u64_size,
}
use narshare.Sync.Catchup.Pieces.{
  hit, queued, waiting, IsChunk, pieces, IsPlanned, queued-push, waiting-get, waiting-put, All-put,
}

-- A plan whose pieces only changed places.
pub moved :
    (p q : OriginPlan) (f g : ℕ → ℕ)
    → IsPlanned p f
    → q.cursor ≡ p.cursor
    → q.next ≡ p.next
    → q.target ≡ p.target
    → All IsChunk q.buffered
    → IsStrict (keys q.buffered)
    → ((s : ℕ) → pieces q g s ≡ pieces p f s)
    → IsPlanned q g
moved p q f g h c n t all sorted e = record {
  ordered = omega (arith, h.ordered);
  bounded = omega (arith, h.bounded);
  chunks = all;
  sorted = sorted;
  once = λ s. omega (arith, e s, h.once s);
  covered = λ s lo hi. e s ∙ h.covered s (omega arith) (omega arith);
  fresh = λ s lt. e s ∙ h.fresh s (omega arith);
}

pub new_plan-IsPlanned :
    (g cursor target : ℕ) (f : ℕ → ℕ)
    → ((s : ℕ) → f s ≡ 0)
    → target + chunk_events < u64_size
    → IsPlanned (record (new_plan g cursor) { target = target }) f
new_plan-IsPlanned g cursor target f z small = record {
  ordered = omega arith;
  bounded = small;
  chunks = tt;
  sorted = tt;
  once = λ s. omega (arith, z s);
  covered = λ s lo hi. absurd (omega arith);
  fresh = λ s lt. omega (arith, z s);
}

pub raised-IsPlanned :
    (p : OriginPlan) (target : ℕ) (f : ℕ → ℕ)
    → IsPlanned p f
    → target + chunk_events < u64_size
    → IsPlanned (record p { target = max p.target target }) f
raised-IsPlanned p target f h small = record {
  ordered = h.ordered;
  bounded = omega (arith, h.bounded);
  chunks = h.chunks;
  sorted = h.sorted;
  once = h.once;
  covered = h.covered;
  fresh = h.fresh;
}

pub unpicked-IsPlanned :
    (p : OriginPlan) (f : ℕ → ℕ) (a u : ℕ)
    → IsPlanned p (λ s. hit a u s + f s)
    → IsPlanned (record p { retry = (a, u) ∷ p.retry }) f
unpicked-IsPlanned p f a u h = moved p _ _ f h refl refl refl h.chunks h.sorted (λ s. omega arith)

pub struck-IsPlanned :
    (p : OriginPlan) (f : ℕ → ℕ) (a u : ℕ)
    → IsPlanned p (λ s. hit a u s + f s)
    → IsPlanned (struck a u p) f
struck-IsPlanned p f a u h =
    moved p _ _ f h refl refl refl h.chunks h.sorted (λ s. omega (arith, queued-push s a u p.retry))

fresh_until :
    (n t : ℕ)
    → n < t
    → t + chunk_events < u64_size
    → (n < min ((n + chunk_events) % u64_size) t) × (min ((n + chunk_events) % u64_size) t ≤ t)
fresh_until n t lt small = omega arith

-- The next chunk: what it takes up was in no piece.
fresh-IsPlanned :
    (p : OriginPlan) (f : ℕ → ℕ) (u : ℕ)
    → p.next < u
    → IsPlanned p f
    → IsPlanned (record p { next = u }) (λ s. hit p.next u s + f s)
fresh-IsPlanned p f u lt h = record {
  ordered = omega (arith, h.ordered);
  bounded = h.bounded;
  chunks = h.chunks;
  sorted = h.sorted;
  once = λ s. ground (arith, h.once s, h.fresh s);
  covered = λ s lo hi. ground (arith, h.covered s lo, h.fresh s);
  fresh = λ s lo. ground (arith, h.fresh s);
}

abbrev IsPick : (ℕ → ℕ) → Option (ℕ × ℕ × OriginPlan) → Type 0
IsPick f none = Unit
IsPick f (some (a, u, q)) = IsPlanned q (λ s. hit a u s + f s)

List-cases :
    (retry : List (ℕ × ℕ))
    → (retry ≡ []) ⊎ ((iv : ℕ × ℕ) × (rest : List (ℕ × ℕ)) × (retry ≡ iv ∷ rest))
List-cases [] = inl refl
List-cases (iv ∷ rest) = inr (iv, rest, refl)

pick_fresh :
    (p : OriginPlan)
    → p.retry ≡ []
    → ltb p.next p.target ≡ true
    → pick p
      ≡ some (
        p.next,
        min ((p.next + chunk_events) % u64_size) p.target,
        record p { next = min ((p.next + chunk_events) % u64_size) p.target },
      )
unfolding pick
pick_fresh p e lt = rw (e, lt) refl

pick-IsPick : (p : OriginPlan) (f : ℕ → ℕ) → IsPlanned p f → IsPick f (pick p)
unfolding pick
pick-IsPick p f h = elim (List-cases p.retry) [
  | inr (iv, rest, e) ↦ rw e (
      moved p (record p { retry = rest }) f (λ s. hit iv.0 iv.1 s + f s) h refl refl refl h.chunks
        h.sorted (λ s. omega (arith, ap (queued s) e)))
  | inl e ↦ elim (Bool-cases (ltb p.next p.target)) [
    | inl lt ↦
        let u = fresh_until p.next p.target (ground arith) h.bounded in
        rw (pick_fresh p e lt) (fresh-IsPlanned p f _ u.0 h)
    | inr le ↦ rw (e, le) tt
  ]
]

pub pick-IsPlanned :
    (p q : OriginPlan) (f : ℕ → ℕ) (a u : ℕ)
    → IsPlanned p f
    → pick p ≡ some (a, u, q)
    → IsPlanned q (λ s. hit a u s + f s)
pick-IsPlanned p q f a u h e = rw e at (pick-IsPick p f h)

-- A chunk in flight is not in the buffer yet.
not_buffered :
    (p : OriginPlan) (f : ℕ → ℕ) (a u : ℕ)
    → IsPlanned p (λ s. hit a u s + f s)
    → a < u
    → get a p.buffered ≡ none
not_buffered p f a u h lt = elim (Option-cases (get a p.buffered)) [
  | inl e ↦ e
  | inr (events, e) ↦
      absurd (ground (arith, waiting-get a p.buffered events h.chunks e, h.once (suc a)))
]

refilled :
    (s a u c : ℕ) (retry : List (ℕ × ℕ))
    → a ≤ c
    → c ≤ u
    → queued s (if ltb c u then retry ++ ((c, u) ∷ []) else retry) + hit a c s
      ≡ queued s retry + hit a u s
refilled s a u c retry lo hi = ground (arith, queued-push s c u retry)

pub complete_plan-IsPlanned :
    (p : OriginPlan) (f : ℕ → ℕ) (a u : ℕ) (events : List Event)
    → IsPlanned p (λ s. hit a u s + f s)
    → IsChunk (a, events)
    → last_seq a events ≤ u
    → IsPlanned (complete_plan a u events p) f
unfolding complete_plan
complete_plan-IsPlanned p f a u [] h k le = absurd (omega (arith, k.1))
complete_plan-IsPlanned p f a u (e ∷ events) h k le =
    moved p _ _ f h refl refl refl (All-put a (e ∷ events) p.buffered h.chunks k)
      (put-IsStrict a (e ∷ events) p.buffered h.sorted)
      (λ s. omega (
        arith,
        refilled s a u (last_seq a (e ∷ events)) p.retry (omega (arith, k.1)) le,
        waiting-put s a (e ∷ events) p.buffered (not_buffered p f a u h (omega (arith, k.1))),
      ))

-- The chunk at the head is taken out and applied.
pub advanced-IsPlanned :
    (p : OriginPlan) (f : ℕ → ℕ) (a : ℕ) (events : List Event) (rest : List (ℕ × List Event))
    → IsPlanned p f
    → p.buffered ≡ (a, events) ∷ rest
    → a ≤ p.cursor
    → IsPlanned (advanced (last_seq a events) (record p { buffered = rest })) f
advanced-IsPlanned p f a events rest h e le =
    let all : All IsChunk ((a, events) ∷ rest) = rw e at h.chunks in
    let sorted : IsStrict (a ∷ keys rest) = rw e at h.sorted in
    record {
      ordered = omega arith;
      bounded = h.bounded;
      chunks = all.1;
      sorted = sorted.1;
      once = λ s. omega (arith, h.once s, ap (waiting s) e);
      covered = λ s lo hi. ground (arith, h.covered s, ap (waiting s) e);
      fresh = λ s lt. omega (arith, h.fresh s (omega arith), ap (waiting s) e);
    }
