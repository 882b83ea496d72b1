-- ===== src/Fetch/Covers.antt =====
-- fetch.rs: the spans of a plan follow one another, and its ranges hold all that is fetched.
use narshare.Base.{
  ℕ, ◌+◌, ◌-◌, ◌≤◌, ◌<◌, ◌≡◌, refl, sym, subst, inl, inr, ◌⊎◌, Bool, not, ◌&&◌, Option, none, some,
  List, [], ◌∷◌, leb, ◌==◌, length, arith, Bool-cases, ok, bind-ok, bail_if-ok, context-ok, context,
  All, ◌++◌, ◌^◌, nar_hash_disagrees, nar_size_disagrees, index_panic,
}
use narshare.Base.Order.{nat_ord, list_ord}
use narshare.Facts.{Bytes}
use narshare.Manifest.{Manifest, Span, SpanKind, lit, segment_of, synth_layout}
use narshare.Manifest.Spans.{IsLaid}
use narshare.Manifest.Archive.{nar_of, synth_layout-nar_of}
use narshare.Base.Sets.{same}
use narshare.Nixbase32.{encode}
use narshare.Dedup.{Step, fetch, cached, plan}
use narshare.Narinfo.{RemoteNarinfo}
use narshare.Fetch.{
  SpanExec, lit_exec, fetch_exec, replay_exec, Plan, range_merge_gap, push_range, exec_spans,
  cons_exec, Progress, manifest_plan, plan_with, retained_for, w_sha256, segment_keys,
}

abbrev pub exec_length : SpanExec → ℕ
exec_length (lit_exec o len) = len
exec_length (fetch_exec len retain) = len
exec_length (replay_exec unique len) = len

-- The spans of a plan follow one another from one offset to another.
abbrev pub IsContiguous : ℕ → List (ℕ × SpanExec) → ℕ → Type 0
IsContiguous a [] b = a ≡ b
IsContiguous a (s ∷ spans) b = (s.0 ≡ a) × IsContiguous (a + exec_length s.1) spans b

-- Ranges in order and apart, up to `b`.
abbrev pub IsApart : ℕ → List (ℕ × ℕ) → ℕ → Type 0
IsApart a [] b = a ≤ b
IsApart a (r ∷ ranges) b = (a ≤ r.0) × IsApart (r.0 + r.1) ranges b

-- One of the ranges holds all of `[off, off + len)`.
abbrev pub Holds : ℕ → ℕ → List (ℕ × ℕ) → Type 0
Holds off len [] = ⊥
Holds off len (r ∷ ranges) = ((r.0 ≤ off) × (off + len ≤ r.0 + r.1)) ⊎ Holds off len ranges

abbrev pub HoldsFetched : List (ℕ × ℕ) → ℕ × SpanExec → Type 0
HoldsFetched ranges (off, lit_exec o len) = Unit
HoldsFetched ranges (off, fetch_exec len retain) = Holds off len ranges
HoldsFetched ranges (off, replay_exec unique len) = Unit

abbrev merges : ℕ × ℕ → ℕ → Bool
merges r off = leb (r.0 + r.1) off && leb (off - (r.0 + r.1)) range_merge_gap

IsApart-mono : (a b c : ℕ) (ranges : List (ℕ × ℕ)) → IsApart a ranges b → b ≤ c → IsApart a ranges c
IsApart-mono a b c [] h le = omega (arith, h)
IsApart-mono a b c (r ∷ ranges) h le = (h.0, IsApart-mono (r.0 + r.1) b c ranges h.1 le)

push_range-IsApart :
    (a b off len : ℕ) (ranges : List (ℕ × ℕ))
    → IsApart a ranges b
    → b ≤ off
    → IsApart a (push_range ranges off len) (off + len)
unfolding push_range
push_range-IsApart a b off len [] h le = (omega (arith, h), omega arith)
push_range-IsApart a b off len (r ∷ []) h le = ground arith
push_range-IsApart a b off len (r ∷ s ∷ rest) h le =
    (h.0, push_range-IsApart (r.0 + r.1) b off len (s ∷ rest) h.1 le)

push_range-Holds :
    (a b off len : ℕ) (ranges : List (ℕ × ℕ))
    → IsApart a ranges b
    → b ≤ off
    → Holds off len (push_range ranges off len)
unfolding push_range
push_range-Holds a b off len [] h le = inl (omega arith, omega arith)
push_range-Holds a b off len (r ∷ []) h le = elim (Bool-cases (merges r off)) [
  | inl m ↦ rw (push_range, m) (inl (omega (arith, h.1), omega arith))
  | inr m ↦ rw (push_range, m) (inr (inl (omega arith, omega arith)))
]
push_range-Holds a b off len (r ∷ s ∷ rest) h le =
    inr (push_range-Holds (r.0 + r.1) b off len (s ∷ rest) h.1 le)

-- What a range held it still holds.
push_range-keeps :
    (a b off len o l : ℕ) (ranges : List (ℕ × ℕ))
    → IsApart a ranges b
    → b ≤ off
    → Holds o l ranges
    → Holds o l (push_range ranges off len)
unfolding push_range
push_range-keeps a b off len o l [] h le k = elim k [ ]
push_range-keeps a b off len o l (r ∷ []) h le (inr k) = elim k [ ]
push_range-keeps a b off len o l (r ∷ []) h le (inl k) = elim (Bool-cases (merges r off)) [
  | inl m ↦ rw (push_range, m) (inl (k.0, omega (arith, k.1, h.1)))
  | inr m ↦ rw (push_range, m) (inl k)
]
push_range-keeps a b off len o l (r ∷ s ∷ rest) h le (inl k) = inl k
push_range-keeps a b off len o l (r ∷ s ∷ rest) h le (inr k) =
    inr (push_range-keeps (r.0 + r.1) b off len o l (s ∷ rest) h.1 le k)

Kind-cases : (k : SpanKind) → ((o : ℕ) × (k ≡ lit o)) ⊎ ((h : Bytes) × (k ≡ segment_of h))
Kind-cases (lit o) = inl (o, refl)
Kind-cases (segment_of h) = inr (h, refl)

cons_exec-some :
    (off : ℕ) (e : SpanExec) (m : Option Progress) (p : Progress)
    → cons_exec off e m ≡ some p
    → (q : Progress) × (m ≡ some q) × (((off, e) ∷ q.0, q.1) ≡ p)
cons_exec-some off e none p h = cc
cons_exec-some off e (some q) p h = (q, refl, cc h)

-- What the walk leaves, from an offset on.
record IsGood (a b : ℕ) (ranges : List (ℕ × ℕ)) (p : Progress) : Type 0 where
  contiguous : IsContiguous a p.0 b
  apart : IsApart 0 p.1 b
  fetched : All (HoldsFetched p.1) p.0
  kept : (o l : ℕ) → Holds o l ranges → Holds o l p.1

cons-IsGood :
    (a b : ℕ) (ranges more : List (ℕ × ℕ)) (e : SpanExec) (q p : Progress)
    → IsGood (a + exec_length e) b more q
    → ((o l : ℕ) → Holds o l ranges → Holds o l more)
    → HoldsFetched q.1 (a, e)
    → ((a, e) ∷ q.0, q.1) ≡ p
    → IsGood a b ranges p
cons-IsGood a b ranges more e q p g keeps first eq = subst (IsGood a b ranges) eq (record {
  contiguous = (refl, g.contiguous);
  apart = g.apart;
  fetched = (first, g.fetched);
  kept = λ o l h. g.kept o l (keeps o l h);
})

-- A segment that is fetched or replayed; `ih` is what the rest of the walk leaves.
segment-IsGood :
    (s : Span) (a b : ℕ) (hash : Bytes) (spans : List Span) (steps : List Step)
    (ranges : List (ℕ × ℕ)) (p : Progress)
    → s.kind ≡ segment_of hash
    → s.nar_off ≡ a
    → IsApart 0 ranges a
    → ((more : List Step) (back : List (ℕ × ℕ)) (r : Progress)
        → IsApart 0 back (a + s.len)
        → exec_spans spans more back ≡ some r
        → IsGood (a + s.len) b back r)
    → exec_spans (s ∷ spans) steps ranges ≡ some p
    → IsGood a b ranges p
unfolding exec_spans
segment-IsGood s a b hash spans [] ranges p k off apart ih e = cc (rw (exec_spans, k) at e)
segment-IsGood s a b hash spans (fetch unique n ∷ steps) ranges p k off apart ih e =
    let x = fetch_exec s.len (retained_for unique n) in
    let q = cons_exec-some s.nar_off x _ p (rw (exec_spans, k) at e) in
    let pushed = push_range ranges s.nar_off s.len in
    let low : a ≤ s.nar_off = subst (λ y. a ≤ y) (sym off) (omega arith) in
    let g =
      ih steps pushed q.0
        (IsApart-mono 0 (s.nar_off + s.len) (a + s.len) pushed
          (push_range-IsApart 0 a s.nar_off s.len ranges apart low) (omega (arith, off)))
        q.1 in
    cons-IsGood a b ranges pushed x q.0 p g
      (λ o l h. push_range-keeps 0 a s.nar_off s.len o l ranges apart low h)
      (g.kept a s.len (
        subst (λ y. Holds y s.len pushed) off
          (push_range-Holds 0 a s.nar_off s.len ranges apart low)))
      (subst (λ y. ((y, x) ∷ q.0.0, q.0.1) ≡ p) off q.2)
segment-IsGood s a b hash spans (cached unique ∷ steps) ranges p k off apart ih e =
    let x = replay_exec unique s.len in
    let q = cons_exec-some s.nar_off x _ p (rw (exec_spans, k) at e) in
    let g = ih steps ranges q.0 (IsApart-mono 0 a (a + s.len) ranges apart (omega arith)) q.1 in
    cons-IsGood a b ranges ranges x q.0 p g (λ o l h. h) tt
      (subst (λ y. ((y, x) ∷ q.0.0, q.0.1) ≡ p) off q.2)

exec_spans-IsGood :
    (lits : Bytes) (a b : ℕ) (spans : List Span) (steps : List Step) (ranges : List (ℕ × ℕ))
    (p : Progress)
    → IsLaid lits a spans b
    → IsApart 0 ranges a
    → exec_spans spans steps ranges ≡ some p
    → IsGood a b ranges p
unfolding exec_spans
exec_spans-IsGood lits a b [] steps ranges p laid apart e =
    let f : ◌≡◌ {A = Progress} ([], ranges) p = cc e in
    subst (IsGood a b ranges) f (record {
      contiguous = laid;
      apart = IsApart-mono 0 a b ranges apart (omega (arith, laid));
      fetched = tt;
      kept = λ o l h. h;
    })
exec_spans-IsGood lits a b (s ∷ spans) steps ranges p laid apart e = elim (Kind-cases s.kind) [
  | inl (o, k) ↦
      let q = cons_exec-some s.nar_off (lit_exec o s.len) _ p (rw (exec_spans, k) at e) in
      let g =
        exec_spans-IsGood lits (a + s.len) b spans steps ranges q.0 laid.2
          (IsApart-mono 0 a (a + s.len) ranges apart (omega arith)) q.1 in
      cons-IsGood a b ranges ranges (lit_exec o s.len) q.0 p g (λ x l h. h) tt
        (subst (λ x. ((x, lit_exec o s.len) ∷ q.0.0, q.0.1) ≡ p) laid.0 q.2)
  | inr (hash, k) ↦
      segment-IsGood s a b hash spans steps ranges p k laid.0 apart
        (λ more back r h f. exec_spans-IsGood lits (a + s.len) b spans more back r laid.2 h f) e
]

-- A plan that is made for a manifest whose archive fits into 64 bits has contiguous spans over the
-- whole of the size that the narinfo claims; its ranges are in order, apart and within that size; and
-- whatever is to be fetched lies within one of them.
pub manifest_plan-covers :
    (fill : Bytes → ℕ → Bytes) (hex : Bytes → Option Bytes) (m : Manifest) (info : RemoteNarinfo)
    (budget window : ℕ) (p : Plan)
    → ((h : Bytes) (n : ℕ) → length (fill h n) ≡ n)
    → length (nar_of fill hex m) < 2 ^ 64
    → manifest_plan hex m info budget window ≡ ok p
    → IsContiguous 0 p.spans info.nar_size
      × IsApart 0 p.ranges info.nar_size
      × All (HoldsFetched p.ranges) p.spans
unfolding manifest_plan
manifest_plan-covers fill hex m info budget window p fills small e =
    let a =
      bail_if-ok (not (same m.nar_hash (w_sha256 ++ encode info.nar_hash))) nar_hash_disagrees _ p
        e in
    let l = bind-ok (synth_layout hex m) _ p a.1 in
    let n = bail_if-ok (not (l.0.nar_size == info.nar_size)) nar_size_disagrees _ p l.2 in
    let k = bind-ok (segment_keys window [] l.0.spans) _ p n.1 in
    let x = bind-ok (context (exec_spans l.0.spans (plan k.0 budget) []) index_panic) _ p k.2 in
    let laid = synth_layout-nar_of fill hex m l.0 fills small l.1 in
    let size : l.0.nar_size ≡ info.nar_size = ground (arith, n.0) in
    let g =
      exec_spans-IsGood l.0.lits 0 info.nar_size l.0.spans (plan k.0 budget) [] x.0
        (subst (IsLaid l.0.lits 0 l.0.spans) size laid.0) (omega arith) (context-ok _ _ x.0 x.1) in
    let made : plan_with l.0 x.0 ≡ p = cc x.2 in
    subst
      (λ (q : Plan).
        IsContiguous 0 q.spans info.nar_size
        × IsApart 0 q.ranges info.nar_size
        × All (HoldsFetched q.ranges) q.spans)
      made (g.contiguous, g.apart, g.fetched)
