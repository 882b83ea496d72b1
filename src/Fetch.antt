-- ===== src/Fetch.antt =====
-- fetch.rs: the plan of a transfer: what is made locally, what is fetched, and from which ranges.
pub mod Covers
pub mod Buffer
pub mod Emit
use narshare.Base.{
  ℕ, ◌+◌, ◌-◌, ◌≡◌, Bool, true, false, not, ◌&&◌, Option, none, some, List, [], ◌∷◌, ◌++◌, ltb, leb,
  ◌==◌, if◌then◌else◌, Result, ok, err, ◌>>=◌, ◌>>◌, bail_if, context, nar_hash_disagrees,
  nar_size_disagrees, exceeds_window, two_lengths, index_panic,
}
use narshare.Base.Order.{nat_ord, list_ord}
use narshare.Base.Sets.{same}
use narshare.Base.Keys.{put, get}
use narshare.Facts.{Bytes}
use narshare.Nixbase32.{encode}
use narshare.Narinfo.{RemoteNarinfo}
use narshare.Dedup.{Step, fetch, cached, plan}
use narshare.Manifest.{Manifest, Layout, Span, SpanKind, lit, segment_of, synth_layout}

pub data SpanExec : Type 0 where
  lit_exec : (lit_off : ℕ) → (len : ℕ) → SpanExec
  fetch_exec : (len : ℕ) → (retain : Option (ℕ × ℕ)) → SpanExec
  replay_exec : (unique : ℕ) → (len : ℕ) → SpanExec

pub record Plan : Type 0 where
  pub spans : List (ℕ × SpanExec)
  pub lits : Bytes
  pub ranges : List (ℕ × ℕ)

abbrev pub range_merge_gap : ℕ
range_merge_gap = 65536

unfoldable pub fallback_plan : ℕ → ℕ → Plan
fallback_plan start end = record {
  spans = (start, fetch_exec (end - start) none) ∷ [];
  lits = [];
  ranges = (start, end - start) ∷ [];
}

abbrev pub w_sha256 : Bytes
w_sha256 = b's' ∷ b'h' ∷ b'a' ∷ b'2' ∷ b'5' ∷ b'6' ∷ b':' ∷ []

-- The guards on the segments: none above the window, one length for each hash.
abbrev other_length : Option ℕ → ℕ → Bool
other_length none len = false
other_length (some prev) len = not (prev == len)

unfoldable pub segment_keys : ℕ → List (Bytes × ℕ) → List Span → Result (List (Bytes × ℕ))
segment_keys window len_of [] = ok []
segment_keys window len_of (s ∷ spans) = elim s.kind [
  | lit o ↦ segment_keys window len_of spans
  | segment_of hash ↦
      bail_if (ltb window s.len) exceeds_window
      >> (bail_if (other_length (get hash len_of) s.len) two_lengths
          >> (segment_keys window (put hash s.len len_of) spans >>= λ rest.
              ok ((hash, s.len) ∷ rest)))
]

-- A fetched span widens the last range over a small gap, or begins one.
unfoldable pub push_range : List (ℕ × ℕ) → ℕ → ℕ → List (ℕ × ℕ)
push_range [] off len = (off, len) ∷ []
push_range (r ∷ []) off len =
    if leb (r.0 + r.1) off && leb (off - (r.0 + r.1)) range_merge_gap
    then (r.0, off + len - r.0) ∷ []
    else r ∷ (off, len) ∷ []
push_range (r ∷ s ∷ rest) off len = r ∷ push_range (s ∷ rest) off len

abbrev pub Progress : Type 0
Progress = List (ℕ × SpanExec) × List (ℕ × ℕ)

abbrev pub cons_exec : ℕ → SpanExec → Option Progress → Option Progress
cons_exec off e none = none
cons_exec off e (some (spans, ranges)) = some ((off, e) ∷ spans, ranges)

abbrev pub retained_for : ℕ → ℕ → Option (ℕ × ℕ)
retained_for unique retain_for = if ltb 0 retain_for then some (unique, retain_for) else none

-- The walk over the layout; `none` is a step out of bounds.
unfoldable pub exec_spans : List Span → List Step → List (ℕ × ℕ) → Option Progress
exec_spans [] steps ranges = some ([], ranges)
exec_spans (s ∷ spans) steps ranges = elim s.kind [
  | lit o ↦ cons_exec s.nar_off (lit_exec o s.len) (exec_spans spans steps ranges)
  | segment_of hash ↦ elim steps [
    | [] ↦ none
    | (step ∷ rest) ↦ elim step [
      | fetch unique retain_for ↦
          cons_exec s.nar_off (fetch_exec s.len (retained_for unique retain_for))
            (exec_spans spans rest (push_range ranges s.nar_off s.len))
      | cached unique ↦
          cons_exec s.nar_off (replay_exec unique s.len) (exec_spans spans rest ranges)
    ]
  ]
]

abbrev pub plan_with : Layout → Progress → Plan
plan_with l (spans, ranges) = record { spans = spans; lits = l.lits; ranges = ranges }

unfoldable pub manifest_plan :
    (Bytes → Option Bytes) → Manifest → RemoteNarinfo → ℕ → ℕ → Result Plan
manifest_plan hex m info budget window = do
  bail_if (not (same m.nar_hash (w_sha256 ++ encode info.nar_hash))) nar_hash_disagrees
  layout ← synth_layout hex m
  bail_if (not (layout.nar_size == info.nar_size)) nar_size_disagrees
  keys ← segment_keys window [] layout.spans
  progress ← context (exec_spans layout.spans (plan keys budget) []) index_panic
  ok (plan_with layout progress)
