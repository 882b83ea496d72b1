-- ===== src/Nar/Cover.antt =====
-- nar.rs: the slices of a range cover it.
use narshare.Base.{
  ℕ, ◌+◌, ◌-◌, ◌≤◌, ◌<◌, ◌≡◌, refl, ap, ◌∙◌, ◌⊎◌, inl, inr, none, some, List, [], ◌∷◌, arith, ◌==◌,
  leb, length, length-take, length-drop, take, drop, min, max, Bool-cases,
}
use narshare.Base.Order.{nat_ord}
use narshare.Facts.{Bytes}
use narshare.Nar.{
  Source, lit, file, Seg, SeekTable, Slice, lit_slice, file_slice, first_seg, clamp, cut,
  slices_from, slices,
}

abbrev pub IsInside : Bytes → Seg → Source → Type 0
IsInside lits seg (lit lit_off) = lit_off + seg.len ≤ length lits
IsInside lits seg (file path file_off) = Unit

-- Segments that follow one another from one offset to another, literals within the buffer.
abbrev pub IsLaidOut : Bytes → ℕ → List Seg → ℕ → Type 0
IsLaidOut lits a [] b = a ≡ b
IsLaidOut lits a (seg ∷ segs) b =
    (seg.nar_off ≡ a) × IsInside lits seg seg.src × IsLaidOut lits (a + seg.len) segs b

abbrev pub slice_length : Slice → ℕ
slice_length (lit_slice bytes) = length bytes
slice_length (file_slice path off len) = len

abbrev pub total : List Slice → ℕ
total [] = 0
total (s ∷ slices) = slice_length s + total slices

length-take-drop : (n m : ℕ) (xs : Bytes) → m + n ≤ length xs → length (take n (drop m xs)) ≡ n
length-take-drop n m xs h = omega (arith, length-take n (drop m xs), length-drop m xs)

-- The bytes of a cut, for a part of the segment.
cut_length :
    (lits : Bytes) (seg : Seg) (src : Source) (skip n : ℕ)
    → IsInside lits seg src
    → skip + n ≤ seg.len
    → slice_length (cut lits src skip n) ≡ n
cut_length lits seg (lit lit_off) skip n inside h =
    length-take-drop n (lit_off + skip) lits (omega arith)
cut_length lits seg (file path file_off) skip n inside h = refl

clamp_in :
    (lits : Bytes) (seg : Seg) (start end : ℕ)
    → seg.nar_off < end
    → clamp lits seg start end
      ≡ some (
          cut lits seg.src
            (max start seg.nar_off - seg.nar_off)
            (min end (seg.nar_off + seg.len) - max start seg.nar_off))
unfolding clamp
clamp_in lits seg start end lt = ground arith

clamp_past :
    (lits : Bytes) (seg : Seg) (start end : ℕ) → end ≤ seg.nar_off → clamp lits seg start end ≡ none
unfolding clamp
clamp_past lits seg start end le = ground arith

-- A list of slices whose first segment is in the range.
slices_in :
    (lits : Bytes) (seg : Seg) (segs : List Seg) (start end : ℕ)
    → seg.nar_off < end
    → IsInside lits seg seg.src
    → start < seg.nar_off + seg.len ⊎ start ≤ seg.nar_off
    → start ≤ end
    → total (slices_from lits (seg ∷ segs) start end)
      ≡ (min end (seg.nar_off + seg.len) - max start seg.nar_off)
        + total (slices_from lits segs start end)
unfolding slices_from
slices_in lits seg segs start end lt inside part le =
    let skip = max start seg.nar_off - seg.nar_off in
    let n = min end (seg.nar_off + seg.len) - max start seg.nar_off in
    let small : skip + n ≤ seg.len = elim part [ inl p ↦ omega arith | inr p ↦ omega arith ] in
    rw (clamp_in lits seg start end lt) (
      ap (λ k. k + total (slices_from lits segs start end))
        (cut_length lits seg seg.src skip n inside small))

slices_past :
    (lits : Bytes) (seg : Seg) (segs : List Seg) (start end : ℕ)
    → end ≤ seg.nar_off
    → total (slices_from lits (seg ∷ segs) start end) ≡ 0
unfolding slices_from
slices_past lits seg segs start end le = rw (clamp_past lits seg start end le) refl

abbrev Order : ℕ → ℕ → Type 0
Order a b = (a ≤ b) ⊎ (b < a)

order : (a b : ℕ) → Order a b
order a b = ground arith

-- Segments that begin in the range.
total-after :
    (lits : Bytes) (start end a b : ℕ) (segs : List Seg)
    → IsLaidOut lits a segs b
    → start ≤ a
    → start ≤ end
    → end ≤ b
    → total (slices_from lits segs start end) ≡ end - a
total-after lits start end a b [] h lo le hi = unfold slices_from in omega arith
total-after lits start end a b (seg ∷ segs) (e, inside, h) lo le hi = elim (order end seg.nar_off) [
  | inl past ↦ slices_past lits seg segs start end past ∙ omega arith
  | inr lt ↦
      slices_in lits seg segs start end lt inside (inr (omega arith)) le
      ∙ omega (arith, total-after lits start end (a + seg.len) b segs h (omega arith) le hi)
]

-- The segment that the range starts in, and what follows.
total-first :
    (lits : Bytes) (start end a b : ℕ) (segs : List Seg)
    → IsLaidOut lits a segs b
    → a ≤ start
    → start < end
    → end ≤ b
    → total (slices_from lits (drop (first_seg segs start) segs) start end) ≡ end - start
unfolding first_seg
total-first lits start end a b [] h lo lt hi = omega arith
total-first lits start end a b (seg ∷ segs) (e, inside, h) lo lt hi =
    elim (Bool-cases (leb (seg.nar_off + seg.len) start)) [
      | inl q ↦ rw q (total-first lits start end (a + seg.len) b segs h (ground arith) lt hi)
      | inr q ↦ rw q (
          slices_in lits seg segs start end (omega arith) inside (inl (ground arith)) (omega arith)
          ∙ ground (
            arith,
            total-after lits start end (a + seg.len) b segs h (ground arith) (omega arith) hi,
          ))
    ]

-- In a table whose segments follow one another up to the size, the slices of a range within the NAR
-- have together exactly the range's length.
pub slices-cover :
    (t : SeekTable) (start end : ℕ)
    → IsLaidOut t.lits 0 t.segs t.nar_size
    → start ≤ end
    → end ≤ t.nar_size
    → total (slices t start end) ≡ end - start
unfolding slices
slices-cover t start end h le hi = elim (Bool-cases (start == end)) [
  | inl q ↦ rw q (ground arith)
  | inr q ↦
      rw q (total-first t.lits start end 0 t.nar_size t.segs h (omega arith) (ground arith) hi)
]
