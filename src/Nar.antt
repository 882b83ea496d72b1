-- ===== src/Nar.antt =====
-- nar.rs: the table from which ranges of a NAR are cut, `SeekTable`.
pub mod Cover
pub mod Build
use narshare.Base.{
  ℕ, zero, suc, ◌+◌, ◌-◌, ◌*◌, ◌%◌, ◌≤◌, ◌≡◌, Bool, true, false, Option, none, some, List, [], ◌∷◌,
  ◌==◌, leb, if◌then◌else◌, length, take, drop, get_elem?, min, max,
}
use narshare.Base.Order.{nat_ord}
use narshare.Facts.{Bytes}

-- `Src`: literal bytes of the table, or a part of a file.
pub data Source : Type 0 where
  lit : (lit_off : ℕ) → Source
  file : (path : Bytes) → (file_off : ℕ) → Source

pub record Seg : Type 0 where
  pub nar_off : ℕ
  pub len : ℕ
  pub src : Source

pub record SeekTable : Type 0 where
  pub nar_size : ℕ
  pub lits : Bytes
  pub segs : List Seg

pub data Slice : Type 0 where
  lit_slice : Bytes → Slice
  file_slice : (path : Bytes) → (off : ℕ) → (len : ℕ) → Slice

unfoldable pub pad_len : ℕ → ℕ
pad_len n = (8 - n % 8) % 8

-- `partition_point` on segments that are in order: how many end before `start`.
unfoldable pub first_seg : List Seg → ℕ → ℕ
first_seg [] start = 0
first_seg (seg ∷ segs) start =
    let rest = first_seg segs start in if leb (seg.nar_off + seg.len) start then suc rest else 0

abbrev pub cut : Bytes → Source → ℕ → ℕ → Slice
cut lits (lit lit_off) skip len = lit_slice (take len (drop (lit_off + skip) lits))
cut lits (file path file_off) skip len = file_slice path (file_off + skip) len

-- A segment clamped to the range.
unfoldable pub clamp : Bytes → Seg → ℕ → ℕ → Option Slice
clamp lits seg start end =
    let s = max start seg.nar_off in
    let e = min end (seg.nar_off + seg.len) in
    if leb end seg.nar_off then none else some (cut lits seg.src (s - seg.nar_off) (e - s))

abbrev clamp_at : Bytes → Option Seg → ℕ → ℕ → Option Slice
clamp_at lits none start end = none
clamp_at lits (some seg) start end = clamp lits seg start end

unfoldable pub seg_slice : SeekTable → ℕ → ℕ → ℕ → Option Slice
seg_slice t i start end = clamp_at t.lits (get_elem? t.segs i) start end

abbrev cons_slice : Option Slice → List Slice → List Slice
cons_slice none slices = []
cons_slice (some s) slices = s ∷ slices

-- The segments from the first one on, up to the first that is past the range.
unfoldable pub slices_from : Bytes → List Seg → ℕ → ℕ → List Slice
slices_from lits [] start end = []
slices_from lits (seg ∷ segs) start end =
    cons_slice (clamp lits seg start end) (slices_from lits segs start end)

unfoldable pub slices : SeekTable → ℕ → ℕ → List Slice
slices t start end =
    if start == end then [] else slices_from t.lits (drop (first_seg t.segs start) t.segs) start end
