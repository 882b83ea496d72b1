-- ===== src/Serve/Range.antt =====
-- serve.rs: what `parse_range` answers, and what is sent for it.
use narshare.Base.{ℕ, ◌-◌, ◌≤◌, ◌<◌, ◌≡◌, subst, Option, none, some, arith}
use narshare.Base.Order.{nat_ord}
use narshare.Facts.{Bytes}
use narshare.Nar.{SeekTable, slices}
use narshare.Nar.Cover.{IsLaidOut, total, slices-cover}
use narshare.Serve.{
  RangeSpec, full, partial, unsatisfiable, parse_u64, split_once, trim, suffix_range, open_range,
  closed_range, range_of, range_in, parse_range,
}

-- A part is not empty and within the size.
abbrev pub IsWithin : ℕ → RangeSpec → Type 0
IsWithin size full = Unit
IsWithin size (partial start end) = (start < end) × (end ≤ size)
IsWithin size unsatisfiable = Unit

suffix_range-IsWithin : (size : ℕ) (n : Option ℕ) → IsWithin size (suffix_range size n)
suffix_range-IsWithin size none = tt
suffix_range-IsWithin size (some n) = ground arith

open_range-IsWithin : (size : ℕ) (a : Option ℕ) → IsWithin size (open_range size a)
open_range-IsWithin size none = tt
open_range-IsWithin size (some a) = ground arith

closed_range-IsWithin : (size : ℕ) (a b : Option ℕ) → IsWithin size (closed_range size a b)
closed_range-IsWithin size none b = tt
closed_range-IsWithin size (some a) none = tt
closed_range-IsWithin size (some a) (some b) = ground arith

range_of-IsWithin : (size : ℕ) (s : Option (Bytes × Bytes)) → IsWithin size (range_of size s)
range_of-IsWithin size none = tt
range_of-IsWithin size (some (a, b)) = ground (
  arith,
  suffix_range-IsWithin size (parse_u64 b),
  open_range-IsWithin size (parse_u64 a),
  closed_range-IsWithin size (parse_u64 a) (parse_u64 b),
)

range_in-IsWithin : (size : ℕ) (s : Option Bytes) → IsWithin size (range_in size s)
range_in-IsWithin size none = tt
range_in-IsWithin size (some spec) =
    ground (arith, range_of-IsWithin size (split_once b'-' (trim spec)))

pub parse_range-IsWithin : (size : ℕ) (h : Option Bytes) → IsWithin size (parse_range h size)
unfolding parse_range
parse_range-IsWithin size none = tt
parse_range-IsWithin size (some h) = range_in-IsWithin size _

-- Whatever header arrives, a part that `parse_range` answers is not empty and within the NAR, and the
-- slices that are cut for it from a table that covers the NAR have exactly its length.
pub parse_range-slices :
    (t : SeekTable) (header : Option Bytes) (start end : ℕ)
    → IsLaidOut t.lits 0 t.segs t.nar_size
    → parse_range header t.nar_size ≡ partial start end
    → (start < end) × (end ≤ t.nar_size) × (total (slices t start end) ≡ end - start)
parse_range-slices t header start end h e =
    let w : IsWithin t.nar_size (partial start end) =
      subst (IsWithin t.nar_size) e (parse_range-IsWithin t.nar_size header) in
    (w.0, w.1, slices-cover t start end h (omega (arith, w.0)) w.1)
