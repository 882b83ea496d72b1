-- ===== src/Tests/Serve.antt =====
-- A range request for the seek table of the small directory.
use narshare.Base.{◌≤◌, ◌<◌, ◌≡◌, some, [], ◌∷◌, arith}
use narshare.Base.Order.{nat_ord}
use narshare.Facts.{Bytes}
use narshare.Nar.{slices}
use narshare.Nar.Cover.{IsLaidOut, total}
use narshare.Nar.Build.Archive.{build-archive_of}
use narshare.Serve.{
  parse_range, partial, parse_u64, digits, strip_prefix, has_char, split_once, trim_start, trim_end,
}
use narshare.Serve.Range.{parse_range-slices}
use narshare.Tests.Tree.{
  blank, length-blank, small_tree, small_table, small-Reads, small_made, small_size, small_nar_size,
}

abbrev header : Bytes
header = b'b' ∷ b'y' ∷ b't' ∷ b'e' ∷ b's' ∷ b'=' ∷ b' ' ∷ b'2' ∷ b'-' ∷ b'2' ∷ b'9' ∷ b'9' ∷ []

small-IsLaidOut : IsLaidOut small_table.lits 0 small_table.segs small_table.nar_size
small-IsLaidOut =
    (build-archive_of blank (b'/' ∷ []) small_tree small_table length-blank small-Reads
      (omega (arith, small_size)) small_made).0

header_parsed : parse_range (some header) small_table.nar_size ≡ partial 2 288
unfolding parse_range parse_u64 digits strip_prefix has_char split_once trim_start trim_end
header_parsed = ground (arith, small_nar_size)

parse_range-slices_example :
    (2 < 288) × (288 ≤ small_table.nar_size) × (total (slices small_table 2 288) ≡ 286)
parse_range-slices_example =
    parse_range-slices small_table (some header) 2 288 small-IsLaidOut header_parsed
