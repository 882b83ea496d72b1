-- ===== src/Tests/Tree.antt =====
-- The seek table of a directory with one small file.
use narshare.Base.{
  ℕ, ◌≡◌, refl, false, [], ◌∷◌, arith, length, replicate, Result, ok, err, zero, suc, ap,
}
use narshare.Base.Order.{nat_ord, list_ord}
use narshare.Facts.{Bytes}
use narshare.Nar.{SeekTable, pad_len}
use narshare.Nar.Cover.{IsLaidOut}
use narshare.Nar.Build.{
  Tree, folder, named, no_files, plain, build, node, toks, tok, raw_lit, close_lit, file_seg,
}
use narshare.Nar.Build.Synth.{archive, Reads}
use narshare.Nar.Build.Archive.{archive_of, table_reads, build-archive_of}
use narshare.Manifest.{le_bytes}

abbrev pub blank : Bytes → ℕ → Bytes
blank path n = replicate n 0

pub length-blank : (path : Bytes) (n : ℕ) → length (blank path n) ≡ n
length-blank path zero = refl
length-blank path (suc n) = ap suc (length-blank path n)

abbrev pub small_tree : Tree
small_tree = folder (named (b'a' ∷ []) (plain false (0 ∷ 0 ∷ 0 ∷ [])) no_files)

abbrev made : Result SeekTable → SeekTable
made (ok t) = t
made (err e) = record { nar_size = 0; lits = []; segs = [] }

abbrev pub small_table : SeekTable
small_table = made (build (b'/' ∷ []) small_tree)

pub small_made : build (b'/' ∷ []) small_tree ≡ ok small_table
unfolding build node toks tok raw_lit close_lit file_seg le_bytes pad_len
small_made = refl

pub small_nar_size : small_table.nar_size ≡ 288
unfolding build node toks tok raw_lit close_lit file_seg le_bytes pad_len
small_nar_size = refl

pub small_size : length (archive_of small_tree) ≡ 288
unfolding archive le_bytes pad_len
small_size = refl

pub small-Reads : Reads blank (b'/' ∷ []) small_tree
unfolding Reads
small-Reads = (refl, tt)

build-archive_of_example :
    IsLaidOut small_table.lits 0 small_table.segs small_table.nar_size
    × (table_reads blank small_table ≡ archive_of small_tree)
    × (small_table.nar_size ≡ length (archive_of small_tree))
build-archive_of_example =
    build-archive_of blank (b'/' ∷ []) small_tree small_table length-blank small-Reads
      (omega (arith, small_size)) small_made
