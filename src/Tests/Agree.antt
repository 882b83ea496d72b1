-- ===== src/Tests/Agree.antt =====
-- The manifest and the seek table of the small directory.
use narshare.Base.{◌≡◌, refl, true, some, Result, ok, err, [], ◌∷◌, arith, replicate}
use narshare.Base.Order.{nat_ord, list_ord}
use narshare.Nar.{pad_len}
use narshare.Nixbase32.{encode, encode_from, encoded_len, digit_at}
use narshare.Nar.Build.Archive.{table_reads}
use narshare.Manifest.{
  Manifest, Layout, dir, end, synth_layout, node, segments, segment, toks, tok, raw_lit, close_lit,
  le_bytes, div_ceil,
}
use narshare.Manifest.Spans.{read_spans}
use narshare.Manifest.Build.{Codec, build_tree, hash_segments, build_manifest}
use narshare.Manifest.Build.Agree.{FindsAll, build_manifest-build}
use narshare.Tests.Tree.{
  blank, length-blank, small_tree, small_table, small-Reads, small_made, small_size,
}

abbrev codec : Codec
codec = record { utf8 = λ s. true; hash = λ s. 1 ∷ []; hex = λ s. some (replicate 32 7) }

abbrev made : Result Manifest → Manifest
made (ok m) = m
made (err e) = record {
  version = 0;
  nar_hash = [];
  nar_size = 0;
  segment_bytes = 0;
  root = dir end;
}

abbrev small_manifest : Manifest
small_manifest = made (build_manifest codec small_tree (5 ∷ []) 288 4)

manifest_made : build_manifest codec small_tree (5 ∷ []) 288 4 ≡ ok small_manifest
unfolding build_manifest build_tree hash_segments encode encode_from encoded_len digit_at
    synth_layout node segments segment toks tok raw_lit close_lit le_bytes div_ceil pad_len
manifest_made = refl

small-FindsAll : FindsAll blank codec 4 small_tree
unfolding FindsAll
small-FindsAll = (((replicate 32 7, refl, refl), tt), tt)

build_manifest-build_example :
    (l : Layout) × (synth_layout codec.hex small_manifest ≡ ok l)
    × (small_manifest.nar_size ≡ small_table.nar_size)
    × (l.nar_size ≡ small_table.nar_size)
    × (read_spans blank l.lits l.spans ≡ table_reads blank small_table)
build_manifest-build_example =
    build_manifest-build blank blank codec 4 small_tree (b'/' ∷ []) (5 ∷ []) 288 small_manifest
      small_table length-blank length-blank small-FindsAll small-Reads (omega (arith, small_size))
      manifest_made small_made
