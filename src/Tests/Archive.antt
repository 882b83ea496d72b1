-- ===== src/Tests/Archive.antt =====
-- The layout of a directory with one small file.
use narshare.Base.{
  ℕ, ◌<◌, ◌≡◌, refl, false, some, Option, [], ◌∷◌, arith, length, replicate, Result, ok, err, zero,
  suc, ap, ◌^◌,
}
use narshare.Base.Order.{nat_ord, list_ord}
use narshare.Facts.{Bytes}
use narshare.Nar.{pad_len}
use narshare.Manifest.{
  Manifest, Layout, dir, entry, end, regular, synth_layout, node, segments, segment, toks, tok,
  raw_lit, close_lit, le_bytes, div_ceil,
}
use narshare.Manifest.Spans.{IsLaid, read_spans}
use narshare.Manifest.Archive.{nar_of, archive, synth_layout-nar_of}

abbrev pub zeros : Bytes → ℕ → Bytes
zeros hash n = replicate n 0

pub length-zeros : (hash : Bytes) (n : ℕ) → length (zeros hash n) ≡ n
length-zeros hash zero = refl
length-zeros hash (suc n) = ap suc (length-zeros hash n)

abbrev pub sevens : Bytes → Option Bytes
sevens s = some (replicate 32 7)

abbrev pub tiny : Manifest
tiny = record {
  version = 1;
  nar_hash = [];
  nar_size = 288;
  segment_bytes = 4;
  root = dir (entry (b'a' ∷ []) (regular false 3 ((b'h' ∷ []) ∷ [])) end);
}

abbrev made : Result Layout → Layout
made (ok l) = l
made (err e) = record { nar_size = 0; lits = []; spans = [] }

abbrev tiny_layout : Layout
tiny_layout = made (synth_layout sevens tiny)

tiny_made : synth_layout sevens tiny ≡ ok tiny_layout
unfolding synth_layout node segments segment toks tok raw_lit close_lit le_bytes div_ceil pad_len
tiny_made = refl

pub tiny_size : length (nar_of zeros sevens tiny) ≡ 288
unfolding archive le_bytes pad_len
tiny_size = refl

tiny_fits : length (nar_of zeros sevens tiny) < 2 ^ 64
tiny_fits = omega (arith, tiny_size)

synth_layout-nar_of_example :
    IsLaid tiny_layout.lits 0 tiny_layout.spans tiny_layout.nar_size
    × (read_spans zeros tiny_layout.lits tiny_layout.spans ≡ nar_of zeros sevens tiny)
    × (tiny_layout.nar_size ≡ 288)
    × (length (nar_of zeros sevens tiny) ≡ 288)
synth_layout-nar_of_example =
    synth_layout-nar_of zeros sevens tiny tiny_layout length-zeros tiny_fits tiny_made
