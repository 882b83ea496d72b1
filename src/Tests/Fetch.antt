-- ===== src/Tests/Fetch.antt =====
-- The plan of the transfer of the small directory.
use narshare.Facts.{Bytes}
use narshare.Base.{ℕ, none, ◌≡◌, refl, Result, ok, err, [], ◌∷◌, ◌++◌, arith, All}
use narshare.Base.Order.{nat_ord, list_ord}
use narshare.Base.Keys.{get, put}
use narshare.Nar.{pad_len}
use narshare.Nixbase32.{encode, encode_from, encoded_len, digit_at}
use narshare.Dedup.{
  plan, identify, identify_one, id_of, reside, residency_step, first_seen, add_u64,
}
use narshare.Manifest.{
  Manifest, synth_layout, node, segments, segment, toks, tok, raw_lit, close_lit, le_bytes,
  div_ceil,
}
use narshare.Narinfo.{RemoteNarinfo}
use narshare.Fetch.{Plan, manifest_plan, segment_keys, exec_spans, push_range, w_sha256}
use narshare.Fetch.Covers.{IsContiguous, IsApart, HoldsFetched, manifest_plan-covers}
use narshare.Tests.Archive.{zeros, length-zeros, sevens, tiny, tiny_size}

-- A narinfo with nothing but a hash and a size.
abbrev pub bare : Bytes → ℕ → RemoteNarinfo
bare hash size = record {
  store_path = [];
  compression = [];
  nar_hash = hash;
  nar_size = size;
  references = [];
  deriver = none;
  ca = none;
  sigs = [];
}

abbrev info : RemoteNarinfo
info = bare (5 ∷ []) 288

abbrev sealed : Manifest
sealed = record tiny { nar_hash = w_sha256 ++ encode (5 ∷ []) }

abbrev made : Result Plan → Plan
made (ok p) = p
made (err e) = record { spans = []; lits = []; ranges = [] }

abbrev tiny_plan : Plan
tiny_plan = made (manifest_plan sevens sealed info 0 100)

tiny_planned : manifest_plan sevens sealed info 0 100 ≡ ok tiny_plan
unfolding manifest_plan segment_keys exec_spans push_range plan identify identify_one id_of reside
    residency_step first_seen add_u64 encode encode_from encoded_len digit_at get put synth_layout
    node segments segment toks tok raw_lit close_lit le_bytes div_ceil pad_len
tiny_planned = refl

manifest_plan-covers_example :
    IsContiguous 0 tiny_plan.spans 288
    × IsApart 0 tiny_plan.ranges 288
    × All (HoldsFetched tiny_plan.ranges) tiny_plan.spans
manifest_plan-covers_example =
    manifest_plan-covers zeros sevens sealed info 0 100 tiny_plan length-zeros
      (omega (arith, tiny_size)) tiny_planned
