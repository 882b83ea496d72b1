-- ===== src/Manifest/Chain.antt =====
-- manifest.rs: writing piece by piece towards a given archive.
use narshare.Base.{
  ℕ, ◌+◌, ◌^◌, ◌<◌, ◌≡◌, refl, ap, subst, ◌∙◌, List, [], ◌++◌, length, length-append, arith,
}
use narshare.Base.Order.{nat_ord, list_ord}
use mathlib.Core.List.{append_assoc}
use narshare.Facts.{Bytes}
use narshare.Manifest.{Synth, le_bytes, pad, raw_lit, tok, toks, segment, empty_synth}
use narshare.Manifest.Spans.{HasWritten}
use narshare.Manifest.Writer.{
  raw_lit-HasWritten, segment-HasWritten, tok-HasWritten, toks-HasWritten, str, strs,
}

-- The parts in which the contents are written.
pub str_split :
    (s rest : Bytes) (n : ℕ) → length s ≡ n → str s ++ rest ≡ le_bytes 8 n ++ (s ++ (pad n ++ rest))
str_split s rest n e =
    subst (λ k. str s ++ rest ≡ le_bytes 8 k ++ (s ++ (pad k ++ rest))) e
      (append_assoc (le_bytes 8 (length s)) (s ++ pad (length s)) rest
        ∙ ap (λ x. le_bytes 8 (length s) ++ x) (append_assoc s (pad (length s)) rest))

-- `goal` is what will have been written at the end.
module _ (fill : Bytes → ℕ → Bytes) (fills : (h : Bytes) (n : ℕ) → length (fill h n) ≡ n)
    (goal : Bytes) (small : length goal < 2 ^ 64) where
  pub record Writes (b : Synth) (rest : Bytes) : Type 0 where
    pub before : Bytes
    pub written : HasWritten fill b before
    pub joins : before ++ rest ≡ goal

  fits : (before x rest : Bytes) → before ++ (x ++ rest) ≡ goal → length before + length x < 2 ^ 64
  fits before x rest e =
      omega (arith, length-append before (x ++ rest), length-append x rest, ap length e, small)

  pub raw_lit-Writes :
      (b : Synth) (x rest : Bytes) → Writes b (x ++ rest) → Writes (raw_lit b x) rest
  raw_lit-Writes b x rest h = record {
    before = h.before ++ x;
    written = raw_lit-HasWritten fill b h.before x h.written (fits h.before x rest h.joins);
    joins = append_assoc h.before x rest ∙ h.joins;
  }

  pub tok-Writes : (b : Synth) (s rest : Bytes) → Writes b (str s ++ rest) → Writes (tok b s) rest
  tok-Writes b s rest h = record {
    before = h.before ++ str s;
    written = tok-HasWritten fill b h.before s h.written (fits h.before (str s) rest h.joins);
    joins = append_assoc h.before (str s) rest ∙ h.joins;
  }

  pub toks-Writes :
      (b : Synth) (ss : List Bytes) (rest : Bytes)
      → Writes b (strs ss ++ rest)
      → Writes (toks b ss) rest
  toks-Writes b ss rest h = record {
    before = h.before ++ strs ss;
    written = toks-HasWritten fill b h.before ss h.written (fits h.before (strs ss) rest h.joins);
    joins = append_assoc h.before (strs ss) rest ∙ h.joins;
  }

  pub segment-Writes :
      (b : Synth) (hash rest : Bytes) (n : ℕ)
      → Writes b (fill hash n ++ rest)
      → Writes (segment b hash n) rest
  segment-Writes b hash rest n h = record {
    before = h.before ++ fill hash n;
    written = segment-HasWritten fill b h.before hash n h.written (fills hash n) (
        subst (λ k. length h.before + k < 2 ^ 64) (fills hash n)
          (fits h.before (fill hash n) rest h.joins));
    joins = append_assoc h.before (fill hash n) rest ∙ h.joins;
  }

  pub starts : Writes empty_synth goal
  starts = record {
    before = [];
    written = record {
      front = [];
      tail = [];
      split = refl;
      at = refl;
      laid = refl;
      reads = refl;
      pending = refl;
    };
    joins = refl;
  }
