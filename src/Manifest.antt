-- ===== src/Manifest.antt =====
-- manifest.rs: the manifest of a tree, and the layout of its NAR that a reader makes from it.
pub mod Spans
pub mod Writer
pub mod Chain
pub mod Archive
pub mod Build
use narshare.Base.{
  ℕ, zero, suc, ◌+◌, ◌-◌, ◌*◌, ◌/◌, ◌%◌, ◌^◌, Bool, true, false, ◌&&◌, Option, none, some, List, [],
  ◌∷◌, ◌++◌, ltb, ◌==◌, not, if◌then◌else◌, length, replicate, is_empty, min, max, Result, ok, err,
  ◌>>=◌, ◌>>◌, bail_if, context, zero_segment_bytes, too_deep, segment_count, zero_segment,
  bad_segment_hash, not_sorted, size_mismatch,
}
use Prim.Native.Nat.Ordering.{lt, eq, gt}
use narshare.Base.Order.{nat_ord, list_ord, cmp_list}
use narshare.Facts.{Bytes}
use narshare.Nar.{pad_len}

-- The entries of a directory are a list of their own.
mutual
  pub data Node : Type 0 where
    dir : Entries → Node
    symlink : Bytes → Node
    regular : (executable : Bool) → (len : ℕ) → (segments : List Bytes) → Node

  pub data Entries : Type 0 where
    end : Entries
    entry : Bytes → Node → Entries → Entries

pub record Manifest : Type 0 where
  pub version : ℕ
  pub nar_hash : Bytes
  pub nar_size : ℕ
  pub segment_bytes : ℕ
  pub root : Node

pub data SpanKind : Type 0 where
  lit : (lit_off : ℕ) → SpanKind
  segment_of : (hash : Bytes) → SpanKind

pub record Span : Type 0 where
  pub nar_off : ℕ
  pub len : ℕ
  pub kind : SpanKind

pub record Layout : Type 0 where
  pub nar_size : ℕ
  pub lits : Bytes
  pub spans : List Span

-- The writer of the layout; an open literal is its place in the NAR and in the literals.
pub record Synth : Type 0 where
  pub lits : Bytes
  pub spans : List Span
  pub off : ℕ
  pub open_lit : Option (ℕ × ℕ)

abbrev pub max_depth : ℕ
max_depth = 512

abbrev pub wrap : ℕ → ℕ
wrap n = n % 2 ^ 64

-- `to_le_bytes` of a number of so many bytes.
unfoldable pub le_bytes : ℕ → ℕ → Bytes
le_bytes zero n = []
le_bytes (suc k) n = n % 256 ∷ le_bytes k (n / 256)

abbrev pub opened : Synth → ℕ × ℕ
opened b = elim b.open_lit [ none ↦ (b.off, length b.lits) | some o ↦ o ]

unfoldable pub raw_lit : Synth → Bytes → Synth
raw_lit b bytes = if is_empty bytes then b else record b {
  open_lit = some (opened b);
  lits = b.lits ++ bytes;
  off = wrap (b.off + length bytes);
}

unfoldable pub close_lit : Synth → Synth
close_lit b = elim b.open_lit [
  | none ↦ b
  | some o ↦ record b {
    open_lit = none;
    spans =
        b.spans
        ++ (record { nar_off = o.0; len = wrap (b.off + 2 ^ 64 - o.0); kind = lit o.1 } ∷ []);
  }
]

abbrev pub pad : ℕ → Bytes
pad n = replicate (pad_len n) 0

unfoldable pub tok : Synth → Bytes → Synth
tok b s = raw_lit (raw_lit (raw_lit b (le_bytes 8 (length s))) s) (pad (length s))

-- One token after the other.
unfoldable pub toks : Synth → List Bytes → Synth
toks b [] = b
toks b (s ∷ ss) = toks (tok b s) ss

unfoldable pub segment : Synth → Bytes → ℕ → Synth
segment b hash len =
    let c = close_lit b in
    record c {
      spans = c.spans ++ (record { nar_off = c.off; len = len; kind = segment_of hash } ∷ []);
      off = wrap (c.off + len);
    }

unfoldable pub div_ceil : ℕ → ℕ → ℕ
div_ceil a b = if ltb 0 (a % b) then a / b + 1 else a / b

-- 32 bytes of hex; `hex` is the decoder of that crate.
abbrev pub segment_hash : (Bytes → Option Bytes) → Bytes → Option Bytes
segment_hash hex seg = elim (hex seg) [
  | none ↦ none
  | some raw ↦ if length raw == 32 then some raw else none
]

unfoldable pub segments : (Bytes → Option Bytes) → ℕ → ℕ → List Bytes → Synth → Result Synth
segments hex segment_bytes remaining [] b = ok b
segments hex segment_bytes remaining (seg ∷ segs) b = do
  let slen = min remaining segment_bytes
  bail_if (slen == 0) zero_segment
  hash ← context (segment_hash hex seg) bad_segment_hash
  segments hex segment_bytes (remaining - slen) segs (segment b hash slen)

-- `prev >= name`
abbrev pub out_of_order : Option Bytes → Bytes → Bool
out_of_order none name = false
out_of_order (some p) name = elim (cmp_list p name) [ lt ↦ false | eq ↦ true | gt ↦ true ]

-- The words of the archive format.

abbrev pub w_magic : Bytes
w_magic =
    b'n' ∷ b'i' ∷ b'x' ∷ b'-' ∷ b'a' ∷ b'r' ∷ b'c' ∷ b'h' ∷ b'i' ∷ b'v' ∷ b'e' ∷ b'-' ∷ b'1' ∷ []

abbrev pub w_open : Bytes
w_open = b'(' ∷ []

abbrev pub w_close : Bytes
w_close = b')' ∷ []

abbrev pub w_type : Bytes
w_type = b't' ∷ b'y' ∷ b'p' ∷ b'e' ∷ []

abbrev pub w_symlink : Bytes
w_symlink = b's' ∷ b'y' ∷ b'm' ∷ b'l' ∷ b'i' ∷ b'n' ∷ b'k' ∷ []

abbrev pub w_target : Bytes
w_target = b't' ∷ b'a' ∷ b'r' ∷ b'g' ∷ b'e' ∷ b't' ∷ []

abbrev pub w_regular : Bytes
w_regular = b'r' ∷ b'e' ∷ b'g' ∷ b'u' ∷ b'l' ∷ b'a' ∷ b'r' ∷ []

abbrev pub w_executable : Bytes
w_executable = b'e' ∷ b'x' ∷ b'e' ∷ b'c' ∷ b'u' ∷ b't' ∷ b'a' ∷ b'b' ∷ b'l' ∷ b'e' ∷ []

abbrev pub w_contents : Bytes
w_contents = b'c' ∷ b'o' ∷ b'n' ∷ b't' ∷ b'e' ∷ b'n' ∷ b't' ∷ b's' ∷ []

abbrev pub w_directory : Bytes
w_directory = b'd' ∷ b'i' ∷ b'r' ∷ b'e' ∷ b'c' ∷ b't' ∷ b'o' ∷ b'r' ∷ b'y' ∷ []

abbrev pub w_entry : Bytes
w_entry = b'e' ∷ b'n' ∷ b't' ∷ b'r' ∷ b'y' ∷ []

abbrev pub w_name : Bytes
w_name = b'n' ∷ b'a' ∷ b'm' ∷ b'e' ∷ []

abbrev pub w_node : Bytes
w_node = b'n' ∷ b'o' ∷ b'd' ∷ b'e' ∷ []

abbrev pub executable_toks : Bool → List Bytes
executable_toks executable = if executable then w_executable ∷ [] ∷ [] else []

unfoldable mutual
  pub node : (Bytes → Option Bytes) → ℕ → ℕ → Node → Synth → Result Synth
  node hex segment_bytes depth (symlink target) b = do
    bail_if (ltb max_depth depth) too_deep
    ok (toks b (w_open ∷ w_type ∷ w_symlink ∷ w_target ∷ target ∷ w_close ∷ []))
  node hex segment_bytes depth (regular executable len segs) b = do
    let head =
        toks (toks (toks b (w_open ∷ w_type ∷ w_regular ∷ [])) (executable_toks executable))
          (w_contents ∷ [])
    bail_if (ltb max_depth depth) too_deep
    bail_if (not (length segs == div_ceil len (max segment_bytes 1))) segment_count
    body ← segments hex segment_bytes len segs (raw_lit head (le_bytes 8 len))
    ok (tok (raw_lit body (pad len)) w_close)
  node hex segment_bytes depth (dir entries) b = do
    bail_if (ltb max_depth depth) too_deep
    body ←
        node_entries hex segment_bytes depth none entries
          (toks b (w_open ∷ w_type ∷ w_directory ∷ []))
    ok (tok body w_close)

  pub node_entries : (Bytes → Option Bytes) → ℕ → ℕ → Option Bytes → Entries → Synth → Result Synth
  node_entries hex segment_bytes depth prev end b = ok b
  node_entries hex segment_bytes depth prev (entry name child rest) b = do
    bail_if (out_of_order prev name) not_sorted
    inner ←
        node hex segment_bytes (suc depth) child
          (toks b (w_entry ∷ w_open ∷ w_name ∷ name ∷ w_node ∷ []))
    node_entries hex segment_bytes depth (some name) rest (tok inner w_close)

abbrev pub empty_synth : Synth
empty_synth = record { lits = []; spans = []; off = 0; open_lit = none }

abbrev pub layout_of : Synth → Layout
layout_of b = record { nar_size = b.off; lits = b.lits; spans = b.spans }

-- The size that the manifest claims has to come out.
abbrev pub sized : ℕ → Synth → Result Layout
sized nar_size b = bail_if (not (b.off == nar_size)) size_mismatch >> ok (layout_of b)

unfoldable pub synth_layout : (Bytes → Option Bytes) → Manifest → Result Layout
synth_layout hex m = do
  bail_if (m.segment_bytes == 0) zero_segment_bytes
  body ← node hex m.segment_bytes 0 m.root (tok empty_synth w_magic)
  sized m.nar_size (close_lit body)
