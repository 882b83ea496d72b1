-- ===== src/Nar/Build.antt =====
-- nar.rs: the builder of the seek table, `build`. A tree stands for what the file system answers,
-- with the entries of a directory as the sort by name leaves them.
pub mod Synth
pub mod Archive
use narshare.Base.{
  ℕ, suc, ◌+◌, ◌-◌, ◌%◌, ◌^◌, Bool, Option, none, some, List, [], ◌∷◌, ◌++◌, ltb, if◌then◌else◌,
  length, is_empty, Result, ok, err, ◌>>=◌, unsupported_file,
}
use narshare.Base.Order.{nat_ord}
use narshare.Facts.{Bytes}
use narshare.Nar.{Source, lit, file, Seg, SeekTable, pad_len}
use narshare.Manifest.{
  wrap, le_bytes, pad, executable_toks, w_magic, w_open, w_close, w_type, w_symlink, w_target,
  w_regular, w_contents, w_directory, w_entry, w_name, w_node,
}

mutual
  pub data Tree : Type 0 where
    link : Bytes → Tree
    plain : (executable : Bool) → (content : Bytes) → Tree
    folder : Files → Tree
    other : Tree

  pub data Files : Type 0 where
    no_files : Files
    named : Bytes → Tree → Files → Files

pub record Builder : Type 0 where
  pub lits : Bytes
  pub segs : List Seg
  pub off : ℕ
  pub open_lit : Option (ℕ × ℕ)

abbrev pub opened : Builder → ℕ × ℕ
opened b = elim b.open_lit [ none ↦ (b.off, length b.lits) | some o ↦ o ]

unfoldable pub raw_lit : Builder → Bytes → Builder
raw_lit b bytes = if is_empty bytes then b else record b {
  open_lit = some (opened b);
  lits = b.lits ++ bytes;
  off = wrap (b.off + length bytes);
}

unfoldable pub close_lit : Builder → Builder
close_lit b = elim b.open_lit [
  | none ↦ b
  | some o ↦ record b {
    open_lit = none;
    segs =
        b.segs ++ (record { nar_off = o.0; len = wrap (b.off + 2 ^ 64 - o.0); src = lit o.1 } ∷ []);
  }
]

unfoldable pub tok : Builder → Bytes → Builder
tok b s = raw_lit (raw_lit (raw_lit b (le_bytes 8 (length s))) s) (pad (length s))

unfoldable pub toks : Builder → List Bytes → Builder
toks b [] = b
toks b (s ∷ ss) = toks (tok b s) ss

unfoldable pub file_seg : Builder → Bytes → ℕ → Builder
file_seg b path len =
    let c = close_lit b in
    record c {
      segs = c.segs ++ (record { nar_off = c.off; len = len; src = file path 0 } ∷ []);
      off = wrap (c.off + len);
    }

-- `path.join(name)`
abbrev pub join : Bytes → Bytes → Bytes
join path name = path ++ (b'/' ∷ name)

unfoldable mutual
  pub node : Bytes → Tree → Builder → Result Builder
  node path (link target) b =
      ok (toks b (w_open ∷ w_type ∷ w_symlink ∷ w_target ∷ target ∷ w_close ∷ []))
  node path (plain executable content) b =
      let len = length content in
      let head =
        raw_lit
          (toks (toks (toks b (w_open ∷ w_type ∷ w_regular ∷ [])) (executable_toks executable))
            (w_contents ∷ []))
          (le_bytes 8 len) in
      let body = if ltb 0 len then file_seg head path len else head in
      ok (tok (raw_lit body (pad len)) w_close)
  node path (folder files) b = do
    body ← node_files path files (toks b (w_open ∷ w_type ∷ w_directory ∷ []))
    ok (tok body w_close)
  node path other b = err unsupported_file

  pub node_files : Bytes → Files → Builder → Result Builder
  node_files path no_files b = ok b
  node_files path (named name child rest) b = do
    inner ← node (join path name) child (toks b (w_entry ∷ w_open ∷ w_name ∷ name ∷ w_node ∷ []))
    node_files path rest (tok inner w_close)

abbrev pub empty_builder : Builder
empty_builder = record { lits = []; segs = []; off = 0; open_lit = none }

abbrev pub table_of : Builder → SeekTable
table_of b = record { nar_size = b.off; lits = b.lits; segs = b.segs }

unfoldable pub build : Bytes → Tree → Result SeekTable
build path root = do
  body ← node path root (tok empty_builder w_magic)
  ok (table_of (close_lit body))
