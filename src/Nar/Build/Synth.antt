-- ===== src/Nar/Build/Synth.antt =====
-- nar.rs: the builder of a seek table as a writer of the layout of its manifest.
use narshare.Base.{
  ℕ, ◌+◌, ◌≡◌, refl, ap, ◌∙◌, inl, inr, none, List, [], ◌∷◌, ◌++◌, map, length, Option-cases,
}
use narshare.Base.Order.{nat_ord}
use narshare.Facts.{Bytes}
use narshare.Nar.{Source, lit, file, Seg}
use narshare.Nar.Build.{
  Tree, Files, link, plain, folder, other, no_files, named, Builder, raw_lit, close_lit, tok, toks,
  file_seg, join,
}
use narshare.Manifest as M
use narshare.Manifest.{
  SpanKind, segment_of, Span, Synth, wrap, le_bytes, pad, executable_toks, w_magic, w_open, w_close,
  w_type, w_symlink, w_target, w_regular, w_contents, w_directory, w_entry, w_name, w_node,
}
use narshare.Manifest.Writer.{str, strs}

-- A builder as a writer of a layout, where a file is named by its path.
abbrev pub kind_of : Source → SpanKind
kind_of (lit o) = M.lit o
kind_of (file path off) = segment_of path

abbrev pub span_of : Seg → Span
span_of s = record { nar_off = s.nar_off; len = s.len; kind = kind_of s.src }

abbrev pub synth_of : Builder → Synth
synth_of b = record {
  lits = b.lits;
  spans = map span_of b.segs;
  off = b.off;
  open_lit = b.open_lit;
}

pub raw_lit_lem : (b : Builder) (x : Bytes) → synth_of (raw_lit b x) ≡ M.raw_lit (synth_of b) x
unfolding raw_lit M.raw_lit
raw_lit_lem b [] = refl
raw_lit_lem b (c ∷ x) = refl

pub map_push :
    (xs : List Seg) (s : Seg) → map span_of (xs ++ (s ∷ [])) ≡ map span_of xs ++ (span_of s ∷ [])
map_push [] s = refl
map_push (x ∷ xs) s = ap (◌∷◌ (span_of x)) (map_push xs s)

pub close_lit_lem : (b : Builder) → synth_of (close_lit b) ≡ M.close_lit (synth_of b)
unfolding close_lit M.close_lit
close_lit_lem b = elim (Option-cases b.open_lit) [
  | inl n ↦ rw (close_lit, M.close_lit, n) refl
  | inr (o, n) ↦
      rw (close_lit, M.close_lit, n)
        (ap (λ (x : List Span). record (synth_of b) { open_lit = none; spans = x })
          (map_push b.segs _))
]

pub tok_lem : (b : Builder) (s : Bytes) → synth_of (tok b s) ≡ M.tok (synth_of b) s
unfolding tok M.tok
tok_lem b s =
    raw_lit_lem _ (pad (length s))
    ∙ ap (λ x. M.raw_lit x (pad (length s)))
        (raw_lit_lem _ s ∙ ap (λ x. M.raw_lit x s) (raw_lit_lem b (le_bytes 8 (length s))))

pub toks_lem : (b : Builder) (ss : List Bytes) → synth_of (toks b ss) ≡ M.toks (synth_of b) ss
unfolding toks M.toks
toks_lem b [] = refl
toks_lem b (s ∷ ss) = toks_lem (tok b s) ss ∙ ap (λ x. M.toks x ss) (tok_lem b s)

pub file_seg_lem :
    (b : Builder) (path : Bytes) (n : ℕ)
    → synth_of (file_seg b path n) ≡ M.segment (synth_of b) path n
unfolding file_seg M.segment
file_seg_lem b path n =
    let c = close_lit b in
    let s : Seg = record { nar_off = c.off; len = n; src = file path 0 } in
    ap (λ (x : List Span). record (synth_of c) { spans = x; off = wrap (c.off + n) })
      (map_push c.segs s)
    ∙ ap
        (λ (k : Synth). record k {
          spans = k.spans ++ (record { nar_off = k.off; len = n; kind = segment_of path } ∷ []);
          off = wrap (k.off + n);
        })
        (close_lit_lem b)

-- The archive format of Nix for a tree, followed by `rest`.
unfoldable mutual
  pub archive : Tree → Bytes → Bytes
  archive (link target) rest =
      strs (w_open ∷ w_type ∷ w_symlink ∷ w_target ∷ target ∷ w_close ∷ []) ++ rest
  archive (plain executable content) rest =
      strs (w_open ∷ w_type ∷ w_regular ∷ [])
      ++ (strs (executable_toks executable)
          ++ (strs (w_contents ∷ []) ++ (str content ++ (str w_close ++ rest))))
  archive (folder files) rest =
      strs (w_open ∷ w_type ∷ w_directory ∷ []) ++ archive_files files (str w_close ++ rest)
  archive other rest = rest

  pub archive_files : Files → Bytes → Bytes
  archive_files no_files rest = rest
  archive_files (named name child files) rest =
      strs (w_entry ∷ w_open ∷ w_name ∷ name ∷ w_node ∷ [])
      ++ archive child (str w_close ++ archive_files files rest)

-- Reading a file of the tree whole gives its content.
unfoldable mutual
  pub Reads : (Bytes → ℕ → Bytes) → Bytes → Tree → Type 0
  Reads fill path (link target) = Unit
  Reads fill path (plain executable content) = fill path (length content) ≡ content
  Reads fill path (folder files) = ReadsFiles fill path files
  Reads fill path other = Unit

  pub ReadsFiles : (Bytes → ℕ → Bytes) → Bytes → Files → Type 0
  ReadsFiles fill path no_files = Unit
  ReadsFiles fill path (named name child files) =
      Reads fill (join path name) child × ReadsFiles fill path files
