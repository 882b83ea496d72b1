-- ===== src/Nar/Build/Archive.antt =====
-- nar.rs: the seek table of a tree reads as its archive.
use narshare.Base.{
  ℕ, ◌+◌, ◌^◌, ◌<◌, ◌≡◌, refl, sym, subst, ◌∙◌, List, [], ◌∷◌, ◌++◌, map, ltb, if◌then◌else◌,
  length, arith, lt→ltb, ok, bind-ok,
}
use narshare.Base.Order.{nat_ord}
use mathlib.Core.List.{append-nil}
use narshare.Facts.{Bytes}
use narshare.Nar.{Source, lit, file, Seg, SeekTable}
use narshare.Nar.Cover.{IsInside, IsLaidOut}
use narshare.Nar.Build.{
  Tree, Files, link, plain, folder, other, no_files, named, Builder, raw_lit, close_lit, tok, toks,
  file_seg, join, node, node_files, empty_builder, table_of, build,
}
use narshare.Manifest.{
  Synth, le_bytes, pad, executable_toks, w_magic, w_open, w_close, w_type, w_symlink, w_target,
  w_regular, w_contents, w_directory, w_entry, w_name, w_node,
}
use narshare.Manifest.Chain.{
  Writes, starts, raw_lit-Writes, tok-Writes, toks-Writes, segment-Writes, str_split,
}
use narshare.Manifest.Spans.{IsInside as IsInsideSpan, HasWritten, IsLaid, read_spans}
use narshare.Manifest.Writer.{IsClosed, close_lit-IsClosed, str, strs}
use narshare.Nar.Build.Synth.{
  kind_of, span_of, synth_of, raw_lit_lem, close_lit_lem, tok_lem, toks_lem, file_seg_lem, archive,
  archive_files, Reads, ReadsFiles,
}

module _ (fill : Bytes → ℕ → Bytes) (fills : (h : Bytes) (n : ℕ) → length (fill h n) ≡ n)
    (goal : Bytes) (small : length goal < 2 ^ 64) where
  abbrev W : Builder → Bytes → Type 0
  W b rest = Writes fill fills goal small (synth_of b) rest

  abbrev move :
      (x y : Synth) (rest : Bytes)
      → x ≡ y
      → Writes fill fills goal small y rest
      → Writes fill fills goal small x rest
  move x y rest e h = subst (λ k. Writes fill fills goal small k rest) (sym e) h

  raw_lit-W : (b : Builder) (x rest : Bytes) → W b (x ++ rest) → W (raw_lit b x) rest
  raw_lit-W b x rest h =
      move _ _ rest (raw_lit_lem b x) (raw_lit-Writes fill fills goal small (synth_of b) x rest h)

  tok-W : (b : Builder) (s rest : Bytes) → W b (str s ++ rest) → W (tok b s) rest
  tok-W b s rest h =
      move _ _ rest (tok_lem b s) (tok-Writes fill fills goal small (synth_of b) s rest h)

  toks-W :
      (b : Builder) (ss : List Bytes) (rest : Bytes) → W b (strs ss ++ rest) → W (toks b ss) rest
  toks-W b ss rest h =
      move _ _ rest (toks_lem b ss) (toks-Writes fill fills goal small (synth_of b) ss rest h)

  -- The content of a file; an empty one has no segment.
  body-W :
      (b : Builder) (path content rest : Bytes)
      → fill path (length content) ≡ content
      → W b (content ++ rest)
      → W (if ltb 0 (length content) then file_seg b path (length content) else b) rest
  body-W b path [] rest e h = h
  body-W b path (c ∷ content) rest e h =
      let some_bytes = lt→ltb 0 (length (c ∷ content)) (omega arith) in
      rw some_bytes (
        move _ _ rest (file_seg_lem b path (length (c ∷ content))) (
          segment-Writes fill fills goal small (synth_of b) path rest (length (c ∷ content))
            (subst (λ x. W b (x ++ rest)) (sym e) h)))

  mutual
    unfolding node archive Reads

    node-W :
        (path : Bytes) (t : Tree) (b d : Builder) (rest : Bytes)
        → Reads fill path t
        → node path t b ≡ ok d
        → W b (archive t rest)
        → W d rest
    node-W path (link target) b d rest r e h =
        subst (λ x. W x rest) (cc e)
          (toks-W b (w_open ∷ w_type ∷ w_symlink ∷ w_target ∷ target ∷ w_close ∷ []) rest h)
    node-W path (plain x content) b d rest r e h =
        subst (λ y. W y rest) (cc e)
          (tok-W _ w_close rest (
            raw_lit-W _ (pad (length content)) _ (
              body-W _ path content _ r (
                raw_lit-W _ (le_bytes 8 (length content)) _ (
                  subst (W _) (str_split content (str w_close ++ rest) (length content) refl) (
                    toks-W _ (w_contents ∷ []) _ (
                      toks-W _ (executable_toks x) _
                        (toks-W b (w_open ∷ w_type ∷ w_regular ∷ []) _ h))))))))
    node-W path (folder files) b d rest r e h =
        let q = bind-ok _ _ d e in
        subst (λ x. W x rest) (cc q.2)
          (tok-W q.0 w_close rest (
            node_files-W path files _ q.0 (str w_close ++ rest) r q.1
              (toks-W b (w_open ∷ w_type ∷ w_directory ∷ []) _ h)))
    node-W path other b d rest r e h = cc

    node_files-W :
        (path : Bytes) (fs : Files) (b d : Builder) (rest : Bytes)
        → ReadsFiles fill path fs
        → node_files path fs b ≡ ok d
        → W b (archive_files fs rest)
        → W d rest
    node_files-W path no_files b d rest r e h = subst (λ x. W x rest) (cc e) h
    node_files-W path (named name child fs) b d rest r e h =
        let q = bind-ok _ _ d e in
        node_files-W path fs (tok q.0 w_close) d rest r.1 q.2 (
          tok-W q.0 w_close _ (
            node-W (join path name) child _ q.0 _ r.0 q.1
              (toks-W b (w_entry ∷ w_open ∷ w_name ∷ name ∷ w_node ∷ []) _ h)))

-- The segments of a table as spans.
inside :
    (lits : Bytes) (s : Seg) (src : Source)
    → IsInsideSpan lits (kind_of src) s.len
    → IsInside lits s src
inside lits s (lit o) h = h
inside lits s (file path off) h = tt

IsLaid-segs :
    (lits : Bytes) (a b : ℕ) (segs : List Seg)
    → IsLaid lits a (map span_of segs) b
    → IsLaidOut lits a segs b
IsLaid-segs lits a b [] h = h
IsLaid-segs lits a b (s ∷ segs) h =
    (h.0, inside lits s s.src h.1, IsLaid-segs lits (a + s.len) b segs h.2)

abbrev pub archive_of : Tree → Bytes
archive_of t = str w_magic ++ archive t []

-- What a table reads as.
abbrev pub table_reads : (Bytes → ℕ → Bytes) → SeekTable → Bytes
table_reads fill t = read_spans fill t.lits (map span_of t.segs)

-- The seek table that is built for a tree has contiguous segments over the whole of its size, which
-- is the length of the tree's archive in Nix's format; and read in order, with the content of each
-- file in its place, they are that archive. The archive has to fit into 64 bits.
pub build-archive_of :
    (fill : Bytes → ℕ → Bytes) (path : Bytes) (root : Tree) (t : SeekTable)
    → ((h : Bytes) (n : ℕ) → length (fill h n) ≡ n)
    → Reads fill path root
    → length (archive_of root) < 2 ^ 64
    → build path root ≡ ok t
    → IsLaidOut t.lits 0 t.segs t.nar_size
      × (table_reads fill t ≡ archive_of root)
      × (t.nar_size ≡ length (archive_of root))
unfolding build
build-archive_of fill path root t fills reads small e =
    let goal = archive_of root in
    let q =
      bind-ok (node path root (tok empty_builder w_magic)) (λ b. ok (table_of (close_lit b))) t e in
    let w =
      node-W fill fills goal small path root (tok empty_builder w_magic) q.0 [] reads q.1
        (tok-W fill fills goal small empty_builder w_magic _ (starts fill fills goal small)) in
    let whole : w.before ≡ goal = sym (append-nil w.before) ∙ w.joins in
    let k : IsClosed fill (synth_of (close_lit q.0)) goal =
      subst (λ x. IsClosed fill x goal) (sym (close_lit_lem q.0))
        (close_lit-IsClosed fill (synth_of q.0) goal
          (subst (HasWritten fill (synth_of q.0)) whole w.written) small) in
    let l : table_of (close_lit q.0) ≡ t = cc q.2 in
    subst
      (λ x.
        IsLaidOut x.lits 0 x.segs x.nar_size
        × (table_reads fill x ≡ goal)
        × (x.nar_size ≡ length goal))
      l
      (
        IsLaid-segs (close_lit q.0).lits 0 (close_lit q.0).off (close_lit q.0).segs (
            subst (IsLaid (close_lit q.0).lits 0 (map span_of (close_lit q.0).segs)) (sym k.ends)
              k.covers),
        k.yields,
        k.ends,
      )
