-- ===== src/Manifest/Build/Agree.antt =====
-- manifest.rs and nar.rs: the manifest that is built for a tree and its seek table agree.
use narshare.Base.{
  ℕ, zero, suc, ◌-◌, ◌^◌, ◌<◌, ◌≡◌, refl, sym, ap, ap₂, subst, ◌∙◌, not, some, List, [], ◌∷◌, ◌++◌,
  length, length-take, length-drop, take, drop, take-append-drop, min, arith, ok, bind-ok,
  bail_if-ok, non_utf8,
}
use narshare.Base.Order.{nat_ord}
use narshare.Facts.{Bytes}
use narshare.Nar.{SeekTable}
use narshare.Nar.Build.{Tree, Files, link, plain, folder, other, no_files, named, build}
use narshare.Nar.Build.Synth as T
use narshare.Nar.Build.Synth.{Reads}
use narshare.Nar.Build.Archive.{archive_of, table_reads, build-archive_of}
use narshare.Manifest.{
  Node, Entries, Manifest, Layout, dir, symlink, regular, end, entry, segment_hash, synth_layout,
  executable_toks, w_magic, w_open, w_close, w_type, w_regular, w_contents, w_directory, w_entry,
  w_name, w_node,
}
use narshare.Manifest.Spans.{read_spans}
use narshare.Manifest.Writer.{str, strs}
use narshare.Manifest.Archive.{
  archive, archive_entries, contents, fill_with, nar_of, synth_layout-nar_of,
}
use narshare.Manifest.Build.{
  Codec, hash_segments, build_tree, build_entries, build_manifest, manifest_with,
}

-- The content of a segment is found again by its hash.
abbrev pub Finds : (Bytes → ℕ → Bytes) → Codec → Bytes → Type 0
Finds fill k chunk =
    (digest : Bytes) × (segment_hash k.hex (k.hash chunk) ≡ some digest)
    × (fill digest (length chunk) ≡ chunk)

abbrev pub FindsSegments : (Bytes → ℕ → Bytes) → Codec → ℕ → ℕ → Bytes → Type 0
FindsSegments fill k size fuel [] = Unit
FindsSegments fill k size zero (c ∷ content) = Unit
FindsSegments fill k size (suc fuel) (c ∷ content) =
    Finds fill k (take size (c ∷ content))
    × FindsSegments fill k size fuel (drop size (c ∷ content))

unfoldable mutual
  pub FindsAll : (Bytes → ℕ → Bytes) → Codec → ℕ → Tree → Type 0
  FindsAll fill k size (link target) = Unit
  FindsAll fill k size (plain executable content) =
      FindsSegments fill k size (length content) content
  FindsAll fill k size (folder files) = FindsFiles fill k size files
  FindsAll fill k size other = Unit

  pub FindsFiles : (Bytes → ℕ → Bytes) → Codec → ℕ → Files → Type 0
  FindsFiles fill k size no_files = Unit
  FindsFiles fill k size (named name child files) =
      FindsAll fill k size child × FindsFiles fill k size files

module _ (fill : Bytes → ℕ → Bytes) (k : Codec) (size : ℕ) where
  contents-hash_segments :
      (fuel : ℕ) (content : Bytes) (segs : List Bytes)
      → FindsSegments fill k size fuel content
      → hash_segments k.hash size fuel content ≡ ok segs
      → contents fill k.hex size (length content) segs ≡ content
  unfolding hash_segments
  contents-hash_segments fuel [] segs f e =
      let n : [] ≡ segs = cc e in subst (λ s. contents fill k.hex size 0 s ≡ []) n refl
  contents-hash_segments zero (c ∷ content) segs f e = cc
  contents-hash_segments (suc fuel) (c ∷ content) segs f e =
      let all = c ∷ content in
      let q = bind-ok (hash_segments k.hash size fuel (drop size all)) _ segs e in
      let n : (k.hash (take size all) ∷ q.0) ≡ segs = cc q.2 in
      let ih = contents-hash_segments fuel (drop size all) q.0 f.1 q.1 in
      let part : min (length all) size ≡ length (take size all) =
        omega (arith, length-take size all) in
      let more : length all - min (length all) size ≡ length (drop size all) =
        omega (arith, length-drop size all) in
      subst (λ s. contents fill k.hex size (length all) s ≡ all) n
        (ap₂ (λ x y. x ++ y) (ap₂ (fill_with fill) f.0.1 part ∙ f.0.2)
            (ap (λ r. contents fill k.hex size r q.0) more ∙ ih)
          ∙ take-append-drop size all)

  mutual
    unfolding build_tree FindsAll archive T.archive

    archive-build_tree :
        (t : Tree) (n : Node) (rest : Bytes)
        → FindsAll fill k size t
        → build_tree k size t ≡ ok n
        → archive fill k.hex size n rest ≡ T.archive t rest
    archive-build_tree (link target) n rest f e =
        let r = bail_if-ok (not (k.utf8 target)) non_utf8 (ok (symlink target)) n e in
        let m : symlink target ≡ n = cc r.1 in
        subst (λ x. archive fill k.hex size x rest ≡ T.archive (link target) rest) m refl
    archive-build_tree (plain x content) n rest f e =
        let q = bind-ok (hash_segments k.hash size (length content) content) _ n e in
        let m : regular x (length content) q.0 ≡ n = cc q.2 in
        subst (λ y. archive fill k.hex size y rest ≡ T.archive (plain x content) rest) m
          (ap
            (λ d.
              strs (w_open ∷ w_type ∷ w_regular ∷ [])
              ++ (strs (executable_toks x)
                  ++ (strs (w_contents ∷ []) ++ (str d ++ (str w_close ++ rest)))))
            (contents-hash_segments (length content) content q.0 f q.1))
    archive-build_tree (folder files) n rest f e =
        let q = bind-ok (build_entries k size files) _ n e in
        let m : dir q.0 ≡ n = cc q.2 in
        subst (λ y. archive fill k.hex size y rest ≡ T.archive (folder files) rest) m
          (ap (λ d. strs (w_open ∷ w_type ∷ w_directory ∷ []) ++ d)
            (archive-build_entries files q.0 (str w_close ++ rest) f q.1))
    archive-build_tree other n rest f e = cc

    archive-build_entries :
        (fs : Files) (es : Entries) (rest : Bytes)
        → FindsFiles fill k size fs
        → build_entries k size fs ≡ ok es
        → archive_entries fill k.hex size es rest ≡ T.archive_files fs rest
    archive-build_entries no_files es rest f e =
        let m : end ≡ es = cc e in subst (λ y. archive_entries fill k.hex size y rest ≡ rest) m refl
    archive-build_entries (named name child fs) es rest f e =
        let r = bail_if-ok (not (k.utf8 name)) non_utf8 _ es e in
        let q = bind-ok (build_tree k size child) _ es r.1 in
        let p = bind-ok (build_entries k size fs) _ es q.2 in
        let m : entry name q.0 p.0 ≡ es = cc p.2 in
        subst
          (λ y. archive_entries fill k.hex size y rest ≡ T.archive_files (named name child fs) rest)
          m
          (ap (λ d. strs (w_entry ∷ w_open ∷ w_name ∷ name ∷ w_node ∷ []) ++ d)
            (archive-build_tree child q.0 _ f.0 q.1
              ∙ ap (λ d. T.archive child (str w_close ++ d))
                  (archive-build_entries fs p.0 rest f.1 p.1)))

-- The manifest that is built for a tree claims the size of the tree's seek table, and a layout that
-- is made for it reads as the same bytes as the table: where the contents of files are read as they
-- are in the tree, the contents of segments are found by their hashes, and the archive fits into 64
-- bits.
pub build_manifest-build :
    (fill read : Bytes → ℕ → Bytes) (k : Codec) (size : ℕ) (root : Tree) (path nar_hash : Bytes)
    (nar_size : ℕ) (m : Manifest) (t : SeekTable)
    → ((h : Bytes) (n : ℕ) → length (fill h n) ≡ n)
    → ((h : Bytes) (n : ℕ) → length (read h n) ≡ n)
    → FindsAll fill k size root
    → Reads read path root
    → length (archive_of root) < 2 ^ 64
    → build_manifest k root nar_hash nar_size size ≡ ok m
    → build path root ≡ ok t
    → (l : Layout) × (synth_layout k.hex m ≡ ok l)
      × (m.nar_size ≡ t.nar_size)
      × (l.nar_size ≡ t.nar_size)
      × (read_spans fill l.lits l.spans ≡ table_reads read t)
unfolding build_manifest
build_manifest-build fill read k size root path nar_hash nar_size m t fills reads finds found small
      e b =
    let q = bind-ok (build_tree k size root) _ m e in
    let made = manifest_with nar_hash nar_size size q.0 in
    let l = bind-ok (synth_layout k.hex made) _ m q.2 in
    let same_m : made ≡ m = cc l.2 in
    let same_archive : nar_of fill k.hex made ≡ archive_of root =
      ap (λ d. str w_magic ++ d) (archive-build_tree fill k size root q.0 [] finds q.1) in
    let laid =
      synth_layout-nar_of fill k.hex made l.0 fills
        (subst (λ d. length d < 2 ^ 64) (sym same_archive) small) l.1 in
    let table = build-archive_of read path root t reads found small b in
    (
      l.0,
      ap (synth_layout k.hex) (sym same_m) ∙ l.1,
      ap (λ (x : Manifest). x.nar_size) (sym same_m)
          ∙ sym laid.3
          ∙ ap length same_archive
          ∙ sym table.2,
      laid.2 ∙ sym laid.3 ∙ ap length same_archive ∙ sym table.2,
      laid.1 ∙ same_archive ∙ sym table.1,
    )
