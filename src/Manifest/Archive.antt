-- ===== src/Manifest/Archive.antt =====
-- manifest.rs: the layout of a manifest reads as the archive of its tree.
use narshare.Base.{
  ℕ, suc, ◌+◌, ◌-◌, ◌*◌, ◌/◌, ◌%◌, ◌^◌, ◌≤◌, ◌<◌, ◌≡◌, sym, subst, ◌∙◌, inl, inr, Bool, false, not,
  Option, none, some, List, [], ◌∷◌, ◌++◌, ltb, ◌==◌, length, length-append, min, max, arith,
  Bool-cases, too_deep, not_sorted, zero_segment_bytes, size_mismatch, ok, bind-ok, bail_if-ok,
  context-ok,
}
use narshare.Base.Order.{nat_ord, list_ord}
use native.Mathlib.Nat.{mod-add-div', mod-lt}
use mathlib.Core.List.{append-nil, append_assoc}
use narshare.Facts.{Bytes}
use narshare.Manifest.{
  max_depth, sized, layout_of, out_of_order, Node, Entries, dir, symlink, regular, end, entry,
  Manifest, Layout, Synth, le_bytes, pad, raw_lit, close_lit, tok, toks, segment, segments,
  segment_hash, div_ceil, node, node_entries, executable_toks, synth_layout, empty_synth, w_magic,
  w_open, w_close, w_type, w_symlink, w_target, w_regular, w_contents, w_directory, w_entry, w_name,
  w_node,
}
use narshare.Manifest.Chain.{
  Writes, tok-Writes, toks-Writes, raw_lit-Writes, segment-Writes, str_split, starts,
}
use narshare.Manifest.Spans.{HasWritten, IsLaid, read_spans}
use narshare.Manifest.Writer.{IsClosed, close_lit-IsClosed, str, strs}

-- The contents of a file: its segments, each of the full size but the last.
abbrev pub fill_with : (Bytes → ℕ → Bytes) → Option Bytes → ℕ → Bytes
fill_with fill none n = []
fill_with fill (some hash) n = fill hash n

abbrev pub contents : (Bytes → ℕ → Bytes) → (Bytes → Option Bytes) → ℕ → ℕ → List Bytes → Bytes
contents fill hex size remaining [] = []
contents fill hex size remaining (seg ∷ segs) =
    fill_with fill (segment_hash hex seg) (min remaining size)
    ++ contents fill hex size (remaining - min remaining size) segs

-- The archive format of Nix, followed by `rest`.
unfoldable mutual
  pub archive : (Bytes → ℕ → Bytes) → (Bytes → Option Bytes) → ℕ → Node → Bytes → Bytes
  archive fill hex size (symlink target) rest =
      strs (w_open ∷ w_type ∷ w_symlink ∷ w_target ∷ target ∷ w_close ∷ []) ++ rest
  archive fill hex size (regular executable len segs) rest =
      strs (w_open ∷ w_type ∷ w_regular ∷ [])
      ++ (strs (executable_toks executable)
          ++ (strs (w_contents ∷ [])
              ++ (str (contents fill hex size len segs) ++ (str w_close ++ rest))))
  archive fill hex size (dir entries) rest =
      strs (w_open ∷ w_type ∷ w_directory ∷ [])
      ++ archive_entries fill hex size entries (str w_close ++ rest)

  pub archive_entries : (Bytes → ℕ → Bytes) → (Bytes → Option Bytes) → ℕ → Entries → Bytes → Bytes
  archive_entries fill hex size end rest = rest
  archive_entries fill hex size (entry name child entries) rest =
      strs (w_entry ∷ w_open ∷ w_name ∷ name ∷ w_node ∷ [])
      ++ archive fill hex size child (str w_close ++ archive_entries fill hex size entries rest)

mul_next : (q b : ℕ) → (q + 1) * b ≡ q * b + b
mul_next q b = omega arith

div_ceil-le : (a b : ℕ) → 0 < b → a ≤ div_ceil a b * b
unfolding div_ceil
div_ceil-le a b h = elim (Bool-cases (ltb 0 (a % b))) [
  | inl r ↦ rw r (omega (arith, mod-add-div' a b, mod-lt a h, mul_next (a / b) b))
  | inr r ↦ rw r (ground (arith, mod-add-div' a b))
]

segments-cons :
    (hex : Bytes → Option Bytes) (size remaining : ℕ) (seg : Bytes) (segs : List Bytes)
    (b d : Synth)
    → segments hex size remaining (seg ∷ segs) b ≡ ok d
    → (hash : Bytes) × (segment_hash hex seg ≡ some hash)
      × (segments hex size
            (remaining - min remaining size)
            segs
            (segment b hash (min remaining size))
          ≡ ok d)
unfolding segments
segments-cons hex size remaining seg segs b d e =
    let r = bail_if-ok _ _ _ d e in let q = bind-ok _ _ d r.1 in (q.0, context-ok _ _ q.0 q.1, q.2)

-- `goal` is what will have been written at the end.
module _ (fill : Bytes → ℕ → Bytes) (fills : (h : Bytes) (n : ℕ) → length (fill h n) ≡ n)
    (hex : Bytes → Option Bytes) (size : ℕ) (some_size : 0 < size) (goal : Bytes)
    (small : length goal < 2 ^ 64) where
  segments-Writes :
      (remaining : ℕ) (segs : List Bytes) (b d : Synth) (rest : Bytes)
      → segments hex size remaining segs b ≡ ok d
      → Writes fill fills goal small b (contents fill hex size remaining segs ++ rest)
      → Writes fill fills goal small d rest
  unfolding segments
  segments-Writes remaining [] b d rest e h =
      subst (λ x. Writes fill fills goal small x rest) (cc) h
  segments-Writes remaining (seg ∷ segs) b d rest e h =
      let q = segments-cons hex size remaining seg segs b d e in
      let slen = min remaining size in
      let more = contents fill hex size (remaining - slen) segs in
      segments-Writes (remaining - slen) segs (segment b q.0 slen) d rest q.2 (
        segment-Writes fill fills goal small b q.0 (more ++ rest) slen (
          subst (Writes fill fills goal small b) (append_assoc (fill q.0 slen) more rest) (
            subst (λ x. Writes fill fills goal small b ((fill_with fill x slen ++ more) ++ rest))
              q.1 h)))

  length-contents :
      (remaining : ℕ) (segs : List Bytes) (b d : Synth)
      → segments hex size remaining segs b ≡ ok d
      → remaining ≤ length segs * size
      → length (contents fill hex size remaining segs) ≡ remaining
  unfolding segments
  length-contents remaining [] b d e le = omega arith
  length-contents remaining (seg ∷ segs) b d e le =
      let q = segments-cons hex size remaining seg segs b d e in
      let slen = min remaining size in
      let more = contents fill hex size (remaining - slen) segs in
      let ih = length-contents (remaining - slen) segs (segment b q.0 slen) d q.2 (omega arith) in
      rw q.1 (omega (arith, length-append (fill q.0 slen) more, fills q.0 slen, ih))

  counted : (k len : ℕ) → not (k == div_ceil len (max size 1)) ≡ false → k ≡ div_ceil len size
  counted k len h =
      let m : max size 1 ≡ size = omega arith in let e = rw m at h in ground (arith, e)

  regular-Writes :
      (x : Bool) (len : ℕ) (segs : List Bytes) (b body d : Synth) (rest : Bytes)
      → not (length segs == div_ceil len (max size 1)) ≡ false
      → segments hex size len segs (
          raw_lit
            (toks
              (toks (toks b (w_open ∷ w_type ∷ w_regular ∷ [])) (executable_toks x))
              (w_contents ∷ []))
            (le_bytes 8 len))
        ≡ ok body
      → tok (raw_lit body (pad len)) w_close ≡ d
      → Writes fill fills goal small b (archive fill hex size (regular x len segs) rest)
      → Writes fill fills goal small d rest
  unfolding archive
  regular-Writes x len segs b body d rest k e f h =
      let n : length segs ≡ div_ceil len size = counted (length segs) len k in
      let l : length (contents fill hex size len segs) ≡ len =
        length-contents len segs _ body e (rw n (div_ceil-le len size some_size)) in
      subst (λ y. Writes fill fills goal small y rest) f
        (tok-Writes fill fills goal small _ w_close rest (
          raw_lit-Writes fill fills goal small body (pad len) _ (
            segments-Writes len segs _ body _ e (
              raw_lit-Writes fill fills goal small _ (le_bytes 8 len) _ (
                subst (Writes fill fills goal small _)
                  (str_split (contents fill hex size len segs) (str w_close ++ rest) len l)
                  (toks-Writes fill fills goal small _ (w_contents ∷ []) _ (
                    toks-Writes fill fills goal small _ (executable_toks x) _ (
                      toks-Writes fill fills goal small b (w_open ∷ w_type ∷ w_regular ∷ []) _
                        h))))))))

  mutual
    unfolding node archive

    node-Writes :
        (depth : ℕ) (n : Node) (b d : Synth) (rest : Bytes)
        → node hex size depth n b ≡ ok d
        → Writes fill fills goal small b (archive fill hex size n rest)
        → Writes fill fills goal small d rest
    node-Writes depth (symlink target) b d rest e h =
        let r =
          bail_if-ok (ltb max_depth depth) too_deep
            (ok (toks b (w_open ∷ w_type ∷ w_symlink ∷ w_target ∷ target ∷ w_close ∷ []))) d e in
        subst (λ x. Writes fill fills goal small x rest) (cc r.1)
          (toks-Writes fill fills goal small b
            (w_open ∷ w_type ∷ w_symlink ∷ w_target ∷ target ∷ w_close ∷ []) rest h)
    node-Writes depth (regular x len segs) b d rest e h =
        let r = bail_if-ok (ltb max_depth depth) too_deep _ d e in
        let c = bail_if-ok _ _ _ d r.1 in
        let q = bind-ok _ _ d c.1 in regular-Writes x len segs b q.0 d rest c.0 q.1 (cc q.2) h
    node-Writes depth (dir entries) b d rest e h =
        let r = bail_if-ok (ltb max_depth depth) too_deep _ d e in
        let q = bind-ok _ _ d r.1 in
        subst (λ x. Writes fill fills goal small x rest) (cc q.2)
          (tok-Writes fill fills goal small q.0 w_close rest (
            node_entries-Writes depth none entries _ q.0 (str w_close ++ rest) q.1
              (toks-Writes fill fills goal small b (w_open ∷ w_type ∷ w_directory ∷ []) _ h)))

    node_entries-Writes :
        (depth : ℕ) (prev : Option Bytes) (es : Entries) (b d : Synth) (rest : Bytes)
        → node_entries hex size depth prev es b ≡ ok d
        → Writes fill fills goal small b (archive_entries fill hex size es rest)
        → Writes fill fills goal small d rest
    node_entries-Writes depth prev end b d rest e h =
        subst (λ x. Writes fill fills goal small x rest) (cc e) h
    node_entries-Writes depth prev (entry name child es) b d rest e h =
        let r = bail_if-ok (out_of_order prev name) not_sorted _ d e in
        let q = bind-ok _ _ d r.1 in
        node_entries-Writes depth (some name) es (tok q.0 w_close) d rest q.2 (
          tok-Writes fill fills goal small q.0 w_close _ (
            node-Writes (suc depth) child _ q.0 _ q.1 (
              toks-Writes fill fills goal small b (w_entry ∷ w_open ∷ w_name ∷ name ∷ w_node ∷ []) _
                h)))

-- The archive of a manifest's tree.
abbrev pub nar_of : (Bytes → ℕ → Bytes) → (Bytes → Option Bytes) → Manifest → Bytes
nar_of fill hex m = str w_magic ++ archive fill hex m.segment_bytes m.root []

sized-ok : (b : Synth) (n : ℕ) (l : Layout) → sized n b ≡ ok l → (l ≡ layout_of b) × (b.off ≡ n)
sized-ok b n l e =
    let c = bail_if-ok (not (b.off == n)) size_mismatch (ok (layout_of b)) l e in
    (cc c.1, ground (arith, c.0))

closed-nar_of :
    (fill : Bytes → ℕ → Bytes) (b : Synth) (goal : Bytes) (n : ℕ) (l : Layout)
    → IsClosed fill (close_lit b) goal
    → sized n (close_lit b) ≡ ok l
    → IsLaid l.lits 0 l.spans l.nar_size
      × (read_spans fill l.lits l.spans ≡ goal)
      × (l.nar_size ≡ n)
      × (length goal ≡ n)
closed-nar_of fill b goal n l k e =
    let s = sized-ok (close_lit b) n l e in
    subst
      (λ x.
        IsLaid x.lits 0 x.spans x.nar_size
        × (read_spans fill x.lits x.spans ≡ goal)
        × (x.nar_size ≡ n)
        × (length goal ≡ n))
      (sym s.0)
      (
        subst (IsLaid (close_lit b).lits 0 (close_lit b).spans) (sym k.ends) k.covers,
        k.yields,
        s.1,
        sym k.ends ∙ s.1,
      )

-- A layout that is made for a manifest has contiguous spans over the whole of the size that the
-- manifest claims, and read in order, with the content of each segment in its place, they are the
-- archive of the manifest's tree in Nix's format. The archive has to fit into 64 bits.
pub synth_layout-nar_of :
    (fill : Bytes → ℕ → Bytes) (hex : Bytes → Option Bytes) (m : Manifest) (l : Layout)
    → ((h : Bytes) (n : ℕ) → length (fill h n) ≡ n)
    → length (nar_of fill hex m) < 2 ^ 64
    → synth_layout hex m ≡ ok l
    → IsLaid l.lits 0 l.spans l.nar_size
      × (read_spans fill l.lits l.spans ≡ nar_of fill hex m)
      × (l.nar_size ≡ m.nar_size)
      × (length (nar_of fill hex m) ≡ m.nar_size)
unfolding synth_layout
synth_layout-nar_of fill hex m l fills small e =
    let a = bail_if-ok (m.segment_bytes == 0) zero_segment_bytes _ l e in
    let q =
      bind-ok (node hex m.segment_bytes 0 m.root (tok empty_synth w_magic))
        (λ b. sized m.nar_size (close_lit b)) l a.1 in
    let positive : 0 < m.segment_bytes = ground (arith, a.0) in
    let goal = nar_of fill hex m in
    let w =
      node-Writes fill fills hex m.segment_bytes positive goal small 0 m.root
        (tok empty_synth w_magic) q.0 [] q.1
        (tok-Writes fill fills goal small empty_synth w_magic _ (starts fill fills goal small)) in
    let whole : w.before ≡ goal = sym (append-nil w.before) ∙ w.joins in
    let k = close_lit-IsClosed fill q.0 goal (subst (HasWritten fill q.0) whole w.written) small in
    closed-nar_of fill q.0 goal m.nar_size l k q.2
