-- ===== src/Manifest/Writer.antt =====
-- manifest.rs: what the writer of the layout has written.
use narshare.Base.{
  ℕ, ◌+◌, ◌-◌, ◌^◌, ◌≤◌, ◌<◌, ◌≡◌, refl, sym, ap, ap₂, subst, ◌∙◌, inl, inr, Option, none, some,
  List, [], ◌∷◌, ◌++◌, length, length-append, length-drop, take, arith, Option-cases,
}
use narshare.Base.Order.{nat_ord}
use mathlib.Core.List.{append-nil, append_assoc}
use narshare.Facts.{Bytes}
use narshare.Manifest.{
  lit, Span, Synth, wrap, le_bytes, opened, raw_lit, close_lit, pad, tok, toks, segment,
}
use narshare.Manifest.Spans.{
  read_spans, IsLaid, IsOpen, HasWritten, drop-append, take_all, drop_all, IsLaid-append,
  read_spans-append, IsLaid-push, read_spans-push,
}

wrap_small : (n : ℕ) → n < 2 ^ 64 → wrap n ≡ n
wrap_small n h = omega arith

-- An open literal that grows, or begins.
IsOpen-append :
    (lits bytes tail : Bytes) (off a : ℕ) (o : Option (ℕ × ℕ))
    → IsOpen lits o a tail
    → off ≡ a + length tail
    → IsOpen
        (lits ++ bytes)
        (some (elim o [ none ↦ (off, length lits) | some x ↦ x ]))
        a
        (tail ++ bytes)
IsOpen-append lits bytes tail off a none h e = (
  omega (arith, ap length h, e),
  omega (arith, length-append lits bytes),
  drop_all lits bytes ∙ ap (λ x. x ++ bytes) (sym h),
)
IsOpen-append lits bytes tail off a (some x) h e = (
  h.0,
  omega (arith, h.1, length-append lits bytes),
  drop-append x.1 lits bytes h.1 ∙ ap (λ y. y ++ bytes) h.2,
)

module _ (fill : Bytes → ℕ → Bytes) where
  -- The bytes are appended to the open literal, or open one.
  raw_lit_some :
      (b : Synth) (bs bytes : Bytes)
      → HasWritten fill b bs
      → length bs + length bytes < 2 ^ 64
      → HasWritten fill
          (record b {
            open_lit = some (opened b);
            lits = b.lits ++ bytes;
            off = wrap (b.off + length bytes);
          })
          (bs ++ bytes)
  raw_lit_some b bs bytes h small = record {
    front = h.front;
    tail = h.tail ++ bytes;
    split = ap (λ x. x ++ bytes) h.split ∙ append_assoc h.front h.tail bytes;
    at =
        wrap_small (b.off + length bytes) (omega (arith, h.at))
        ∙ omega (arith, h.at, length-append bs bytes);
    laid = IsLaid-append b.lits bytes 0 (length h.front) b.spans h.laid;
    reads = read_spans-append fill b.lits bytes 0 (length h.front) b.spans h.laid ∙ h.reads;
    pending =
        IsOpen-append b.lits bytes h.tail b.off (length h.front) b.open_lit h.pending
          (h.at ∙ ap length h.split ∙ length-append h.front h.tail);
  }

  pub raw_lit-HasWritten :
      (b : Synth) (bs bytes : Bytes)
      → HasWritten fill b bs
      → length bs + length bytes < 2 ^ 64
      → HasWritten fill (raw_lit b bytes) (bs ++ bytes)
  unfolding raw_lit
  raw_lit-HasWritten b bs [] h small = subst (HasWritten fill b) (sym (append-nil bs)) h
  raw_lit-HasWritten b bs (c ∷ bytes) h small = raw_lit_some b bs (c ∷ bytes) h small

  -- After `close_lit` the spans read as all of it.
  pub record IsClosed (b : Synth) (bs : Bytes) : Type 0 where
    pub ends : b.off ≡ length bs
    pub covers : IsLaid b.lits 0 b.spans (length bs)
    pub yields : read_spans fill b.lits b.spans ≡ bs
    pub shut : b.open_lit ≡ none

  none-IsClosed :
      (b : Synth) (bs : Bytes) → HasWritten fill b bs → b.open_lit ≡ none → IsClosed b bs
  none-IsClosed b bs h n =
      let t : h.tail ≡ [] = rw n at h.pending in
      let e : bs ≡ h.front = h.split ∙ ap (λ x. h.front ++ x) t ∙ append-nil h.front in
      record {
        ends = h.at;
        covers = subst (λ x. IsLaid b.lits 0 b.spans (length x)) (sym e) h.laid;
        yields = h.reads ∙ sym e;
        shut = n;
      }

  closes :
      (b : Synth) (bs : Bytes) (o : ℕ × ℕ)
      → HasWritten fill b bs
      → b.open_lit ≡ some o
      → length bs < 2 ^ 64
      → IsClosed
          (record b {
            open_lit = none;
            spans =
                b.spans
                ++ (record { nar_off = o.0; len = wrap (b.off + 2 ^ 64 - o.0); kind = lit o.1 }
                    ∷ []);
          })
          bs
  closes b bs o h n small =
      let p : IsOpen b.lits (some o) (length h.front) h.tail = rw n at h.pending in
      let whole : length bs ≡ length h.front + length h.tail =
        ap length h.split ∙ length-append h.front h.tail in
      let l : wrap (b.off + 2 ^ 64 - o.0) ≡ length h.tail =
        omega (arith, h.at, p.0, whole, small) in
      let s : Span = record { nar_off = o.0; len = wrap (b.off + 2 ^ 64 - o.0); kind = lit o.1 } in
      let inside : o.1 + wrap (b.off + 2 ^ 64 - o.0) ≤ length b.lits =
        omega (arith, l, p.1, length-drop o.1 b.lits, ap length p.2) in
      record {
        ends = h.at;
        covers =
            subst (IsLaid b.lits 0 (b.spans ++ (s ∷ []))) (omega (arith, l, whole))
              (IsLaid-push b.lits 0 (length h.front) b.spans s h.laid p.0 inside);
        yields =
            read_spans-push fill b.lits b.spans s
            ∙ ap₂ (λ x y. x ++ y) h.reads (ap₂ take l p.2 ∙ take_all h.tail)
            ∙ sym h.split;
        shut = refl;
      }

  pub close_lit-IsClosed :
      (b : Synth) (bs : Bytes)
      → HasWritten fill b bs
      → length bs < 2 ^ 64
      → IsClosed (close_lit b) bs
  unfolding close_lit
  close_lit-IsClosed b bs h small = elim (Option-cases b.open_lit) [
    | inl n ↦ rw (close_lit, n) (none-IsClosed b bs h n)
    | inr (o, n) ↦ rw (close_lit, n) (closes b bs o h n small)
  ]

  pub segment-HasWritten :
      (b : Synth) (bs hash : Bytes) (len : ℕ)
      → HasWritten fill b bs
      → length (fill hash len) ≡ len
      → length bs + len < 2 ^ 64
      → HasWritten fill (segment b hash len) (bs ++ fill hash len)
  unfolding segment
  segment-HasWritten b bs hash len h l small =
      let k = close_lit-IsClosed b bs h (omega arith) in
      record {
        front = bs ++ fill hash len;
        tail = [];
        split = sym (append-nil (bs ++ fill hash len));
        at =
            wrap_small _ (omega (arith, k.ends))
            ∙ omega (arith, k.ends, l, length-append bs (fill hash len));
        laid =
            subst (IsLaid (close_lit b).lits 0 _)
              (omega (arith, l, length-append bs (fill hash len)))
              (IsLaid-push (close_lit b).lits 0 (length bs) (close_lit b).spans _ k.covers k.ends
                tt);
        reads =
            read_spans-push fill (close_lit b).lits (close_lit b).spans _
            ∙ ap (λ x. x ++ fill hash len) k.yields;
        pending = rw k.shut refl;
      }

-- A string of the archive: its length in eight bytes, itself, and zeros up to a multiple of eight.
abbrev pub str : Bytes → Bytes
str s = le_bytes 8 (length s) ++ (s ++ pad (length s))

abbrev pub strs : List Bytes → Bytes
strs [] = []
strs (s ∷ ss) = str s ++ strs ss

module _ (fill : Bytes → ℕ → Bytes) where
  pub tok-HasWritten :
      (b : Synth) (bs s : Bytes)
      → HasWritten fill b bs
      → length bs + length (str s) < 2 ^ 64
      → HasWritten fill (tok b s) (bs ++ str s)
  unfolding tok
  tok-HasWritten b bs s h small =
      let n = le_bytes 8 (length s) in
      let l1 = length-append n (s ++ pad (length s)) in
      let l2 = length-append s (pad (length s)) in
      let h1 = raw_lit-HasWritten fill b bs n h (omega (arith, l1)) in
      let h2 =
        raw_lit-HasWritten fill (raw_lit b n) (bs ++ n) s h1
          (omega (arith, l1, l2, length-append bs n)) in
      let h3 =
        raw_lit-HasWritten fill (raw_lit (raw_lit b n) s) ((bs ++ n) ++ s) (pad (length s)) h2
          (omega (arith, l1, l2, length-append bs n, length-append (bs ++ n) s)) in
      subst (HasWritten fill (tok b s))
        (append_assoc (bs ++ n) s (pad (length s)) ∙ append_assoc bs n (s ++ pad (length s))) h3

  pub toks-HasWritten :
      (b : Synth) (bs : Bytes) (ss : List Bytes)
      → HasWritten fill b bs
      → length bs + length (strs ss) < 2 ^ 64
      → HasWritten fill (toks b ss) (bs ++ strs ss)
  unfolding toks
  toks-HasWritten b bs [] h small = subst (HasWritten fill b) (sym (append-nil bs)) h
  toks-HasWritten b bs (s ∷ ss) h small =
      let l = length-append (str s) (strs ss) in
      subst (HasWritten fill (toks b (s ∷ ss))) (append_assoc bs (str s) (strs ss)) (
        toks-HasWritten (tok b s) (bs ++ str s) ss (tok-HasWritten b bs s h (omega (arith, l)))
          (omega (arith, l, length-append bs (str s))))
