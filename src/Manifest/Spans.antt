-- ===== src/Manifest/Spans.antt =====
-- manifest.rs: what spans read as, and that they follow one another.
use narshare.Base.{
  ℕ, zero, suc, ◌+◌, ◌≤◌, ◌≡◌, refl, sym, ap, ap₂, ◌∙◌, Option, none, some, List, [], ◌∷◌, ◌++◌,
  length, length-append, length-drop, take, drop, arith,
}
use narshare.Base.Order.{nat_ord}
use mathlib.Core.List.{append-nil, append_assoc}
use narshare.Facts.{Bytes}
use narshare.Manifest.{SpanKind, lit, segment_of, Span, Synth}

-- A span's bytes, where `fill` gives the content of a segment from its hash and length.
abbrev pub read_kind : (Bytes → ℕ → Bytes) → Bytes → SpanKind → ℕ → Bytes
read_kind fill lits (lit lit_off) len = take len (drop lit_off lits)
read_kind fill lits (segment_of hash) len = fill hash len

abbrev pub read_spans : (Bytes → ℕ → Bytes) → Bytes → List Span → Bytes
read_spans fill lits [] = []
read_spans fill lits (s ∷ spans) = read_kind fill lits s.kind s.len ++ read_spans fill lits spans

abbrev pub IsInside : Bytes → SpanKind → ℕ → Type 0
IsInside lits (lit lit_off) len = lit_off + len ≤ length lits
IsInside lits (segment_of hash) len = Unit

-- Spans that follow one another from one offset to another.
abbrev pub IsLaid : Bytes → ℕ → List Span → ℕ → Type 0
IsLaid lits a [] b = a ≡ b
IsLaid lits a (s ∷ spans) b =
    (s.nar_off ≡ a) × IsInside lits s.kind s.len × IsLaid lits (a + s.len) spans b

abbrev pub IsOpen : Bytes → Option (ℕ × ℕ) → ℕ → Bytes → Type 0
IsOpen lits none a tail = tail ≡ []
IsOpen lits (some o) a tail = (o.0 ≡ a) × (o.1 ≤ length lits) × (drop o.1 lits ≡ tail)

-- The writer has written `bs`: its spans read as the front of it, the open literal as the rest.
pub record HasWritten (fill : Bytes → ℕ → Bytes) (b : Synth) (bs : Bytes) : Type 0 where
  pub front : Bytes
  pub tail : Bytes
  pub split : bs ≡ front ++ tail
  pub at : b.off ≡ length bs
  pub laid : IsLaid b.lits 0 b.spans (length front)
  pub reads : read_spans fill b.lits b.spans ≡ front
  pub pending : IsOpen b.lits b.open_lit (length front) tail

pub drop-append : (n : ℕ) (xs ys : Bytes) → n ≤ length xs → drop n (xs ++ ys) ≡ drop n xs ++ ys
drop-append zero xs ys h = refl
drop-append (suc n) [] ys h = absurd (omega arith)
drop-append (suc n) (x ∷ xs) ys h = drop-append n xs ys (omega arith)

pub take-append : (n : ℕ) (xs ys : Bytes) → n ≤ length xs → take n (xs ++ ys) ≡ take n xs
take-append zero xs ys h = refl
take-append (suc n) [] ys h = absurd (omega arith)
take-append (suc n) (x ∷ xs) ys h = ap (◌∷◌ x) (take-append n xs ys (omega arith))

pub take_all : (xs : Bytes) → take (length xs) xs ≡ xs
take_all [] = refl
take_all (x ∷ xs) = ap (◌∷◌ x) (take_all xs)

pub drop_all : (xs ys : Bytes) → drop (length xs) (xs ++ ys) ≡ ys
drop_all [] ys = refl
drop_all (x ∷ xs) ys = drop_all xs ys

pub read_kind-append :
    (fill : Bytes → ℕ → Bytes) (lits more : Bytes) (k : SpanKind) (len : ℕ)
    → IsInside lits k len
    → read_kind fill (lits ++ more) k len ≡ read_kind fill lits k len
read_kind-append fill lits more (lit l) len h =
    ap (take len) (drop-append l lits more (omega arith))
    ∙ take-append len (drop l lits) more (omega (arith, length-drop l lits))
read_kind-append fill lits more (segment_of hash) len h = refl

pub IsInside-append :
    (lits more : Bytes) (k : SpanKind) (len : ℕ)
    → IsInside lits k len
    → IsInside (lits ++ more) k len
IsInside-append lits more (lit l) len h = omega (arith, length-append lits more)
IsInside-append lits more (segment_of hash) len h = tt

-- More literals change nothing in the spans.
pub IsLaid-append :
    (lits more : Bytes) (a b : ℕ) (spans : List Span)
    → IsLaid lits a spans b
    → IsLaid (lits ++ more) a spans b
IsLaid-append lits more a b [] h = h
IsLaid-append lits more a b (s ∷ spans) h = (
  h.0,
  IsInside-append lits more s.kind s.len h.1,
  IsLaid-append lits more (a + s.len) b spans h.2,
)

pub read_spans-append :
    (fill : Bytes → ℕ → Bytes) (lits more : Bytes) (a b : ℕ) (spans : List Span)
    → IsLaid lits a spans b
    → read_spans fill (lits ++ more) spans ≡ read_spans fill lits spans
read_spans-append fill lits more a b [] h = refl
read_spans-append fill lits more a b (s ∷ spans) h =
    ap₂ (λ x y. x ++ y) (read_kind-append fill lits more s.kind s.len h.1)
      (read_spans-append fill lits more (a + s.len) b spans h.2)

pub IsLaid-push :
    (lits : Bytes) (a b : ℕ) (spans : List Span) (s : Span)
    → IsLaid lits a spans b
    → s.nar_off ≡ b
    → IsInside lits s.kind s.len
    → IsLaid lits a (spans ++ (s ∷ [])) (b + s.len)
IsLaid-push lits a b [] s h e i = (e ∙ sym h, i, ap (λ x. x + s.len) h)
IsLaid-push lits a b (t ∷ spans) s h e i =
    (h.0, h.1, IsLaid-push lits (a + t.len) b spans s h.2 e i)

pub read_spans-push :
    (fill : Bytes → ℕ → Bytes) (lits : Bytes) (spans : List Span) (s : Span)
    → read_spans fill lits (spans ++ (s ∷ []))
      ≡ read_spans fill lits spans ++ read_kind fill lits s.kind s.len
read_spans-push fill lits [] s = append-nil (read_kind fill lits s.kind s.len)
read_spans-push fill lits (t ∷ spans) s =
    ap (λ x. read_kind fill lits t.kind t.len ++ x) (read_spans-push fill lits spans s)
    ∙ sym (
        append_assoc (read_kind fill lits t.kind t.len) (read_spans fill lits spans)
          (read_kind fill lits s.kind s.len))
