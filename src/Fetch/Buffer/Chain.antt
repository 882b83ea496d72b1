-- ===== src/Fetch/Buffer/Chain.antt =====
-- fetch.rs: the entries that cover a span follow one another.
use narshare.Base.{
  ℕ, zero, suc, ◌+◌, ◌-◌, ◌≤◌, ◌<◌, ◌≡◌, refl, sym, subst, ap, inl, inr, ◌⊎◌, ◌∙◌, Bool, true,
  false, Option, none, some, List, [], ◌∷◌, ltb, leb, min, max, length, arith, Bool-cases,
  Option-cases, low_or_high,
}
use narshare.Base.Order.{nat_ord}
use narshare.Base.Sets.{same, eq_of_same}
use narshare.Base.Keys.{get, delete, get-put, get-delete}
use narshare.Facts.{Bytes}
use narshare.Fetch.Buffer.{Buffer, last_at, slice, put_if, cut_entry, covering, cons_key}
use narshare.Fetch.Buffer.Disjoint.{IsDisjoint, get-Beside, last_at-get}

-- The keys that the coverage loop collects from `cur` on: each entry begins where the last ended,
-- or holds the first byte that is wanted.
abbrev pub IsChain : Buffer → ℕ → ℕ → ℕ → List ℕ → Type 0
IsChain buf off end cur [] = end ≤ cur
IsChain buf off end cur (k ∷ ks) =
    (b : Bytes) × (get k buf ≡ some b)
    × (max off k ≡ cur)
    × (k ≤ cur)
    × (cur < end)
    × (cur < k + length b)
    × IsChain buf off end (k + length b) ks

-- A chain is one of each buffer with the same rows from its begin on.
pub IsChain-same :
    (buf left : Buffer) (off end cur from : ℕ) (ks : List ℕ)
    → ((j : ℕ) → from ≤ j → get j left ≡ get j buf)
    → from ≤ cur
    → off < from
    → IsChain buf off end cur ks
    → IsChain left off end cur ks
IsChain-same buf left off end cur from [] eq le lt h = h
IsChain-same buf left off end cur from (k ∷ ks) eq le lt (b, found, at, low, more, past, rest) = (
  b,
  eq k (omega (arith, at)) ∙ found,
  at,
  low,
  more,
  past,
  IsChain-same buf left off end (k + length b) from ks eq (omega (arith, past)) lt rest,
)

-- Where the position is that the next entry must begin at.
abbrev pub IsEdge : Buffer → ℕ → ℕ → Type 0
IsEdge buf off cur =
    (off ≡ cur)
    ⊎ ((k : ℕ) × (b : Bytes) × (get k buf ≡ some b)
        × (k + length b ≡ cur)
        × (off < cur)
        × (k < cur))

pub cons_key-some :
    (k : ℕ) (m : Option (List ℕ)) (ks : List ℕ)
    → cons_key k m ≡ some ks
    → (rest : List ℕ) × (m ≡ some rest) × (k ∷ rest ≡ ks)
cons_key-some k none ks h = cc
cons_key-some k (some rest) ks h = (rest, refl, cc h)

-- An entry that holds the byte at an edge begins there, unless it is the first.
pub edge-max :
    (buf : Buffer) (off cur k : ℕ) (b : Bytes)
    → IsDisjoint 0 buf
    → IsEdge buf off cur
    → get k buf ≡ some b
    → k ≤ cur
    → cur < k + length b
    → max off k ≡ cur
edge-max buf off cur k b d (inl e) found low past = omega (arith, e)
edge-max buf off cur k b d (inr (j, c, last, ends, lt, below)) found low past =
    elim (Bool-cases (same k j)) [
      | inl y ↦
          let e = eq_of_same k j y in
          let f : some b ≡ some c = sym found ∙ ap (λ x. get x buf) e ∙ last in
          let g : b ≡ c = cc f in absurd (omega (arith, e, ap length g, ends, past))
      | inr n ↦ ground (arith, get-Beside 0 j k c b buf d last found n)
    ]

pub covering-IsChain :
    (fuel : ℕ) (buf : Buffer) (off end cur : ℕ) (ks : List ℕ)
    → IsDisjoint 0 buf
    → end ≤ cur + fuel
    → IsEdge buf off cur
    → covering fuel buf cur end ≡ some ks
    → IsChain buf off end cur ks
unfolding covering
covering-IsChain zero buf off end cur ks d fuel edge e = elim (Bool-cases (ltb cur end)) [
  | inl more ↦ absurd (ground (arith, fuel, more))
  | inr done ↦
      let f : some [] ≡ some ks = rw (covering, done) at e in
      let g : [] ≡ ks = cc f in subst (IsChain buf off end cur) g (ground (arith, done))
]
covering-IsChain (suc fuel) buf off end cur ks d le edge e = elim (Bool-cases (ltb cur end)) [
  | inr done ↦
      let f : some [] ≡ some ks = rw (covering, done) at e in
      let g : [] ≡ ks = cc f in subst (IsChain buf off end cur) g (ground (arith, done))
  | inl more ↦ elim (Option-cases (last_at cur buf)) [
    | inl miss ↦ cc (rw (covering, more, miss) at e)
    | inr ((k, b), row) ↦ elim (Bool-cases (leb (k + length b) cur)) [
      | inl out ↦ cc (rw (covering, more, row, out) at e)
      | inr holds ↦
          let x = last_at-get 0 cur k b buf d row in
          let past : cur < k + length b = ground (arith, holds) in
          let top = edge-max buf off cur k b d edge x.0 x.1 past in
          let r = cons_key-some k _ ks (rw (covering, more, row, holds) at e) in
          let rest =
            covering-IsChain fuel buf off end (k + length b) r.0 d (omega arith)
              (inr (k, b, x.0, refl, omega (arith, top), omega (arith, x.2))) r.1 in
          subst (IsChain buf off end cur) r.2 (b, x.0, top, x.1, ground (arith, more), past, rest)
    ]
  ]
]

-- A chain that ends has no further key.
pub IsChain-end :
    (buf left : Buffer) (off end cur : ℕ) (ks : List ℕ)
    → end ≤ cur
    → IsChain buf off end cur ks
    → IsChain left off end cur ks
IsChain-end buf left off end cur [] le h = h
IsChain-end buf left off end cur (k ∷ ks) le h = absurd (omega (arith, le, h.4))

pub same_above : (k j : ℕ) → k < j → same j k ≡ false
same_above k j lt = elim (Bool-cases (same j k)) [
  | inl y ↦ absurd (omega (arith, eq_of_same j k y))
  | inr n ↦ n
]

pub get-put_if :
    (t : Bool) (k j : ℕ) (b : Bytes) (buf : Buffer) → k < j → get j (put_if t k b buf) ≡ get j buf
get-put_if true k j b buf lt = rw (get-put k j b buf, same_above k j lt)
get-put_if false k j b buf lt = refl

-- Rows that the cut of an entry within the span leaves as they were.
pub get-cut_entry :
    (off end k : ℕ) (b : Bytes) (buf : Buffer) (j : ℕ)
    → k + length b ≤ end
    → k < k + length b
    → k + length b ≤ j
    → get j (cut_entry off end k b buf).1 ≡ get j buf
get-cut_entry off end k b buf j inside pos le =
    let past = k + length b in
    let e = min end past in
    let kept = put_if (ltb k (max off k)) k (slice 0 (max off k - k) b) (delete k buf) in
    let shut : ltb e past ≡ false = ground arith in
    rw shut (
      get-put_if (ltb k (max off k)) k j (slice 0 (max off k - k) b) (delete k buf) (omega arith)
      ∙ rw (get-delete k j buf, same_above k j (omega arith)))

pub cut_entry-IsChain :
    (buf : Buffer) (off end k : ℕ) (b : Bytes) (ks : List ℕ)
    → k < k + length b
    → off < k + length b
    → IsChain buf off end (k + length b) ks
    → IsChain (cut_entry off end k b buf).1 off end (k + length b) ks
cut_entry-IsChain buf off end k b ks pos lt chain = elim (low_or_high (k + length b) end) [
  | inl inside ↦
      IsChain-same buf (cut_entry off end k b buf).1 off end (k + length b) (k + length b) ks
        (λ j le. get-cut_entry off end k b buf j inside pos le) (omega arith) lt chain
  | inr over ↦
      IsChain-end buf (cut_entry off end k b buf).1 off end (k + length b) ks (omega arith) chain
]
