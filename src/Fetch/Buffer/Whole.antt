-- ===== src/Fetch/Buffer/Whole.antt =====
-- fetch.rs: a span that is taken whole.
use narshare.Base.{
  ℕ, ◌+◌, ◌-◌, ◌≤◌, ◌<◌, ◌≡◌, refl, sym, subst, inl, Option, none, some, List, [], ◌∷◌, ltb, min,
  max, length, arith, Result, ok, err, ◌>>=◌,
}
use narshare.Base.Order.{nat_ord}
use narshare.Base.Rows.{All-get}
use narshare.Facts.{Bytes}
use narshare.Fetch.Buffer.{Buffer, slice, cut_entry, cut_keys, cut_covered, covering, take_span}
use narshare.Fetch.Buffer.Cut.{IsCutClosed, IsSeries, IsSound, put_back-IsSound, length-slice}
use narshare.Fetch.Buffer.Chain.{IsChain, covering-IsChain, cut_entry-IsChain}

module _ (P : ℕ → Bytes → Type 0) (closed : IsCutClosed P) where
  abbrev IsCut : ℕ → ℕ → Result (List Bytes × Buffer) → Type 0
  IsCut a z (ok (pieces, left)) = IsSeries P a pieces z × IsSound P closed left
  IsCut a z (err e) = ⊥

  cons-IsCut :
      (a c z : ℕ) (b : Bytes) (r : Result (List Bytes × Buffer))
      → P c b
      → 0 < length b
      → c + length b ≡ a
      → IsCut a z r
      → IsCut c z (r >>= λ rest. ok (b ∷ rest.0, rest.1))
  cons-IsCut a c z b (ok (pieces, left)) p pos e h =
      ((p, pos, subst (λ x. IsSeries P x pieces z) (sym e) h.0), h.1)
  cons-IsCut a c z b (err reason) p pos e h = elim h [ ]

  -- The pieces of a chain follow one another from its begin to the end.
  cut_keys-IsCut :
      (off end cur : ℕ) (ks : List ℕ) (buf : Buffer)
      → off ≤ cur
      → IsChain buf off end cur ks
      → IsSound P closed buf
      → IsCut (min cur end) end (cut_keys off end ks buf)
  unfolding cut_keys
  cut_keys-IsCut off end cur [] buf le chain h = (omega (arith, chain), h)
  cut_keys-IsCut off end cur (k ∷ ks) buf le (b, found, top, low, more, past, chain) h =
      let e = min end (k + length b) in
      let s = max off k in
      let len = length-slice (s - k) (e - k) b (omega arith) in
      let at : k + (s - k) ≡ min cur end = omega (arith, top) in
      let p =
        closed k (s - k) (e - k) b (All-get (λ row. P row.0 row.1) k b buf h.1 found)
          (omega (arith, top)) (omega arith) in
      rw found (
        cons-IsCut (min (k + length b) end) (min cur end) end (slice (s - k) (e - k) b) _
          (subst (λ x. P x (slice (s - k) (e - k) b)) at p) (omega (arith, len, top))
          (omega (arith, len, top))
          (cut_keys-IsCut off end (k + length b) ks (cut_entry off end k b buf).1 (omega arith)
            (cut_entry-IsChain buf off end k b ks (omega arith) (omega arith) chain)
            (put_back-IsSound P closed k s e b (ltb k s) (ltb e (k + length b)) buf found
              (omega arith) (omega (arith, top)) (omega arith) (λ t. ground (arith, t))
              (λ t. ground (arith, t)) h)))

  abbrev pub IsWhole : ℕ → ℕ → Option (Result (List Bytes × Buffer)) → Type 0
  IsWhole off end none = Unit
  IsWhole off end (some (ok (pieces, left))) = IsSeries P off pieces end × IsSound P closed left
  IsWhole off end (some (err e)) = ⊥

  cut_covered-IsWhole :
      (off end : ℕ) (buf : Buffer) (keys : Option (List ℕ))
      → off ≤ end
      → covering (end - off) buf off end ≡ keys
      → IsSound P closed buf
      → IsWhole off end (cut_covered buf off end keys)
  cut_covered-IsWhole off end buf none le e h = tt
  cut_covered-IsWhole off end buf (some ks) le e h =
      let chain = covering-IsChain (end - off) buf off end off ks h.0 (omega arith) (inl refl) e in
      let low : min off end ≡ off = omega arith in
      whole (cut_keys off end ks buf) (
        subst (λ x. IsCut x end (cut_keys off end ks buf)) low
          (cut_keys-IsCut off end off ks buf (omega arith) chain h))
    where
      whole : (r : Result (List Bytes × Buffer)) → IsCut off end r → IsWhole off end (some r)
      whole (ok x) c = c
      whole (err x) c = c

  -- A span that is taken never panics, and its pieces follow one another from its begin to its end.
  pub take_span-IsWhole :
      (buf : Buffer) (off end : ℕ)
      → off ≤ end
      → IsSound P closed buf
      → IsWhole off end (take_span buf off end)
  unfolding take_span
  take_span-IsWhole buf off end le h =
      cut_covered-IsWhole off end buf (covering (end - off) buf off end) le refl h
