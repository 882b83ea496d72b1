-- ===== src/Fetch/Buffer/Cut.antt =====
-- fetch.rs: what is taken out of the buffer, and what is left of it.
use narshare.Base.{
  ℕ, ◌+◌, ◌-◌, ◌≤◌, ◌<◌, ◌≡◌, refl, subst, inl, inr, Bool, true, false, Option, none, some, List,
  [], ◌∷◌, ltb, leb, min, length, drop, All, arith, Bool-cases, length-take, length-drop,
}
use narshare.Base.Order.{nat_ord}
use narshare.Base.Keys.{get, delete}
use narshare.Base.Rows.{All-put, All-delete, All-get}
use narshare.Facts.{Bytes}
use narshare.Fetch.Buffer.{
  Buffer, last_at, slice, slice_from, put_if, piece_of, piece_at, take_prefix,
}
use narshare.Fetch.Buffer.Disjoint.{
  IsDisjoint, Beside, IsFree, put-IsDisjoint, delete-IsDisjoint, delete-IsFree, last_at-get,
}

-- A property of entries that each part of an entry has, too.
abbrev pub IsCutClosed : (ℕ → Bytes → Type 0) → Type 0
IsCutClosed P =
    (k from to : ℕ) (b : Bytes) → P k b → from < to → to ≤ length b → P (k + from) (slice from to b)

pub length-slice : (from to : ℕ) (b : Bytes) → to ≤ length b → length (slice from to b) ≡ to - from
length-slice from to b le = omega (arith, length-take (to - from) (drop from b), length-drop from b)

-- Pieces that follow one another, each with the property and not empty.
abbrev pub IsSeries : (ℕ → Bytes → Type 0) → ℕ → List Bytes → ℕ → Type 0
IsSeries P a [] z = a ≡ z
IsSeries P a (b ∷ bs) z = P a b × (0 < length b) × IsSeries P (a + length b) bs z

module _ (P : ℕ → Bytes → Type 0) (closed : IsCutClosed P) where
  abbrev pub IsSound : Buffer → Type 0
  IsSound buf = IsDisjoint 0 buf × All (λ (row : ℕ × Bytes). P row.0 row.1) buf

  -- A part of an entry is put into what is free.
  put_if-IsSound :
      (t : Bool) (k : ℕ) (b : Bytes) (buf : Buffer)
      → (t ≡ true → P k b × (0 < length b) × IsFree k (length b) buf)
      → IsSound buf
      → IsSound (put_if t k b buf)
  put_if-IsSound true k b buf part h =
      let p = part refl in
      (put-IsDisjoint 0 k b buf (omega arith) p.1 p.2 h.0, All-put _ k b buf p.0 h.1)
  put_if-IsSound false k b buf part h = h

  IsFree-part :
      (k n j m : ℕ) (buf : Buffer) → k ≤ j → j + m ≤ k + n → IsFree k n buf → IsFree j m buf
  IsFree-part k n j m [] le le2 h = tt
  IsFree-part k n j m ((i, c) ∷ buf) le le2 h =
      (ground (arith, h.0), IsFree-part k n j m buf le le2 h.1)

  put_if-IsFree :
      (t : Bool) (k j m : ℕ) (b : Bytes) (buf : Buffer)
      → k + length b ≤ j
      → IsFree j m buf
      → IsFree j m (put_if t k b buf)
  put_if-IsFree true k j m b buf le h =
      All-put (λ row. Beside j m row.0 (length row.1)) k b buf (inr le) h
  put_if-IsFree false k j m b buf le h = h

  -- The entry at `k` gives its bytes from `s` to `e`, and what is before and after is put back.
  pub put_back-IsSound :
      (k s e : ℕ) (b : Bytes) (before after : Bool) (buf : Buffer)
      → get k buf ≡ some b
      → k ≤ s
      → s < e
      → e ≤ k + length b
      → (before ≡ true → k < s)
      → (after ≡ true → e < k + length b)
      → IsSound buf
      → IsSound (
          put_if after e
            (slice_from (e - k) b)
            (put_if before k (slice 0 (s - k) b) (delete k buf)))
  put_back-IsSound k s e b before after buf found low mid high hb ha h =
      let p = All-get (λ row. P row.0 row.1) k b buf h.1 found in
      let gone = delete-IsFree 0 k b buf h.0 found in
      let m = length-slice 0 (s - k) b (omega arith) in
      let n = length-slice (e - k) (length b) b (omega arith) in
      let z : k + 0 ≡ k = omega arith in
      let y : k + (e - k) ≡ e = omega arith in
      put_if-IsSound after e (slice_from (e - k) b) _
        (λ t.
          let lt = ha t in
          (
            subst (λ x. P x (slice_from (e - k) b)) y
                (closed k (e - k) (length b) b p (omega arith) (omega arith)),
            omega (arith, n),
            put_if-IsFree before k e _ (slice 0 (s - k) b) (delete k buf) (omega (arith, m))
                (IsFree-part k (length b) e _ (delete k buf) (omega arith) (omega (arith, n)) gone),
          ))
        (put_if-IsSound before k (slice 0 (s - k) b) (delete k buf)
          (λ t.
            let lt = hb t in
            (
              subst (λ x. P x (slice 0 (s - k) b)) z
                  (closed k 0 (s - k) b p (omega arith) (omega arith)),
              omega (arith, m),
              IsFree-part k (length b) k _ (delete k buf) (omega arith) (omega (arith, m)) gone,
            ))
          (delete-IsDisjoint 0 k buf h.0, All-delete _ k buf h.1))

  abbrev pub IsPiece : ℕ → ℕ → Option (Bytes × Buffer) → Type 0
  IsPiece pos most none = Unit
  IsPiece pos most (some (piece, left)) =
      P pos piece × (length piece ≤ most) × (0 < length piece) × IsSound left

  piece_of-IsPiece :
      (buf : Buffer) (pos most k : ℕ) (b : Bytes)
      → 0 < most
      → k ≤ pos
      → get k buf ≡ some b
      → IsSound buf
      → IsPiece pos most (piece_of buf pos most k b)
  piece_of-IsPiece buf pos most k b wanted low found h =
      elim (Bool-cases (leb (k + length b) pos)) [
        | inl out ↦ rw out tt
        | inr inside ↦
            let n = min (k + length b - pos) most in
            let e : k + (pos - k) ≡ pos = omega arith in
            let f : pos - k + n ≡ pos + n - k = omega arith in
            let wide : pos < k + length b = ground arith in
            let len = length-slice (pos - k) (pos - k + n) b (omega arith) in
            rw inside (
              subst (λ x. P x (slice (pos - k) (pos - k + n) b)) e
                  (closed k (pos - k) (pos - k + n) b
                    (All-get (λ row. P row.0 row.1) k b buf h.1 found) (omega arith) (omega arith)),
              omega (arith, len),
              omega (arith, len),
              rw f (
                  put_back-IsSound k pos (pos + n) b (ltb k pos) (ltb n (k + length b - pos)) buf
                    found low (omega arith) (omega arith) (λ t. ground (arith, t))
                    (λ t. ground (arith, t)) h),
            )
      ]

  piece_at-IsPiece :
      (buf : Buffer) (pos most : ℕ) (row : Option (ℕ × Bytes))
      → 0 < most
      → last_at pos buf ≡ row
      → IsSound buf
      → IsPiece pos most (piece_at buf pos most row)
  piece_at-IsPiece buf pos most none w e h = tt
  piece_at-IsPiece buf pos most (some (k, b)) w e h =
      let x = last_at-get 0 pos k b buf h.0 e in piece_of-IsPiece buf pos most k b w x.1 x.0 h

  -- The piece is at the position, has no more bytes than are wanted, and at least one.
  pub take_prefix-IsPiece :
      (buf : Buffer) (pos most : ℕ)
      → 0 < most
      → IsSound buf
      → IsPiece pos most (take_prefix buf pos most)
  unfolding take_prefix
  take_prefix-IsPiece buf pos most w h = piece_at-IsPiece buf pos most (last_at pos buf) w refl h
