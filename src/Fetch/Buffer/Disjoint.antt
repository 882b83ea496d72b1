-- ===== src/Fetch/Buffer/Disjoint.antt =====
-- fetch.rs: the entries of the buffer are in order, apart and not empty.
use narshare.Base.{
  ℕ, ◌+◌, ◌≤◌, ◌<◌, ◌≡◌, ap, inl, inr, ◌⊎◌, false, Option, some, [], ◌∷◌, leb, length, All, arith,
  Bool-cases, Option-cases, leb→le, ◌∙◌,
}
use narshare.Base.Order.{nat_ord}
use narshare.Base.Sets.{same, eq_of_same, same_self}
use narshare.Base.Keys.{put, get, delete, get-delete}
use narshare.Base.Rows.{All-delete, All-get}
use narshare.Facts.{Bytes}
use narshare.Fetch.Buffer.{Buffer, last_at}

abbrev pub IsDisjoint : ℕ → Buffer → Type 0
IsDisjoint a [] = Unit {0}
IsDisjoint a (row ∷ rows) =
    (a ≤ row.0) × (0 < length row.1) × IsDisjoint (row.0 + length row.1) rows

-- Two ranges have no byte in common.
abbrev pub Beside : ℕ → ℕ → ℕ → ℕ → Type 0
Beside k n j m = (k + n ≤ j) ⊎ (j + m ≤ k)

abbrev pub IsFree : ℕ → ℕ → Buffer → Type 0
IsFree k n buf = All (λ (row : ℕ × Bytes). Beside k n row.0 (length row.1)) buf

pub IsDisjoint-lower : (a c : ℕ) (buf : Buffer) → c ≤ a → IsDisjoint a buf → IsDisjoint c buf
IsDisjoint-lower a c [] le h = tt
IsDisjoint-lower a c (row ∷ rows) le h = (omega (arith, h.0), h.1, h.2)

pub delete-IsDisjoint : (a k : ℕ) (buf : Buffer) → IsDisjoint a buf → IsDisjoint a (delete k buf)
unfolding delete
delete-IsDisjoint a k [] h = tt
delete-IsDisjoint a k ((j, c) ∷ buf) h = ground (
  arith,
  delete-IsDisjoint (j + length c) k buf h.2,
  IsDisjoint-lower (j + length c) a (delete k buf),
)

pub put-IsDisjoint :
    (a k : ℕ) (b : Bytes) (buf : Buffer)
    → a ≤ k
    → 0 < length b
    → IsFree k (length b) buf
    → IsDisjoint a buf
    → IsDisjoint a (put k b buf)
unfolding put
put-IsDisjoint a k b [] le pos free h = (le, pos, tt)
put-IsDisjoint a k b ((j, c) ∷ buf) le pos free h =
    ground (arith, put-IsDisjoint (j + length c) k b buf)

get-above : (a k : ℕ) (b : Bytes) (buf : Buffer) → IsDisjoint a buf → get k buf ≡ some b → a ≤ k
unfolding get
get-above a k b [] h e = cc
get-above a k b ((j, c) ∷ buf) h e =
    ground (arith, eq_of_same k j, get-above (j + length c) k b buf h.2)

IsFree-below : (k n a : ℕ) (buf : Buffer) → k + n ≤ a → IsDisjoint a buf → IsFree k n buf
IsFree-below k n a [] le h = tt
IsFree-below k n a ((j, c) ∷ buf) le h =
    (inl (omega (arith, h.0)), IsFree-below k n (j + length c) buf (omega (arith, h.0)) h.2)

-- What an entry leaves when it is taken out is free.
pub delete-IsFree :
    (a k : ℕ) (b : Bytes) (buf : Buffer)
    → IsDisjoint a buf
    → get k buf ≡ some b
    → IsFree k (length b) (delete k buf)
unfolding get delete
delete-IsFree a k b [] h e = cc
delete-IsFree a k b ((j, c) ∷ buf) h e = elim (Bool-cases (same k j)) [
  | inl y ↦
      let f : some c ≡ some b = rw (get, y) at e in
      let g : c ≡ b = cc f in
      let n = eq_of_same k j y in
      rw (delete, y)
        (All-delete _ k buf
          (IsFree-below k (length b) (j + length c) buf (omega (arith, n, ap length g)) h.2))
  | inr n ↦
      let rest : get k buf ≡ some b = rw (get, n) at e in
      rw (delete, n)
        (
          inr (get-above (j + length c) k b buf h.2 rest),
          delete-IsFree (j + length c) k b buf h.2 rest,
        )
]

-- Two entries that are not the same are beside one another.
pub get-Beside :
    (a k j : ℕ) (b c : Bytes) (buf : Buffer)
    → IsDisjoint a buf
    → get k buf ≡ some b
    → get j buf ≡ some c
    → same j k ≡ false
    → Beside k (length b) j (length c)
get-Beside a k j b c buf h e f ne =
    All-get (λ row. Beside k (length b) row.0 (length row.1)) j c (delete k buf)
      (delete-IsFree a k b buf h e) (rw (get-delete k j buf, ne) f)

pub last_at-get :
    (a pos k : ℕ) (b : Bytes) (buf : Buffer)
    → IsDisjoint a buf
    → last_at pos buf ≡ some (k, b)
    → (get k buf ≡ some b) × (k ≤ pos) × (0 < length b)
unfolding last_at get
last_at-get a pos k b [] h e = cc
last_at-get a pos k b ((j, c) ∷ buf) h e = elim (Option-cases (last_at pos buf)) [
  | inl none_left ↦ elim (Bool-cases (leb j pos)) [
    | inl low ↦
        let f : ◌≡◌ {A = Option (ℕ × Bytes)} (some (j, c)) (some (k, b)) =
          rw (last_at, none_left, low) at e in
        let x : j ≡ k = cc f in
        let y : c ≡ b = cc f in
        (
          ground (arith, x, y, same_self j),
          omega (arith, x, leb→le j pos low),
          omega (arith, ap length y, h.1),
        )
    | inr high ↦ cc (rw (last_at, none_left, high) at e)
  ]
  | inr (row, found) ↦
      let f : some row ≡ some (k, b) = rw (last_at, found) at e in
      let rest = last_at-get (j + length c) pos k b buf h.2 (found ∙ f) in
      let low = get-above (j + length c) k b buf h.2 rest.0 in
      (ground (arith, low, rest.0, eq_of_same k j), rest.1, rest.2)
]
