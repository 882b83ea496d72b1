-- ===== src/Fetch/Buffer/Reading.antt =====
-- fetch.rs: bytes that are read at an offset of the archive.
use narshare.Base.{
  ◌∙◌, ℕ, zero, suc, ◌+◌, ◌-◌, ◌<◌, ◌≡◌, refl, sym, ap, inl, inr, some, [], ◌∷◌, ◌++◌, ltb, length,
  get_elem?, take, drop, arith, Bool-cases, length-take, length-drop, length-append,
}
use narshare.Base.Order.{nat_ord}
use narshare.Facts.{Bytes}
use narshare.Fetch.Buffer.{slice}

-- The bytes `b` are those of the archive from `k` on.
abbrev pub At : Bytes → ℕ → Bytes → Type 0
At nar k b = (i : ℕ) → i < length b → get_elem? b i ≡ get_elem? nar (k + i)

pub get_elem?-take : (n i : ℕ) (b : Bytes) → i < n → get_elem? (take n b) i ≡ get_elem? b i
get_elem?-take zero i b h = absurd (omega arith)
get_elem?-take (suc n) i [] h = refl
get_elem?-take (suc n) zero (x ∷ b) h = refl
get_elem?-take (suc n) (suc i) (x ∷ b) h = get_elem?-take n i b (omega arith)

pub get_elem?-drop : (n i : ℕ) (b : Bytes) → get_elem? (drop n b) i ≡ get_elem? b (n + i)
get_elem?-drop zero i b = ap (get_elem? b) (omega arith)
get_elem?-drop (suc n) i [] = refl
get_elem?-drop (suc n) i (x ∷ b) =
    let e : suc n + i ≡ suc (n + i) = omega arith in rw e (get_elem?-drop n i b)

pub get_elem?-append_left :
    (i : ℕ) (a b : Bytes) → i < length a → get_elem? (a ++ b) i ≡ get_elem? a i
get_elem?-append_left i [] b h = absurd (omega (arith, h))
get_elem?-append_left zero (x ∷ a) b h = refl
get_elem?-append_left (suc i) (x ∷ a) b h = get_elem?-append_left i a b (omega (arith, h))

pub get_elem?-append_right :
    (i : ℕ) (a b : Bytes) → get_elem? (a ++ b) (length a + i) ≡ get_elem? b i
get_elem?-append_right i [] b = ap (get_elem? b) (omega arith)
get_elem?-append_right i (x ∷ a) b =
    let e : suc (length a) + i ≡ suc (length a + i) = omega arith in
    rw e (get_elem?-append_right i a b)

-- A slice of what is read at `k` is read at `k + from`.
pub slice-At :
    (nar : Bytes) (k from to : ℕ) (b : Bytes) → At nar k b → At nar (k + from) (slice from to b)
slice-At nar k from to b at i h =
    let n : i < to - from = omega (arith, h, length-take (to - from) (drop from b)) in
    let m : from + i < length b =
      omega (arith, h, length-take (to - from) (drop from b), length-drop from b) in
    let e : k + from + i ≡ k + (from + i) = omega arith in
    rw (e, get_elem?-take (to - from) i (drop from b) n, get_elem?-drop from i b) (at (from + i) m)

pub append-At :
    (nar : Bytes) (k : ℕ) (a b : Bytes) → At nar k a → At nar (k + length a) b → At nar k (a ++ b)
append-At nar k a b first second i h = elim (Bool-cases (ltb i (length a))) [
  | inl low ↦ let l : i < length a = ground arith in rw (get_elem?-append_left i a b l) (first i l)
  | inr high ↦
      let j = i - length a in
      let e : i ≡ length a + j = ground arith in
      let m : j < length b = omega (arith, h, e, length-append a b) in
      let f : k + (length a + j) ≡ k + length a + j = omega arith in
      rw (e, get_elem?-append_right j a b, f) (second j m)
]

list_ext :
    (a b : Bytes)
    → length a ≡ length b
    → ((i : ℕ) → i < length a → get_elem? a i ≡ get_elem? b i)
    → a ≡ b
list_ext [] [] n h = refl
list_ext [] (y ∷ b) n h = absurd (omega (arith, n))
list_ext (x ∷ a) [] n h = absurd (omega (arith, n))
list_ext (x ∷ a) (y ∷ b) n h =
    let e : some x ≡ some y = h 0 (omega arith) in
    let f : x ≡ y = cc e in
    let g = list_ext a b (omega (arith, n)) (λ i lt. h (suc i) (omega (arith, lt))) in cc (f, g)

-- Two readings of one length at one place are the same.
pub eq_of_At :
    (nar : Bytes) (k : ℕ) (a b : Bytes) → At nar k a → At nar k b → length a ≡ length b → a ≡ b
eq_of_At nar k a b p q n = list_ext a b n (λ i lt. p i lt ∙ sym (q i (omega (arith, lt, n))))
