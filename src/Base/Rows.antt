-- ===== src/Base/Rows.antt =====
-- A property of all rows of a map over the numbers.
use narshare.Base.{ℕ, ◌≡◌, sym, subst, inl, inr, some, List, [], ◌∷◌, All, arith, Bool-cases}
use narshare.Base.Order.{nat_ord}
use narshare.Base.Sets.{same, eq_of_same}
use narshare.Base.Keys.{put, get, delete}

pub All-put :
    {V : Type 0} (P : ℕ × V → Type 0) (k : ℕ) (b : V) (buf : List (ℕ × V))
    → P (k, b)
    → All P buf
    → All P (put k b buf)
unfolding put
All-put P k b [] p h = (p, tt)
All-put P k b ((j, c) ∷ buf) p h = ground (arith, All-put P k b buf p h.1)

pub All-delete :
    {V : Type 0} (P : ℕ × V → Type 0) (k : ℕ) (buf : List (ℕ × V))
    → All P buf
    → All P (delete k buf)
unfolding delete
All-delete P k [] h = tt
All-delete P k ((j, c) ∷ buf) h = ground (arith, All-delete P k buf h.1)

pub All-get :
    {V : Type 0} (P : ℕ × V → Type 0) (k : ℕ) (b : V) (buf : List (ℕ × V))
    → All P buf
    → get k buf ≡ some b
    → P (k, b)
unfolding get
All-get P k b [] h e = cc
All-get P k b ((j, c) ∷ buf) h e = elim (Bool-cases (same k j)) [
  | inl y ↦
      let f : some c ≡ some b = rw (get, y) at e in
      let g : c ≡ b = cc f in
      subst (λ (x : ℕ). P (x, b)) (sym (eq_of_same k j y)) (subst (λ x. P (j, x)) g h.0)
  | inr n ↦ All-get P k b buf h.1 (rw (get, n) at e)
]
