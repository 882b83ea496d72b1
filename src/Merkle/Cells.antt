-- ===== src/Merkle/Cells.antt =====
-- store/rocks.rs: `xor_into` on hashes of one width, and one slot of a list of cells.
use Prim.Native.Nat.{bit_xor}
use narshare.Base.{
  ℕ, zero, suc, ◌<◌, ◌≡◌, refl, sym, ap, ap₂, ◌∙◌, List, [], ◌∷◌, arith, ◌==◌, if◌then◌else◌,
  get_or, set, length, length-set, All,
}
use narshare.Base.Xor.{bit_xor_comm, bit_xor_assoc, bit_xor_self, bit_xor-zero}
use narshare.Facts.{Bytes}
use narshare.Merkle.{xor_into, xor_at, zero_hash}

-- Hashes folded in in either order.
pub xor_into_comm : (a b c : Bytes) → xor_into (xor_into a b) c ≡ xor_into (xor_into a c) b
unfolding xor_into
xor_into_comm [] b c = refl
xor_into_comm (x ∷ a) [] [] = refl
xor_into_comm (x ∷ a) [] (z ∷ c) = refl
xor_into_comm (x ∷ a) (y ∷ b) [] = refl
xor_into_comm (x ∷ a) (y ∷ b) (z ∷ c) =
    ap₂ (◌∷◌) (bit_xor_assoc x y z ∙ ap (bit_xor x) (bit_xor_comm y z) ∙ sym (bit_xor_assoc x z y))
      (xor_into_comm a b c)

pub xor_into_twice : (a b : Bytes) → xor_into (xor_into a b) b ≡ a
unfolding xor_into
xor_into_twice [] b = refl
xor_into_twice (x ∷ a) [] = refl
xor_into_twice (x ∷ a) (y ∷ b) =
    ap₂ (◌∷◌) (bit_xor_assoc x y y ∙ ap (bit_xor x) (bit_xor_self y) ∙ bit_xor-zero x)
      (xor_into_twice a b)

module _ {ℓ} {A : Type ℓ} where
  pub get_or-set :
      (cells : List A) (i j : ℕ) (v d : A)
      → i < length cells
      → get_or (set cells i v) j d ≡ (if i == j then v else get_or cells j d)
  get_or-set [] i j v d h = absurd (omega arith)
  get_or-set (c ∷ cells) zero zero v d h = refl
  get_or-set (c ∷ cells) zero (suc j) v d h = ground arith
  get_or-set (c ∷ cells) (suc i) zero v d h = ground arith
  get_or-set (c ∷ cells) (suc i) (suc j) v d h = ground (arith, get_or-set cells i j v d)

  pub get_or-All {κ} :
      (P : A → Type κ) (cells : List A) (i : ℕ) (d : A) → All P cells → P d → P (get_or cells i d)
  get_or-All P [] i d all p = p
  get_or-All P (c ∷ cells) zero d all p = all.0
  get_or-All P (c ∷ cells) (suc i) d all p = get_or-All P cells i d all.1 p

  pub All-set {κ} :
      (P : A → Type κ) (cells : List A) (i : ℕ) (v : A) → All P cells → P v → All P (set cells i v)
  All-set P [] i v all p = tt
  All-set P (c ∷ cells) zero v all p = (p, all.1)
  All-set P (c ∷ cells) (suc i) v all p = (all.0, All-set P cells i v all.1 p)

pub get_or-xor_at :
    (cells : List Bytes) (i j : ℕ) (h : Bytes)
    → i < length cells
    → get_or (xor_at cells i h) j zero_hash
      ≡ (if i == j then xor_into (get_or cells j zero_hash) h else get_or cells j zero_hash)
unfolding xor_at
get_or-xor_at cells i j h lt =
    ground (arith, get_or-set cells i j (xor_into (get_or cells i zero_hash) h) zero_hash lt)

pub length-xor_at :
    (cells : List Bytes) (i : ℕ) (h : Bytes) → length (xor_at cells i h) ≡ length cells
unfolding xor_at
length-xor_at cells i h = length-set cells i _
