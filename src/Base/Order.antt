-- ===== src/Base/Order.antt =====
-- `Ord`: a total order given by its comparison, for numbers and, lexicographically, for lists.
use Prim.Native.Nat.{ℕ, compare, Ordering}
use Prim.Native.Nat.Ordering.{lt, eq, gt}
use mathlib.Core.Path.{◌≡◌, refl}
use mathlib.Core.List.{List, [], ◌∷◌}
use mathlib.Core.Bool.{Bool, true, false}
use native.Mathlib.Omega.{arith}

-- `Ordering::reverse` and `Ordering::then`.
abbrev pub reverse : Ordering → Ordering
reverse lt = gt
reverse eq = eq
reverse gt = lt

abbrev pub then_with : Ordering → Ordering → Ordering
then_with lt o = lt
then_with eq o = o
then_with gt o = gt

abbrev pub is_eq : Ordering → Bool
is_eq lt = false
is_eq eq = true
is_eq gt = false

abbrev pub is_gt : Ordering → Bool
is_gt lt = false
is_gt eq = false
is_gt gt = true

pub record Ord {ℓ} (A : Type ℓ) : Type ℓ where
  pub cmp : A → A → Ordering
  pub cmp_self : (a : A) → cmp a a ≡ eq
  pub eq_of_cmp : (a b : A) → cmp a b ≡ eq → a ≡ b
  pub cmp-reverse : (a b : A) → cmp b a ≡ reverse (cmp a b)
  pub lt_trans : (a b c : A) → cmp a b ≡ lt → cmp b c ≡ lt → cmp a c ≡ lt

pub compare_self : (a : ℕ) → compare a a ≡ eq
compare_self a = ground arith

pub eq_of_compare : (a b : ℕ) → compare a b ≡ eq → a ≡ b
eq_of_compare a b h = ground arith

pub compare-reverse : (a b : ℕ) → compare b a ≡ reverse (compare a b)
compare-reverse a b = ground arith

pub compare_trans : (a b c : ℕ) → compare a b ≡ lt → compare b c ≡ lt → compare a c ≡ lt
compare_trans a b c p q = ground arith

instance abbrev pub nat_ord : Ord ℕ
nat_ord = record {
  cmp = compare;
  cmp_self = compare_self;
  eq_of_cmp = eq_of_compare;
  cmp-reverse = compare-reverse;
  lt_trans = compare_trans;
}

module _ {ℓ} {A : Type ℓ} ⦃o : Ord A⦄ where
  abbrev pub cmp_list : List A → List A → Ordering
  cmp_list [] [] = eq
  cmp_list [] (y ∷ ys) = lt
  cmp_list (x ∷ xs) [] = gt
  cmp_list (x ∷ xs) (y ∷ ys) = then_with (o.cmp x y) (cmp_list xs ys)

  pub cmp_list_self : (xs : List A) → cmp_list xs xs ≡ eq
  cmp_list_self [] = refl
  cmp_list_self (x ∷ xs) = ground (arith, o.cmp_self x, cmp_list_self xs)

  pub eq_of_cmp_list : (xs ys : List A) → cmp_list xs ys ≡ eq → xs ≡ ys
  eq_of_cmp_list [] [] h = refl
  eq_of_cmp_list [] (y ∷ ys) h = cc
  eq_of_cmp_list (x ∷ xs) [] h = cc
  eq_of_cmp_list (x ∷ xs) (y ∷ ys) h = ground (arith, o.eq_of_cmp x y, eq_of_cmp_list xs ys)

  pub cmp_list-reverse : (xs ys : List A) → cmp_list ys xs ≡ reverse (cmp_list xs ys)
  cmp_list-reverse [] [] = refl
  cmp_list-reverse [] (y ∷ ys) = refl
  cmp_list-reverse (x ∷ xs) [] = refl
  cmp_list-reverse (x ∷ xs) (y ∷ ys) = ground (arith, o.cmp-reverse x y, cmp_list-reverse xs ys)

  pub cmp_list_trans :
      (xs ys zs : List A) → cmp_list xs ys ≡ lt → cmp_list ys zs ≡ lt → cmp_list xs zs ≡ lt
  cmp_list_trans [] [] zs p q = cc
  cmp_list_trans [] (y ∷ ys) [] p q = cc
  cmp_list_trans [] (y ∷ ys) (z ∷ zs) p q = refl
  cmp_list_trans (x ∷ xs) [] zs p q = cc
  cmp_list_trans (x ∷ xs) (y ∷ ys) [] p q = cc
  cmp_list_trans (x ∷ xs) (y ∷ ys) (z ∷ zs) p q = ground (
    arith,
    o.eq_of_cmp x y,
    o.eq_of_cmp y z,
    o.cmp_self x,
    o.lt_trans x y z,
    cmp_list_trans xs ys zs,
  )

  instance abbrev pub list_ord : Ord (List A)
  list_ord = record {
    cmp = cmp_list;
    cmp_self = cmp_list_self;
    eq_of_cmp = eq_of_cmp_list;
    cmp-reverse = cmp_list-reverse;
    lt_trans = cmp_list_trans;
  }
