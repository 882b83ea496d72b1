-- ===== src/Base/Sets.antt =====
-- Lists as sets over an order: sorting, removal of repeats, membership as a test.
-- A strictly ascending list is determined by its members.
use Prim.Native.Nat.Ordering.{lt}
use mathlib.Core.Path.{◌≡◌, refl, sym, ap, ap₂, ◌∙◌}
use mathlib.Core.List.{List, [], ◌∷◌, ◌++◌}
use mathlib.Core.Bool.{Bool, true, false, ◌&&◌, ◌||◌}
use mathlib.Core.Logic.{inl, inr}
use native.Mathlib.Omega.{arith}
use narshare.Base.Tests.{if◌then◌else◌, Bool-cases}
use narshare.Base.Lists.{All}
use narshare.Base.Order.{Ord, is_eq, is_gt}

module _ {ℓ} {A : Type ℓ} ⦃o : Ord A⦄ where
  abbrev pub same : A → A → Bool
  same a b = is_eq (o.cmp a b)

  pub same_self : (a : A) → same a a ≡ true
  same_self a = ground (arith, o.cmp_self a)

  pub eq_of_same : (a b : A) → same a b ≡ true → a ≡ b
  eq_of_same a b h = ground (arith, o.eq_of_cmp a b)

  -- `contains`
  unfoldable pub contains : A → List A → Bool
  contains a [] = false
  contains a (x ∷ xs) = same a x || contains a xs

  unfoldable pub insert_sorted : A → List A → List A
  insert_sorted a [] = a ∷ []
  insert_sorted a (x ∷ xs) = if is_gt (o.cmp a x) then x ∷ insert_sorted a xs else a ∷ x ∷ xs

  -- `sort`, a stable sort by the order.
  unfoldable pub sort : List A → List A
  unfolding insert_sorted
  sort [] = []
  sort (x ∷ xs) = insert_sorted x (sort xs)

  -- `dedup` drops consecutive repeats.
  unfoldable pub dedup_from : A → List A → List A
  dedup_from a [] = a ∷ []
  dedup_from a (x ∷ xs) = elim (same a x) [ true ↦ dedup_from a xs | false ↦ a ∷ dedup_from x xs ]

  unfoldable pub dedup : List A → List A
  unfolding dedup_from
  dedup [] = []
  dedup (x ∷ xs) = dedup_from x xs

  -- `xs.iter().all(|x| ys.contains(x))`
  unfoldable pub all_contained : List A → List A → Bool
  unfolding contains
  all_contained [] ys = true
  all_contained (x ∷ xs) ys = contains x ys && all_contained xs ys

  pub contains-append :
      (a : A) (xs ys : List A) → contains a (xs ++ ys) ≡ (contains a xs || contains a ys)
  unfolding contains
  contains-append a [] ys = refl
  contains-append a (x ∷ xs) ys = ground (arith, contains-append a xs ys)

  contains-insert_sorted :
      (a b : A) (xs : List A) → contains a (insert_sorted b xs) ≡ (same a b || contains a xs)
  unfolding contains insert_sorted
  contains-insert_sorted a b [] = refl
  contains-insert_sorted a b (x ∷ xs) = ground (arith, contains-insert_sorted a b xs)

  pub contains-sort : (a : A) (xs : List A) → contains a (sort xs) ≡ contains a xs
  unfolding contains sort
  contains-sort a [] = refl
  contains-sort a (x ∷ xs) =
      contains-insert_sorted a x (sort xs) ∙ ap (λ b. same a x || b) (contains-sort a xs)

  contains-dedup_from :
      (a b : A) (xs : List A) → contains a (dedup_from b xs) ≡ (same a b || contains a xs)
  unfolding contains dedup_from
  contains-dedup_from a b [] = refl
  contains-dedup_from a b (x ∷ xs) =
      ground (arith, o.eq_of_cmp b x, contains-dedup_from a b xs, contains-dedup_from a x xs)

  pub contains-dedup : (a : A) (xs : List A) → contains a (dedup xs) ≡ contains a xs
  unfolding contains dedup
  contains-dedup a [] = refl
  contains-dedup a (x ∷ xs) = contains-dedup_from a x xs

  -- No later member is smaller.
  abbrev IsAscending : List A → Type 0
  IsAscending [] = Unit {0}
  IsAscending (x ∷ xs) = All (λ y. is_gt (o.cmp x y) ≡ false) xs × IsAscending xs

  abbrev pub IsStrict : List A → Type 0
  IsStrict [] = Unit {0}
  IsStrict (x ∷ xs) = All (λ y. o.cmp x y ≡ lt) xs × IsStrict xs

  le_trans :
      (a b c : A)
      → is_gt (o.cmp a b) ≡ false
      → is_gt (o.cmp b c) ≡ false
      → is_gt (o.cmp a c) ≡ false
  le_trans a b c p q = ground (arith, o.lt_trans a b c, o.eq_of_cmp a b, o.eq_of_cmp b c)

  le-All :
      (a x : A) (xs : List A)
      → is_gt (o.cmp a x) ≡ false
      → All (λ y. is_gt (o.cmp x y) ≡ false) xs
      → All (λ y. is_gt (o.cmp a y) ≡ false) xs
  le-All a x [] h all = tt
  le-All a x (y ∷ ys) h all = (le_trans a x y h all.0, le-All a x ys h all.1)

  All-insert_sorted :
      (a x : A) (xs : List A)
      → is_gt (o.cmp x a) ≡ false
      → All (λ y. is_gt (o.cmp x y) ≡ false) xs
      → All (λ y. is_gt (o.cmp x y) ≡ false) (insert_sorted a xs)
  unfolding insert_sorted
  All-insert_sorted a x [] h all = (h, tt)
  All-insert_sorted a x (y ∷ ys) h all = ground (arith, All-insert_sorted a x ys)

  insert_sorted-IsAscending :
      (a : A) (xs : List A) → IsAscending xs → IsAscending (insert_sorted a xs)
  unfolding insert_sorted
  insert_sorted-IsAscending a [] h = (tt, tt)
  insert_sorted-IsAscending a (x ∷ xs) h = elim (Bool-cases (is_gt (o.cmp a x))) [
    | inl g ↦
        rw (g, insert_sorted)
          (
            All-insert_sorted a x xs (ground (arith, o.cmp-reverse a x)) h.0,
            insert_sorted-IsAscending a xs h.1,
          )
    | inr le ↦ rw (le, insert_sorted) ((le, le-All a x xs le h.0), h)
  ]

  sort-IsAscending : (xs : List A) → IsAscending (sort xs)
  unfolding sort
  sort-IsAscending [] = tt
  sort-IsAscending (x ∷ xs) = insert_sorted-IsAscending x (sort xs) (sort-IsAscending xs)

  All-dedup_from :
      (a x : A) (xs : List A)
      → o.cmp a x ≡ lt
      → IsAscending (x ∷ xs)
      → All (λ y. o.cmp a y ≡ lt) (dedup_from x xs)
  unfolding dedup_from
  All-dedup_from a x [] h up = (h, tt)
  All-dedup_from a x (y ∷ ys) h ((le, les), up) = elim (Bool-cases (same x y)) [
    | inl e ↦ rw (e, dedup_from) (All-dedup_from a x ys h (les, up.1))
    | inr e ↦
        rw (e, dedup_from)
          (h, All-dedup_from a y ys (ground (arith, o.eq_of_cmp x y, o.lt_trans a x y)) up)
  ]

  dedup_from-IsStrict : (x : A) (xs : List A) → IsAscending (x ∷ xs) → IsStrict (dedup_from x xs)
  unfolding dedup_from
  dedup_from-IsStrict x [] up = (tt, tt)
  dedup_from-IsStrict x (y ∷ ys) ((le, les), up) = elim (Bool-cases (same x y)) [
    | inl e ↦ rw (e, dedup_from) (dedup_from-IsStrict x ys (les, up.1))
    | inr e ↦
        rw (e, dedup_from)
          (All-dedup_from x y ys (ground (arith, o.eq_of_cmp x y)) up, dedup_from-IsStrict y ys up)
  ]

  dedup-IsStrict : (xs : List A) → IsAscending xs → IsStrict (dedup xs)
  unfolding dedup
  dedup-IsStrict [] up = tt
  dedup-IsStrict (x ∷ xs) up = dedup_from-IsStrict x xs up

  -- `sort` and then `dedup`: the set of the members, in its one strictly ascending form.
  unfoldable pub canon : List A → List A
  unfolding sort dedup
  canon xs = dedup (sort xs)

  pub canon-IsStrict : (xs : List A) → IsStrict (canon xs)
  unfolding canon
  canon-IsStrict xs = dedup-IsStrict (sort xs) (sort-IsAscending xs)

  pub contains-canon : (a : A) (xs : List A) → contains a (canon xs) ≡ contains a xs
  unfolding canon
  contains-canon a xs = contains-dedup a (sort xs) ∙ contains-sort a xs

  lt_of_contains :
      (x a : A) (xs : List A) → All (λ y. o.cmp x y ≡ lt) xs → contains a xs ≡ true → o.cmp x a ≡ lt
  unfolding contains
  lt_of_contains x a [] all h = cc
  lt_of_contains x a (y ∷ ys) all h = ground (arith, eq_of_same a y, lt_of_contains x a ys)

  -- A member of a strictly ascending list does not come back.
  contains_below :
      (x a : A) (xs : List A)
      → All (λ y. o.cmp x y ≡ lt) xs
      → same a x ≡ true
      → contains a xs ≡ false
  contains_below x a xs all e = elim (Bool-cases (contains a xs)) [
    | inl h ↦ ground (arith, lt_of_contains x a xs all h, o.cmp-reverse x a)
    | inr h ↦ h
  ]

  head_eq :
      (x y : A) (xs ys : List A)
      → All (λ z. o.cmp x z ≡ lt) xs
      → All (λ z. o.cmp y z ≡ lt) ys
      → ((a : A) → contains a (x ∷ xs) ≡ contains a (y ∷ ys))
      → x ≡ y
  unfolding contains
  head_eq x y xs ys hx hy e = elim (Bool-cases (same x y)) [
    | inl s ↦ eq_of_same x y s
    | inr n ↦ ground (
      arith,
      e x,
      e y,
      same_self x,
      same_self y,
      o.cmp-reverse x y,
      lt_of_contains x y xs,
      lt_of_contains y x ys,
    )
  ]

  tail_contains :
      (x a : A) (xs ys : List A)
      → All (λ z. o.cmp x z ≡ lt) xs
      → All (λ z. o.cmp x z ≡ lt) ys
      → contains a (x ∷ xs) ≡ contains a (x ∷ ys)
      → contains a xs ≡ contains a ys
  unfolding contains
  tail_contains x a xs ys hx hy e = ground (arith, contains_below x a xs, contains_below x a ys)

  -- Two strictly ascending lists with the same members are equal.
  pub IsStrict-ext :
      (xs ys : List A)
      → IsStrict xs
      → IsStrict ys
      → ((a : A) → contains a xs ≡ contains a ys)
      → xs ≡ ys
  IsStrict-ext [] [] hx hy e = refl
  IsStrict-ext [] (y ∷ ys) hx hy e = unfold contains in ground (arith, e y, same_self y)
  IsStrict-ext (x ∷ xs) [] hx hy e = unfold contains in ground (arith, e x, same_self x)
  IsStrict-ext (x ∷ xs) (y ∷ ys) hx hy e =
      let p : x ≡ y = head_eq x y xs ys hx.0 hy.0 e in
      let hy' : All (λ z. o.cmp x z ≡ lt) ys = rw p hy.0 in
      let e' : (a : A) → contains a (x ∷ xs) ≡ contains a (x ∷ ys) = rw p (rw p at e) in
      ap₂ (◌∷◌) p (IsStrict-ext xs ys hx.1 hy.1 (λ a. tail_contains x a xs ys hx.0 hy' (e' a)))

  -- So the canonical form depends on the members only.
  pub canon_ext : (xs ys : List A) → ((a : A) → contains a xs ≡ contains a ys) → canon xs ≡ canon ys
  canon_ext xs ys e =
      IsStrict-ext (canon xs) (canon ys) (canon-IsStrict xs) (canon-IsStrict ys)
        (λ a. contains-canon a xs ∙ e a ∙ sym (contains-canon a ys))

  pub canon_of_strict : (xs : List A) → IsStrict xs → canon xs ≡ xs
  canon_of_strict xs h = IsStrict-ext (canon xs) xs (canon-IsStrict xs) h (λ a. contains-canon a xs)

  pub canon-append_comm : (xs ys : List A) → canon (xs ++ ys) ≡ canon (ys ++ xs)
  canon-append_comm xs ys =
      canon_ext (xs ++ ys) (ys ++ xs)
        (λ a. rw (contains-append a xs ys, contains-append a ys xs) (ground arith))

  pub canon-append_canon : (xs ys : List A) → canon (canon xs ++ ys) ≡ canon (xs ++ ys)
  canon-append_canon xs ys =
      canon_ext (canon xs ++ ys) (xs ++ ys)
        (λ a. rw (contains-append a (canon xs) ys, contains-append a xs ys, contains-canon a xs))

  pub canon-append_self : (xs : List A) → canon (xs ++ xs) ≡ canon xs
  canon-append_self xs = canon_ext (xs ++ xs) xs (λ a. rw (contains-append a xs xs) (ground arith))
