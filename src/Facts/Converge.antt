-- ===== src/Facts/Converge.antt =====
-- store/mod.rs: merging a stream of attestations of one identity, in whatever order it arrives.
use narshare.Base.{◌≡◌, refl, sym, ap, ◌∙◌, inl, inr, Option, none, some, List, [], ◌∷◌, All, Among}
use narshare.Facts.{Bytes, Attestation, canonicalize, merge_into}
use narshare.Facts.Join.{
  join, stored, stored-join, join_comm, join_self, join_assoc, join-canonicalize,
  canonicalize_twice,
}

-- What the table holds under one identity after the attestations have come in, in this order.
unfoldable pub absorb : Option Attestation → List Attestation → Option Attestation
absorb old [] = old
absorb old (x ∷ xs) = absorb (some (stored old x)) xs

joins : Attestation → List Attestation → Attestation
joins a [] = a
joins a (x ∷ xs) = joins (join a x) xs

absorb-joins : (a : Attestation) (xs : List Attestation) → absorb (some a) xs ≡ some (joins a xs)
unfolding absorb joins
absorb-joins a [] = refl
absorb-joins a (x ∷ xs) = rw (stored-join a x) (absorb-joins (join a x) xs)

absorb_first :
    (x : Attestation) (xs : List Attestation)
    → absorb none (x ∷ xs) ≡ some (joins (canonicalize x) xs)
unfolding absorb
absorb_first x xs = unfold merge_into in absorb-joins (canonicalize x) xs

nar_hash-joins : (a : Attestation) (xs : List Attestation) → (joins a xs).nar_hash ≡ a.nar_hash
unfolding joins
nar_hash-joins a [] = refl
nar_hash-joins a (x ∷ xs) = nar_hash-joins (join a x) xs

join_twice : (a x : Attestation) → join (join a x) x ≡ join a x
join_twice a x = join_assoc a x x ∙ ap (join a) (join_self x) ∙ join-canonicalize a x

join_right_comm :
    (a x y : Attestation) → x.nar_hash ≡ y.nar_hash → join (join a x) y ≡ join (join a y) x
join_right_comm a x y h = join_assoc a x y ∙ ap (join a) (join_comm x y h) ∙ sym (join_assoc a y x)

joins-join : (a b : Attestation) (xs : List Attestation) → joins (join a b) xs ≡ join a (joins b xs)
unfolding joins
joins-join a b [] = refl
joins-join a b (x ∷ xs) = ap (λ m. joins m xs) (join_assoc a b x) ∙ joins-join a (join b x) xs

-- What `a` has absorbed, it still has absorbed after more merges.
absorbed_keep :
    (h : Bytes) (a x : Attestation) (xs : List Attestation)
    → x.nar_hash ≡ h
    → All (λ y. y.nar_hash ≡ h) xs
    → join a x ≡ a
    → join (joins a xs) x ≡ joins a xs
unfolding joins
absorbed_keep h a x [] hx all e = e
absorbed_keep h a x (y ∷ ys) hx (hy, all) e =
    absorbed_keep h (join a y) x ys hx all
      (join_right_comm a y x (hy ∙ sym hx) ∙ ap (λ m. join m y) e)

absorbed :
    (h : Bytes) (a x : Attestation) (xs : List Attestation)
    → All (λ y. y.nar_hash ≡ h) xs
    → Among x xs
    → join (joins a xs) x ≡ joins a xs
unfolding joins
absorbed h a x [] all m = absurd m
absorbed h a x (y ∷ ys) (hy, all) (inl e) =
    absorbed_keep h (join a y) x ys (ap (λ z. z.nar_hash) e ∙ hy) all (rw e (join_twice a y))
absorbed h a x (y ∷ ys) (hy, all) (inr m) = absorbed h (join a y) x ys all m

joins_of_absorbed :
    (m : Attestation) (ys : List Attestation) → All (λ y. join m y ≡ m) ys → joins m ys ≡ m
unfolding joins
joins_of_absorbed m [] all = refl
joins_of_absorbed m (y ∷ ys) (e, all) = ap (λ z. joins z ys) e ∙ joins_of_absorbed m ys all

joins_next :
    (a y : Attestation) (ys : List Attestation)
    → joins a (y ∷ ys) ≡ join a (joins (canonicalize y) ys)
unfolding joins
joins_next a y ys =
    ap (λ m. joins m ys) (sym (join-canonicalize a y)) ∙ joins-join a (canonicalize y) ys

join_first : (x : Attestation) → join (canonicalize x) x ≡ canonicalize x
join_first x =
    sym (join-canonicalize (canonicalize x) x) ∙ join_self (canonicalize x) ∙ canonicalize_twice x

-- All that came in is absorbed.
absorbed-All :
    (h : Bytes) (x : Attestation) (xs : List Attestation) (y : Attestation)
    → All (λ z. z.nar_hash ≡ h) (x ∷ xs)
    → Among y (x ∷ xs)
    → join (joins (canonicalize x) xs) y ≡ joins (canonicalize x) xs
absorbed-All h x xs y (hx, all) (inl e) =
    absorbed_keep h (canonicalize x) y xs (ap (λ z. z.nar_hash) e ∙ hx) all (rw e (join_first x))
absorbed-All h x xs y (hx, all) (inr m) = absorbed h (canonicalize x) y xs all m

absorbed_list :
    (h : Bytes) (x : Attestation) (xs ys : List Attestation)
    → All (λ z. z.nar_hash ≡ h) (x ∷ xs)
    → All (λ y. Among y (x ∷ xs)) ys
    → All (λ y. join (joins (canonicalize x) xs) y ≡ joins (canonicalize x) xs) ys
absorbed_list h x xs [] all m = tt
absorbed_list h x xs (y ∷ ys) all (m, ms) =
    (absorbed-All h x xs y all m, absorbed_list h x xs ys all ms)

absorb_covers :
    (h : Bytes) (x : Attestation) (xs : List Attestation) (y : Attestation) (ys : List Attestation)
    → All (λ z. z.nar_hash ≡ h) (x ∷ xs)
    → All (λ z. Among z (x ∷ xs)) (y ∷ ys)
    → join (joins (canonicalize x) xs) (joins (canonicalize y) ys) ≡ joins (canonicalize x) xs
absorb_covers h x xs y ys all sub =
    sym (joins_next (joins (canonicalize x) xs) y ys)
    ∙ joins_of_absorbed _ (y ∷ ys) (absorbed_list h x xs (y ∷ ys) all sub)

joins_nar_hash :
    (h : Bytes) (x : Attestation) (xs : List Attestation)
    → x.nar_hash ≡ h
    → (joins (canonicalize x) xs).nar_hash ≡ h
joins_nar_hash h x xs e = nar_hash-joins (canonicalize x) xs ∙ unfold canonicalize in e

-- Two nodes that were sent the same attestations of one identity, in any order and any number of
-- times, hold the same fact, to the last signature.
pub absorb_same :
    (h : Bytes) (xs ys : List Attestation)
    → All (λ x. x.nar_hash ≡ h) xs
    → All (λ y. y.nar_hash ≡ h) ys
    → All (λ x. Among x ys) xs
    → All (λ y. Among y xs) ys
    → absorb none xs ≡ absorb none ys
absorb_same h [] [] hx hy sub sup = refl
absorb_same h [] (y ∷ ys) hx hy sub sup = absurd sup.0
absorb_same h (x ∷ xs) [] hx hy sub sup = absurd sub.0
absorb_same h (x ∷ xs) (y ∷ ys) hx hy sub sup =
    absorb_first x xs
    ∙ ap some (sym (absorb_covers h x xs y ys hx sup))
    ∙ ap some (join_comm _ _ (joins_nar_hash h x xs hx.0 ∙ sym (joins_nar_hash h y ys hy.0)))
    ∙ ap some (absorb_covers h y ys x xs hy sub)
    ∙ sym (absorb_first y ys)
