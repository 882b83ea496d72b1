-- ===== src/Dedup/Budget.antt =====
-- dedup.rs: what is retained never exceeds the budget.
use narshare.Base.{
  ℕ, zero, suc, ◌+◌, ◌-◌, ◌^◌, ◌≤◌, ◌<◌, All, All-append, ◌≡◌, refl, sym, ◌∙◌, inl, inr, Bool, true,
  false, ◌&&◌, List, [], ◌∷◌, ◌++◌, arith, ◌==◌, ltb, leb, get_or, set, length, length-append,
  length-set, Bool-cases,
}
use narshare.Base.Order.{nat_ord, list_ord}
use narshare.Facts.{Bytes}
use narshare.Merkle.Cells.{get_or-All}
use narshare.Dedup.{
  add_u64, sub_u64, Identity, no_keys, Residency, id_of, identify_one, identify, first_seen, replay,
  residency_step, reside, all_false, not_resident,
}

-- The bytes of the keys that are marked resident.
abbrev pub retained : List Bool → List ℕ → ℕ
retained [] sizes = 0
retained (b ∷ bs) [] = 0
retained (true ∷ bs) (size ∷ sizes) = size + retained bs sizes
retained (false ∷ bs) (size ∷ sizes) = retained bs sizes

-- No key is resident before it is seen; the two lists and the sizes are equally long.
data IsSeenFirst : List Bool → List Bool → List ℕ → Type 0 where
  nil : IsSeenFirst [] [] []
  key :
      {seen resident : List Bool} {sizes : List ℕ} (s r : Bool) (size : ℕ)
      → (s ≡ false → r ≡ false)
      → IsSeenFirst seen resident sizes
      → IsSeenFirst (s ∷ seen) (r ∷ resident) (size ∷ sizes)

not_resident_yet :
    {seen resident : List Bool} {sizes : List ℕ} (u : ℕ)
    → IsSeenFirst seen resident sizes
    → get_or seen u false ≡ false
    → get_or resident u false ≡ false
not_resident_yet u nil e = refl
not_resident_yet zero (key s r size f h) e = f e
not_resident_yet (suc u) (key s r size f h) e = not_resident_yet u h e

IsSeenFirst-see :
    {seen resident : List Bool} {sizes : List ℕ} (u : ℕ)
    → IsSeenFirst seen resident sizes
    → IsSeenFirst (set seen u true) resident sizes
IsSeenFirst-see u nil = nil
IsSeenFirst-see zero (key s r size f h) = key true r size (λ e. cc) h
IsSeenFirst-see (suc u) (key s r size f h) = key s r size f (IsSeenFirst-see u h)

IsSeenFirst-keep :
    {seen resident : List Bool} {sizes : List ℕ} (u : ℕ)
    → IsSeenFirst seen resident sizes
    → IsSeenFirst (set seen u true) (set resident u true) sizes
IsSeenFirst-keep u nil = nil
IsSeenFirst-keep zero (key s r size f h) = key true true size (λ e. cc) h
IsSeenFirst-keep (suc u) (key s r size f h) = key s r size f (IsSeenFirst-keep u h)

IsSeenFirst-free :
    {seen resident : List Bool} {sizes : List ℕ} (u : ℕ)
    → IsSeenFirst seen resident sizes
    → IsSeenFirst seen (set resident u false) sizes
IsSeenFirst-free u nil = nil
IsSeenFirst-free zero (key s r size f h) = key s false size (λ e. refl) h
IsSeenFirst-free (suc u) (key s r size f h) = key s r size f (IsSeenFirst-free u h)

retained-keep :
    {seen resident : List Bool} {sizes : List ℕ} (u : ℕ)
    → IsSeenFirst seen resident sizes
    → get_or resident u false ≡ false
    → retained (set resident u true) sizes ≡ retained resident sizes + get_or sizes u 0
retained-keep u nil e = omega arith
retained-keep zero (key s true size f h) e = cc
retained-keep zero (key s false size f h) e = omega arith
retained-keep (suc u) (key s true size f h) e = omega (arith, retained-keep u h e)
retained-keep (suc u) (key s false size f h) e = retained-keep u h e

retained-has :
    {seen resident : List Bool} {sizes : List ℕ} (u : ℕ)
    → IsSeenFirst seen resident sizes
    → get_or resident u false ≡ true
    → get_or sizes u 0 ≤ retained resident sizes
retained-has u nil e = omega arith
retained-has zero (key s true size f h) e = omega arith
retained-has zero (key s false size f h) e = cc
retained-has (suc u) (key s true size f h) e = omega (arith, retained-has u h e)
retained-has (suc u) (key s false size f h) e = retained-has u h e

retained-free :
    {seen resident : List Bool} {sizes : List ℕ} (u : ℕ)
    → IsSeenFirst seen resident sizes
    → get_or resident u false ≡ true
    → retained (set resident u false) sizes ≡ retained resident sizes - get_or sizes u 0
retained-free u nil e = omega arith
retained-free zero (key s true size f h) e = omega arith
retained-free zero (key s false size f h) e = cc
retained-free (suc u) (key s true size f h) e =
    omega (arith, retained-free u h e, retained-has u h e)
retained-free (suc u) (key s false size f h) e = retained-free u h e

-- No size goes over 64 bits together with the budget.
abbrev IsSmall : ℕ → List ℕ → Type 0
IsSmall budget sizes = All (λ size. budget + size < 2 ^ 64) sizes

add_u64_small : (a b : ℕ) → a + b < 2 ^ 64 → add_u64 a b ≡ a + b
unfolding add_u64
add_u64_small a b h = omega arith

sub_u64_small : (a b : ℕ) → b ≤ a → a < 2 ^ 64 → sub_u64 a b ≡ a - b
unfolding sub_u64
sub_u64_small a b le h = omega arith

size_at_small :
    (budget : ℕ) (sizes : List ℕ) (u : ℕ)
    → budget < 2 ^ 64
    → IsSmall budget sizes
    → budget + get_or sizes u 0 < 2 ^ 64
size_at_small budget sizes u b small =
    get_or-All (λ size. budget + size < 2 ^ 64) sizes u 0 small (omega arith)

-- What holds between two steps of the second pass.
record IsWithin (t : Identity) (budget : ℕ) (s : Residency) : Type 0 where
  marks : IsSeenFirst s.seen s.resident t.size_of
  counted : s.resident_bytes ≡ retained s.resident t.size_of
  bounded : s.resident_bytes ≤ budget

first_seen-IsWithin :
    (t : Identity) (budget u : ℕ) (s : Residency)
    → budget + get_or t.size_of u 0 < 2 ^ 64
    → IsWithin t budget s
    → get_or s.seen u false ≡ false
    → IsWithin t budget (first_seen t budget u s)
unfolding first_seen
first_seen-IsWithin t budget u s small w e =
    let sum =
      add_u64_small s.resident_bytes (get_or t.size_of u 0) (omega (arith, w.bounded, small)) in
    elim (Bool-cases (
      ltb 0 (get_or t.occurrences u 0 - 1)
      && leb (add_u64 s.resident_bytes (get_or t.size_of u 0)) budget)) [
        | inl q ↦ rw q (record {
          marks = IsSeenFirst-keep u w.marks;
          counted =
              omega (arith, sum, w.counted, retained-keep u w.marks (not_resident_yet u w.marks e));
          bounded = ground (arith, q);
        })
        | inr q ↦
            rw q (record {
              marks = IsSeenFirst-see u w.marks;
              counted = w.counted;
              bounded = w.bounded;
            })
      ]

replay-IsWithin :
    (t : Identity) (budget p u : ℕ) (s : Residency)
    → budget < 2 ^ 64
    → IsWithin t budget s
    → get_or s.resident u false ≡ true
    → IsWithin t budget (replay t p u s)
unfolding replay
replay-IsWithin t budget p u s top w e =
    let rest =
      sub_u64_small s.resident_bytes (get_or t.size_of u 0)
        (omega (arith, w.counted, retained-has u w.marks e)) (omega (arith, w.bounded, top)) in
    elim (Bool-cases (p == get_or t.last_pos u 0)) [
      | inl q ↦ rw q (record {
        marks = IsSeenFirst-free u w.marks;
        counted = omega (arith, rest, w.counted, retained-free u w.marks e);
        bounded = omega (arith, rest, w.bounded);
      })
      | inr q ↦ rw q (record { marks = w.marks; counted = w.counted; bounded = w.bounded })
    ]

residency_step-IsWithin :
    (t : Identity) (budget p u : ℕ) (s : Residency)
    → budget < 2 ^ 64
    → IsSmall budget t.size_of
    → IsWithin t budget s
    → IsWithin t budget (residency_step t budget p u s)
unfolding residency_step
residency_step-IsWithin t budget p u s top small w = elim (Bool-cases (get_or s.seen u false)) [
  | inr e ↦ rw e (first_seen-IsWithin t budget u s (size_at_small budget t.size_of u top small) w e)
  | inl e ↦ elim (Bool-cases (get_or s.resident u false)) [
    | inl q ↦ rw (e, q) (replay-IsWithin t budget p u s top w q)
    | inr q ↦ rw (e, q) (record { marks = w.marks; counted = w.counted; bounded = w.bounded })
  ]
]

reside-IsWithin :
    (t : Identity) (budget p : ℕ) (us : List ℕ) (s : Residency)
    → budget < 2 ^ 64
    → IsSmall budget t.size_of
    → IsWithin t budget s
    → IsWithin t budget (reside t budget p us s)
unfolding reside
reside-IsWithin t budget p [] s top small w = w
reside-IsWithin t budget p (u ∷ us) s top small w =
    reside-IsWithin t budget (p + 1) us (residency_step t budget p u s) top small
      (residency_step-IsWithin t budget p u s top small w)

identify_one-lengths :
    (p : ℕ) (k : Bytes) (size : ℕ) (t : Identity)
    → length t.occurrences ≡ length t.size_of
    → length (identify_one p k size t).occurrences ≡ length (identify_one p k size t).size_of
unfolding identify_one
identify_one-lengths p k size t h = elim (Bool-cases (id_of k t.keys == length t.keys)) [
  | inl e ↦ rw e (
      length-set (t.occurrences ++ (0 ∷ [])) (id_of k t.keys) _
      ∙ omega (arith, length-append t.occurrences (0 ∷ []), length-append t.size_of (size ∷ []), h))
  | inr e ↦ rw e (length-set t.occurrences (id_of k t.keys) _ ∙ h)
]

identify-lengths :
    (p : ℕ) (keys : List (Bytes × ℕ)) (t : Identity)
    → length t.occurrences ≡ length t.size_of
    → length (identify p keys t).occurrences ≡ length (identify p keys t).size_of
unfolding identify
identify-lengths p [] t h = h
identify-lengths p ((k, size) ∷ rest) t h =
    identify-lengths (p + 1) rest (identify_one p k size t) (identify_one-lengths p k size t h)

identify-IsSmall :
    (budget p : ℕ) (keys : List (Bytes × ℕ)) (t : Identity)
    → All (λ key. budget + key.1 < 2 ^ 64) keys
    → IsSmall budget t.size_of
    → IsSmall budget (identify p keys t).size_of
unfolding identify identify_one
identify-IsSmall budget p [] t all small = small
identify-IsSmall budget p ((k, size) ∷ rest) t (le, all) small =
    identify-IsSmall budget (p + 1) rest (identify_one p k size t) all
      (elim (Bool-cases (id_of k t.keys == length t.keys)) [
        | inl e ↦
            rw (e, identify_one)
              (All-append (λ x. budget + x < 2 ^ 64) t.size_of (size ∷ []) small (le, tt))
        | inr e ↦ rw (e, identify_one) small
      ])

not_resident-marks :
    (xs sizes : List ℕ) → length xs ≡ length sizes → IsSeenFirst (all_false xs) (all_false xs) sizes
not_resident-marks [] [] h = nil
not_resident-marks [] (size ∷ sizes) h = absurd (omega arith)
not_resident-marks (x ∷ xs) [] h = absurd (omega arith)
not_resident-marks (x ∷ xs) (size ∷ sizes) h =
    key false false size (λ e. e) (not_resident-marks xs sizes (omega arith))

retained-all_false : (xs sizes : List ℕ) → retained (all_false xs) sizes ≡ 0
retained-all_false [] sizes = refl
retained-all_false (x ∷ xs) [] = refl
retained-all_false (x ∷ xs) (size ∷ sizes) = retained-all_false xs sizes

-- Where the budget fits into 64 bits, also together with each segment's size, then at every moment
-- of the plan, that is, after any series of occurrences, the count of retained bytes is the sum of
-- the sizes of the segments that are retained, and it is within the budget.
pub reside-within_budget :
    (keys : List (Bytes × ℕ)) (budget : ℕ) (us : List ℕ)
    → budget < 2 ^ 64
    → All (λ key. budget + key.1 < 2 ^ 64) keys
    → let t = identify 0 keys no_keys in
      let s = reside t budget 0 us (not_resident t) in
      (s.resident_bytes ≡ retained s.resident t.size_of) × (s.resident_bytes ≤ budget)
reside-within_budget keys budget us top small =
    let t = identify 0 keys no_keys in
    let start : IsWithin t budget (not_resident t) = record {
      marks = not_resident-marks t.occurrences t.size_of (identify-lengths 0 keys no_keys refl);
      counted = sym (retained-all_false t.occurrences t.size_of);
      bounded = omega arith;
    } in
    let w =
      reside-IsWithin t budget 0 us (not_resident t) top
        (identify-IsSmall budget 0 keys no_keys small tt) start in
    (w.counted, w.bounded)
