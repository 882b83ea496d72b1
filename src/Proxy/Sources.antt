-- ===== src/Proxy/Sources.antt =====
-- proxy.rs: the holders of an archive that can serve it, and their tiers.
use narshare.Base.{
  ℕ, ◌≤◌, ◌≡◌, ◌≢◌, refl, sym, subst, ap, ◌∙◌, inl, inr, ◌⊎◌, Bool, true, none, some, List, [], ◌∷◌,
  keep_if, min, Among, Bool-cases, Option-cases, low_or_high, arith,
}
use narshare.Base.Order.{nat_ord, list_ord}
use narshare.Base.Sets.{same, eq_of_same, same_self}
use narshare.Facts.{Bytes}
use narshare.Proxy.{Proxy, idx_of, is_available, tier_of, candidate, candidates, min_with, min_tier}

-- A holder that is a peer, not this node, and whose breaker lets a request through.
pub record IsCandidate (g : Proxy) (holders : List Bytes) (i : ℕ) : Type 0 where
  pub holder : Bytes
  pub listed : Among holder holders
  pub other : holder ≢ g.self_name
  pub peer : idx_of holder g.list ≡ some i
  pub closed_breaker : is_available g i ≡ true

candidate-some :
    (g : Proxy) (h : Bytes) (i : ℕ)
    → candidate g h ≡ some i
    → (h ≢ g.self_name) × (idx_of h g.list ≡ some i) × (is_available g i ≡ true)
candidate-some g h i e = elim (Bool-cases (same h g.self_name)) [
  | inl y ↦ cc (rw y at e)
  | inr n ↦ elim (Option-cases (idx_of h g.list)) [
    | inl f ↦ cc (rw (n, f) at e)
    | inr (j, f) ↦ elim (Bool-cases (is_available g j)) [
      | inr shut ↦ cc (rw (n, f, shut) at e)
      | inl free ↦
          let k : some j ≡ some i = rw (n, f, free) at e in
          let m : j ≡ i = cc k in
          (
            (λ x. cc (sym n ∙ ap (λ z. same z g.self_name) x ∙ same_self g.self_name)),
            f ∙ k,
            subst (λ x. is_available g x ≡ true) m free,
          )
    ]
  ]
]

some-candidate :
    (g : Proxy) (h : Bytes) (i : ℕ)
    → h ≢ g.self_name
    → idx_of h g.list ≡ some i
    → is_available g i ≡ true
    → candidate g h ≡ some i
some-candidate g h i other e free = elim (Bool-cases (same h g.self_name)) [
  | inl y ↦ absurd (other (eq_of_same h g.self_name y))
  | inr n ↦ rw (n, e, free) refl
]

Among-candidates :
    (g : Proxy) (holders : List Bytes) (h : Bytes) (i : ℕ)
    → Among h holders
    → candidate g h ≡ some i
    → Among i (candidates g holders)
unfolding candidates
Among-candidates g [] h i a e = elim a [ ]
Among-candidates g (x ∷ holders) h i (inl f) e =
    let e' : candidate g x ≡ some i = subst (λ z. candidate g z ≡ some i) f e in rw e' (inl refl)
Among-candidates g (x ∷ holders) h i (inr a) e = elim (Option-cases (candidate g x)) [
  | inl f ↦ rw f (Among-candidates g holders h i a e)
  | inr (j, f) ↦ rw f (inr (Among-candidates g holders h i a e))
]

candidates-Among :
    (g : Proxy) (holders : List Bytes) (i : ℕ)
    → Among i (candidates g holders)
    → (h : Bytes) × Among h holders × (candidate g h ≡ some i)
unfolding candidates
candidates-Among g [] i a = elim a [ ]
candidates-Among g (x ∷ holders) i a = elim (Option-cases (candidate g x)) [
  | inl f ↦ let rest = candidates-Among g holders i (rw f at a) in (rest.0, inr rest.1, rest.2)
  | inr (j, f) ↦
      let b : (i ≡ j) ⊎ Among i (candidates g holders) = rw f at a in
      elim b [
        | inl e ↦ (x, inl refl, f ∙ ap some (sym e))
        | inr later ↦ let rest = candidates-Among g holders i later in (rest.0, inr rest.1, rest.2)
      ]
]

pub IsCandidate-iff :
    (g : Proxy) (holders : List Bytes) (i : ℕ)
    → (Among i (candidates g holders) → IsCandidate g holders i)
      × (IsCandidate g holders i → Among i (candidates g holders))
IsCandidate-iff g holders i = (
  (λ a.
      let x = candidates-Among g holders i a in
      let y = candidate-some g x.0 i x.2 in
      record { holder = x.0; listed = x.1; other = y.0; peer = y.1; closed_breaker = y.2 }),
  λ c.
      Among-candidates g holders c.holder i c.listed
        (some-candidate g c.holder i c.other c.peer c.closed_breaker),
)

pub min_tier-le :
    (g : Proxy) (is : List ℕ) (m : ℕ)
    → min_tier g is ≡ some m
    → (j : ℕ) → Among j is
    → m ≤ tier_of g j
unfolding min_tier
min_tier-le g [] m e j a = elim a [ ]
min_tier-le g (i ∷ is) m e j a = elim (Option-cases (min_tier g is)) [
  | inl f ↦
      let k : some (tier_of g i) ≡ some m = rw f at e in
      let n : tier_of g i ≡ m = cc k in
      elim a [
        | inl x ↦ subst (λ z. m ≤ tier_of g z) (sym x) (omega (arith, n))
        | inr later ↦ absurd (none_left is f j later)
      ]
  | inr (t, f) ↦
      let k : some (min (tier_of g i) t) ≡ some m = rw f at e in
      let n : min (tier_of g i) t ≡ m = cc k in
      elim a [
        | inl x ↦ subst (λ z. m ≤ tier_of g z) (sym x) (omega (arith, n))
        | inr later ↦ omega (arith, n, min_tier-le g is t f j later)
      ]
]
  where
    none_left : (is : List ℕ) → min_tier g is ≡ none → (j : ℕ) → Among j is → ⊥
    none_left [] f j b = elim b [ ]
    none_left (x ∷ is) f j b = cc f

-- Some index has the lowest tier.
pub min_tier-Among :
    (g : Proxy) (i : ℕ) (is : List ℕ)
    → (m : ℕ) × (j : ℕ) × (min_tier g (i ∷ is) ≡ some m) × Among j (i ∷ is) × (tier_of g j ≡ m)
unfolding min_tier
min_tier-Among g i [] = (tier_of g i, i, refl, inl refl, refl)
min_tier-Among g i (x ∷ is) =
    let rest = min_tier-Among g x is in
    elim (low_or_high (tier_of g i) rest.0) [
      | inl low ↦
          let e : min (tier_of g i) rest.0 ≡ tier_of g i = omega (arith, low) in
          (
            tier_of g i,
            i,
            ap (λ t. some (min_with (tier_of g i) t)) rest.2 ∙ ap some e,
            inl refl,
            refl,
          )
      | inr high ↦
          let e : min (tier_of g i) rest.0 ≡ rest.0 = omega (arith, high) in
          (
            rest.0,
            rest.1,
            ap (λ t. some (min_with (tier_of g i) t)) rest.2 ∙ ap some e,
            inr rest.3,
            rest.4,
          )
    ]

pub Among-keep_if :
    (p : ℕ → Bool) (i : ℕ) (is : List ℕ)
    → (Among i (keep_if p is) → Among i is × (p i ≡ true))
      × (Among i is → p i ≡ true → Among i (keep_if p is))
Among-keep_if p i [] = ((λ a. elim a [ ]), λ a e. elim a [ ])
Among-keep_if p i (x ∷ is) =
    let ih = Among-keep_if p i is in
    elim (Bool-cases (p x)) [
      | inl y ↦ (
        (λ a.
            let b : (i ≡ x) ⊎ Among i (keep_if p is) = rw (y, keep_if) at a in
            elim b [
              | inl e ↦ (inl e, ap p e ∙ y)
              | inr later ↦ let z = ih.0 later in (inr z.0, z.1)
            ]),
        λ a e. rw (y, keep_if) (elim a [ inl f ↦ inl f | inr later ↦ inr (ih.1 later e) ]),
      )
      | inr n ↦ (
        (λ a. let z = ih.0 (rw (n, keep_if) at a) in (inr z.0, z.1)),
        λ a e.
            rw (n, keep_if)
              (elim a [ inl f ↦ cc (sym n ∙ ap p (sym f) ∙ e) | inr later ↦ ih.1 later e ]),
      )
    ]
