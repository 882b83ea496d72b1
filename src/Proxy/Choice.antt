-- ===== src/Proxy/Choice.antt =====
-- proxy.rs: from whom an archive is fetched.
use narshare.Base.{
  ℕ, ◌≤◌, ◌≡◌, ap, inl, inr, ◌↔◌, true, List, [], ◌∷◌, map, ◌==◌, is_empty, Among, ==_iff, arith,
}
use narshare.Base.Order.{nat_ord}
use narshare.Facts.{Bytes}
use narshare.Narinfo.{url_of}
use narshare.Proxy.{Proxy, Found, tier_of, candidates, min_tier, at_tier, sources_of}
use narshare.Proxy.Sources.{
  IsCandidate, IsCandidate-iff, min_tier-le, min_tier-Among, Among-keep_if,
}

abbrev IsLowest : Proxy → List ℕ → ℕ → Type 0
IsLowest g is i = (j : ℕ) → Among j is → tier_of g i ≤ tier_of g j

Among-at_tier :
    (g : Proxy) (is : List ℕ) (i : ℕ)
    → (Among i (at_tier g (min_tier g is) is) → Among i is × IsLowest g is i)
      × (Among i is → IsLowest g is i → Among i (at_tier g (min_tier g is) is))
Among-at_tier g [] i = unfold min_tier in ((λ a. elim a [ ]), λ a low. elim a [ ])
Among-at_tier g (x ∷ is) i =
    let (m, j, e, a, t) = min_tier-Among g x is in
    let kept = Among-keep_if (λ k. tier_of g k == m) i (x ∷ is) in
    let le = min_tier-le g (x ∷ is) m e in
    rw e (
      (λ k.
          let z = kept.0 k in
          let f = (==_iff (tier_of g i) m).0 z.1 in (z.0, λ k2 b. omega (arith, f, le k2 b))),
      λ b low. kept.1 b ((==_iff (tier_of g i) m).1 (omega (arith, low j a, t, le i b))),
    )

abbrev with_url : Bytes → List ℕ → List (ℕ × Bytes)
with_url url is = map (λ i. (i, url)) is

Among-map :
    (url : Bytes) (i : ℕ) (is : List ℕ)
    → (Among {A = ℕ × Bytes} (i, url) (with_url url is) → Among i is)
      × (Among i is → Among {A = ℕ × Bytes} (i, url) (with_url url is))
Among-map url i [] = ((λ a. elim a [ ]), λ a. elim a [ ])
Among-map url i (x ∷ is) =
    let ih = Among-map url i is in
    (
      (λ a. elim a [ inl e ↦ inl (ap (λ (p : ℕ × Bytes). p.0) e) | inr later ↦ inr (ih.0 later) ]),
      λ a. elim a [
        | inl e ↦ inl (ap (λ (j : ℕ). let p : ℕ × Bytes = (j, url) in p) e)
        | inr later ↦ inr (ih.1 later)
      ],
    )

empty-map :
    (url : Bytes) (is : List ℕ) → is_empty (with_url url is) ≡ true → (i : ℕ) → Among i is → ⊥
empty-map url [] e i a = elim a [ ]
empty-map url (x ∷ is) e i a = cc e

-- The sources of a found path are exactly the peers that hold it, other than this node, whose breaker
-- lets a request through now and whose tier is the lowest among those; and there is none only where
-- no such peer is.
pub sources_of-IsCandidate :
    (g : Proxy) (found : Found) (i : ℕ)
    → (Among {A = ℕ × Bytes} (i, url_of found.info.nar_hash) (sources_of g found) ↔ (
        IsCandidate g found.holders i
        × ((j : ℕ) → IsCandidate g found.holders j → tier_of g i ≤ tier_of g j)))
      × (is_empty (sources_of g found) ≡ true → ¬ IsCandidate g found.holders i)
unfolding sources_of
sources_of-IsCandidate g found i =
    let is = candidates g found.holders in
    let url = url_of found.info.nar_hash in
    let kept = at_tier g (min_tier g is) is in
    let at = Among-at_tier g is i in
    (
      (
        (λ a.
            let x = at.0 ((Among-map url i kept).0 a) in
            (
              (IsCandidate-iff g found.holders i).0 x.0,
              λ j c. x.1 j ((IsCandidate-iff g found.holders j).1 c),
            )),
        λ h. (Among-map url i kept).1 (
            at.1 ((IsCandidate-iff g found.holders i).1 h.0)
              (λ j a. h.1 j ((IsCandidate-iff g found.holders j).0 a))),
      ),
      λ e c. none_left is e ((IsCandidate-iff g found.holders i).1 c),
    )
  where
    none_left :
        (is : List ℕ)
        → is_empty (with_url (url_of found.info.nar_hash) (at_tier g (min_tier g is) is)) ≡ true
        → Among i is
        → ⊥
    none_left [] e a = elim a [ ]
    none_left (x ∷ is) e a =
        let (m, j, f, b, t) = min_tier-Among g x is in
        empty-map (url_of found.info.nar_hash) (at_tier g (min_tier g (x ∷ is)) (x ∷ is)) e j (
          (Among-at_tier g (x ∷ is) j).1 b
            (λ k c. omega (arith, t, min_tier-le g (x ∷ is) m f k c)))
