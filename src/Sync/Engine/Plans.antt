-- ===== src/Sync/Engine/Plans.antt =====
-- sync.rs: the plans of all origins, when the plan of one of them changes.
use narshare.Base.{
  ℕ, suc, ◌+◌, ◌≡◌, refl, sym, ap, subst, ◌∙◌, inl, inr, false, some, List, ◌∷◌, length, arith,
  Bool-cases,
}
use narshare.Base.Order.{nat_ord, list_ord}
use narshare.Base.Sets.{same, same_self, eq_of_same}
use narshare.Base.Keys.{put, get, delete, get-put, get-delete}
use narshare.Facts.{Bytes}
use narshare.Index.Messages.{RangeAsk}
use narshare.Sync.Catchup.{OriginPlan}
use narshare.Sync.Catchup.Pieces.{hit, IsPlanned}
use narshare.Sync.Catchup.Cover.{moved}
use narshare.Sync.Engine.{Leaves, at_head, further, piece_of, asked_for}

pub asked_for-Leaves :
    (ask : RangeAsk) (before rest : List RangeAsk)
    → Leaves ask before rest
    → (o : Bytes) (s : ℕ) → asked_for o before s ≡ piece_of o s ask + asked_for o rest s
asked_for-Leaves ask before rest (at_head r) o s = refl
asked_for-Leaves ask before rest (further other b r l) o s =
    omega (arith, asked_for-Leaves ask b r l o s)

pub length-Leaves :
    (ask : RangeAsk) (before rest : List RangeAsk)
    → Leaves ask before rest
    → length before ≡ suc (length rest)
length-Leaves ask before rest (at_head r) = refl
length-Leaves ask before rest (further other b r l) = ap suc (length-Leaves ask b r l)

pub IsPlanned-ext :
    (p : OriginPlan) (f g : ℕ → ℕ) → ((s : ℕ) → g s ≡ f s) → IsPlanned p f → IsPlanned p g
IsPlanned-ext p f g e h = moved p p f g h refl refl refl h.chunks h.sorted (λ s. omega (arith, e s))

abbrev pub AllPlanned : List (Bytes × OriginPlan) → (Bytes → ℕ → ℕ) → Type 0
AllPlanned origins f = (o : Bytes) (p : OriginPlan) → get o origins ≡ some p → IsPlanned p (f o)

-- One origin's plan is put, the others have theirs.
pub put-AllPlanned :
    (origins : List (Bytes × OriginPlan)) (o : Bytes) (q : OriginPlan) (f : Bytes → ℕ → ℕ)
    → IsPlanned q (f o)
    → ((j : Bytes) (p : OriginPlan) → same j o ≡ false → get j origins ≡ some p → IsPlanned p (f j))
    → AllPlanned (put o q origins) f
put-AllPlanned origins o q f h rest j p e = elim (Bool-cases (same j o)) [
  | inl s ↦
      let k : j ≡ o = eq_of_same j o s in
      let r : q ≡ p = cc (get-put o j q origins) in
      subst (λ i. IsPlanned p (f i)) (sym k) (subst (λ x. IsPlanned x (f o)) r h)
  | inr s ↦ rest j p s (sym (rw s at (get-put o j q origins)) ∙ e)
]

pub delete-AllPlanned :
    (origins : List (Bytes × OriginPlan)) (o : Bytes) (f : Bytes → ℕ → ℕ)
    → AllPlanned origins f
    → AllPlanned (delete o origins) f
delete-AllPlanned origins o f h j p e = h j p (ground (arith, get-delete o j origins))

pub more-AllPlanned :
    (ask : RangeAsk) (flying : List RangeAsk) (o : Bytes) (p : OriginPlan)
    → same o ask.origin ≡ false
    → IsPlanned p (asked_for o flying)
    → IsPlanned p (asked_for o (ask ∷ flying))
more-AllPlanned ask flying o p d h = IsPlanned-ext p _ _ (λ s. rw d (omega arith)) h

pub own-Planned :
    (ask : RangeAsk) (flying : List RangeAsk) (p : OriginPlan)
    → IsPlanned p (λ s. hit ask.after ask.until s + asked_for ask.origin flying s)
    → IsPlanned p (asked_for ask.origin (ask ∷ flying))
own-Planned ask flying p h = IsPlanned-ext p _ _ (λ s. rw (same_self ask.origin) refl) h
