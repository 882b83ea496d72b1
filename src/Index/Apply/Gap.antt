-- ===== src/Index/Apply/Gap.antt =====
-- index.rs: when `apply_suffix` asks for a snapshot.
use narshare.Base.{
  ℕ, suc, ◌≤◌, ◌<◌, ◌≡◌, ◌≢◌, ◌↔◌, refl, sym, ap, ◌∙◌, ◌⊎◌, inl, inr, true, false, none, List, [],
  ◌∷◌, ◌++◌, arith, ok, is_empty, Option-cases, Bool-cases, All,
}
use narshare.Base.Order.{nat_ord, list_ord}
use narshare.Facts.{Bytes}
use narshare.Wire.{Wire, Event}
use narshare.Store.{Db, Clock}
use narshare.Store.Holdings.{IsName}
use narshare.Store.Apply.{clock_at}
use narshare.Index.Messages.{Config, need_snapshot}
use narshare.Index.Apply.{collect, push_event, apply_suffix, is_unexpected}
use narshare.Index.Apply.Collect.{collect_old, collect_next, collect_gap, place}
use narshare.Index.Apply.Replay.{outcome, is_old, is_regenerated, committed, apply_suffix_lem}

-- After `n` the events leave out a number: one of them is beyond the next number, and no earlier one
-- has the number before it.
pub record HasGap (n : ℕ) (events : List Event) : Type 0 where
  pub before : List Event
  pub beyond : Event
  pub after : List Event
  pub split : events ≡ before ++ (beyond ∷ after)
  pub skips : suc n < beyond.seq
  pub missing : All (λ (d : Event). suc d.seq ≢ beyond.seq) before

HasGap-later :
    (m n : ℕ) (d : Event) (events : List Event)
    → HasGap m events
    → n ≤ m
    → d.seq ≤ m
    → HasGap n (d ∷ events)
HasGap-later m n d events g le low = record {
  before = d ∷ g.before;
  beyond = g.beyond;
  after = g.after;
  split = ap (◌∷◌ d) g.split;
  skips = omega (arith, g.skips);
  missing = ((λ e. omega (arith, e, low, g.skips)), g.missing);
}

collect-HasGap :
    (w : Wire) (n : ℕ) (events : List Event) → collect w n events ≡ none → HasGap n events
collect-HasGap w n [] h = unfold collect in cc
collect-HasGap w n (d ∷ events) h = elim (place n d.seq) [
  | inl old ↦
      HasGap-later n n d events (collect-HasGap w n events (sym (collect_old w n d events old) ∙ h))
        (omega arith) old
  | inr (inl next) ↦ elim (Option-cases (collect w d.seq events)) [
    | inl q ↦
        HasGap-later d.seq n d events (collect-HasGap w d.seq events q) (omega (arith, next))
          (omega arith)
    | inr (p, q) ↦ cc (sym (collect_next w n d events next) ∙ h, ap (push_event w d) q)
  ]
  | inr (inr gap) ↦ record {
    before = [];
    beyond = d;
    after = events;
    split = refl;
    skips = gap;
    missing = tt;
  }
]

HasGap-collect :
    (w : Wire) (n : ℕ) (before : List Event) (e : Event) (after : List Event)
    → suc n < e.seq
    → All (λ (d : Event). suc d.seq ≢ e.seq) before
    → collect w n (before ++ (e ∷ after)) ≡ none
HasGap-collect w n [] e after lt all = collect_gap w n e after lt
HasGap-collect w n (d ∷ before) e after lt (ne, all) = elim (place n d.seq) [
  | inl old ↦
      collect_old w n d (before ++ (e ∷ after)) old ∙ HasGap-collect w n before e after lt all
  | inr (inl next) ↦
      collect_next w n d (before ++ (e ∷ after)) next
      ∙ ap (push_event w d)
          (HasGap-collect w d.seq before e after (omega (arith, next, lt, ne)) all)
  | inr (inr gap) ↦ collect_gap w n d (before ++ (e ∷ after)) gap
]

-- Nothing of the origin is known yet.
abbrev pub IsBlank : Clock → Type 0
IsBlank k = (k.generation ≡ 0) × (k.seq ≡ 0)

-- The origin has moved to a new generation since, or numbers are missing.
abbrev pub NeedsSnapshot : Clock → ℕ → List Event → Type 0
NeedsSnapshot k generation events =
    ((k.generation < generation) × (¬ (IsBlank k)))
    ⊎ (((generation ≡ k.generation) ⊎ ((k.generation < generation) × IsBlank k))
        × HasGap k.seq events)

abbrev Asked : Wire → Db → Bytes → ℕ → List Event → Db → Type 0
Asked w db origin generation events next =
    outcome w db origin generation events ≡ (next, need_snapshot)

module _ (w : Wire) (db : Db) (origin : Bytes) (generation : ℕ) (events : List Event) where
  abbrev now : Clock
  now = clock_at db origin

  regenerated :
      is_regenerated now generation ≡ true → (now.generation < generation) × (¬ (IsBlank now))
  regenerated h = ground arith

  committed-need :
      (next : Db)
      → committed w db origin generation (collect w now.seq events) ≡ (next, need_snapshot)
      → (db ≡ next) × HasGap now.seq events
  committed-need next h = elim (Option-cases (collect w now.seq events)) [
    | inl n ↦ (cc (rw n at h), collect-HasGap w now.seq events n)
    | inr (p, n) ↦ elim (Bool-cases (is_empty p.journal)) [
      | inl e ↦ cc (rw (n, e) at h)
      | inr e ↦ cc (rw (n, e) at h)
    ]
  ]

  Asked-need :
      (next : Db)
      → Asked w db origin generation events next
      → (db ≡ next) × NeedsSnapshot now generation events
  Asked-need next h = elim (Bool-cases (is_old now generation)) [
    | inl o ↦ cc (rw o at h)
    | inr o ↦ elim (Bool-cases (is_regenerated now generation)) [
      | inl r ↦ (cc (rw (o, r) at h), inl (regenerated r))
      | inr r ↦ let (k, gap) = committed-need next (rw (o, r) at h) in (k, inr (ground arith, gap))
    ]
  ]

  need-Asked : NeedsSnapshot now generation events → Asked w db origin generation events db
  need-Asked (inl (lt, new)) =
      let o : is_old now generation ≡ false = ground arith in
      let r : is_regenerated now generation ≡ true = ground arith in rw (o, r) refl
  need-Asked (inr (at, gap)) =
      let o : is_old now generation ≡ false = ground arith in
      let r : is_regenerated now generation ≡ false = ground arith in
      rw
        (
          o,
          r,
          gap.split,
          HasGap-collect w now.seq gap.before gap.beyond gap.after gap.skips gap.missing,
        )
        refl

-- Whatever events arrive at whatever generation for an origin that is expected, `apply_suffix` asks
-- for a snapshot exactly when the generation is ahead of the clock's, which is not blank, or it is the
-- clock's, or ahead of a blank one, and the events leave out a number after the clock's. Then the
-- store is as before.
pub apply_suffix-NeedsSnapshot :
    (c : Config) (w : Wire) (db next : Db) (origin : Bytes) (generation : ℕ) (events : List Event)
    → IsName origin
    → is_unexpected c origin ≡ false
    → (apply_suffix c w db origin generation events ≡ ok (next, need_snapshot))
      ↔ ((db ≡ next) × NeedsSnapshot (clock_at db origin) generation events)
apply_suffix-NeedsSnapshot c w db next origin generation events name u =
    let run = apply_suffix_lem c w db origin generation events name u in
    (
      λ h. Asked-need w db origin generation events next (cc (sym run ∙ h)),
      λ (e, n).
          run ∙ ap ok (need-Asked w db origin generation events n ∙ ap (λ x. (x, need_snapshot)) e),
    )
