-- ===== src/Health.antt =====
-- peers.rs: the circuit breaker of a peer. Instants and durations are numbers of one unit; `now` is
-- an argument of every operation.
use narshare.Base.{
  ℕ, suc, ◌+◌, ◌-◌, ◌^◌, ◌≤◌, ◌<◌, ◌≡◌, refl, Bool, true, false, Option, none, some, List, [], ◌∷◌,
  arith, ltb, leb, if◌then◌else◌, min,
}
use narshare.Base.Order.{nat_ord}

pub record Health : Type 0 where
  pub strikes : ℕ
  pub open_until : Option ℕ
  pub opens : ℕ

abbrev pub fresh : Health
fresh = record { strikes = 0; open_until = none; opens = 0 }

-- `is_none_or(|until| now >= until)`
abbrev pub has_passed : ℕ → Option ℕ → Bool
has_passed now none = true
has_passed now (some until) = leb until now

unfoldable pub available : ℕ → Health → Bool
available now h = has_passed now h.open_until

unfoldable pub record_ok : Health → Health
record_ok h = record h { strikes = 0; open_until = none }

abbrev pub u32_max : ℕ
u32_max = 2 ^ 32 - 1

unfoldable pub record_strike : ℕ → ℕ → ℕ → Health → Health
record_strike threshold cooldown now h =
    let strikes = min (h.strikes + 1) u32_max in
    if leb threshold strikes
    then record {
      strikes = strikes;
      open_until = some (now + cooldown);
      opens = if has_passed now h.open_until then h.opens + 1 else h.opens;
    }
    else record h { strikes = strikes }

unfoldable pub open_ms_remaining : ℕ → Option ℕ → Option ℕ
open_ms_remaining now none = none
open_ms_remaining now (some until) = if ltb now until then some (until - now) else none

-- The loop of `soonest_recovery` over the open times of the peers asked about.
unfoldable pub soonest_recovery : ℕ → List (Option ℕ) → Option ℕ → Option ℕ
soonest_recovery now [] soonest = soonest
soonest_recovery now (none ∷ rest) soonest = none
soonest_recovery now (some t ∷ rest) soonest = elim (leb t now) [
  | true ↦ none
  | false ↦ soonest_recovery now rest (some (elim soonest [ none ↦ t | some s ↦ min s t ]))
]

-- Below the threshold a strike leaves the breaker as it is; from the threshold on it keeps the peer
-- away until the cooldown is over, and not longer; a success lets it through at once, and the
-- strikes start again.
pub record_strike-available :
    (threshold cooldown now later : ℕ) (h : Health)
    → threshold ≤ u32_max
    → (suc h.strikes < threshold
        → available later (record_strike threshold cooldown now h) ≡ available later h)
      × (threshold ≤ suc h.strikes
          → available later (record_strike threshold cooldown now h) ≡ leb (now + cooldown) later)
      × (available later (record_ok (record_strike threshold cooldown now h)) ≡ true)
      × ((record_ok (record_strike threshold cooldown now h)).strikes ≡ 0)
unfolding available record_strike record_ok
record_strike-available threshold cooldown now later h top =
    (λ lt. ground arith, λ le. ground arith, refl, refl)
