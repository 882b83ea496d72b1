-- ===== src/Index/Apply/Connect.antt =====
-- index.rs: `apply_suffix` of a suffix that starts right after what the node has.
use narshare.Base.{ℕ, suc, ◌≡◌, refl, ap, ◌∙◌, false, List, [], ◌∷◌, arith, length, ok}
use narshare.Base.Order.{nat_ord, list_ord}
use narshare.Base.Sets.{same, same_self, contains}
use narshare.Facts.{Bytes}
use narshare.Wire.{Wire, Event}
use narshare.Store.{Db}
use narshare.Store.Holdings.{IsName, held_after}
use narshare.Store.Apply.{clock_at, applied as commit, applied-clock, applied-hold}
use narshare.Index.Messages.{Config, applied}
use narshare.Index.Apply.{apply_suffix, is_unexpected}
use narshare.Index.Apply.Collect.{EventRun, collect-EventRun, rows_of, all_holds, all_attests}
use narshare.Index.Apply.Replay.{outcome, apply_suffix_lem}

length-rows_of : (w : Wire) (events : List Event) → length (rows_of w events) ≡ length events
length-rows_of w [] = refl
length-rows_of w (e ∷ events) = ap suc (length-rows_of w events)

module _ (w : Wire) (db : Db) (origin : Bytes) (b : ℕ) (e : Event) (events : List Event)
    (run : EventRun (clock_at db origin).seq (e ∷ events) b) where
  abbrev pub arrived : Db
  arrived =
      commit w db origin ((clock_at db origin).generation, b) (rows_of w (e ∷ events))
        (all_holds (e ∷ events)) (all_attests (e ∷ events))

  outcome_run :
      outcome w db origin (clock_at db origin).generation (e ∷ events)
      ≡ (arrived, applied (length (e ∷ events)))
  outcome_run =
      rw (collect-EventRun w (clock_at db origin).seq b (e ∷ events) run, length-rows_of w events)
        (ground arith)

  -- All of it is applied: the clock moves to its end and its generation stays, and a hash is held as
  -- the last event on it says, or as before. No other origin changes.
  pub apply_suffix_connects :
      (c : Config)
      → IsName origin
      → is_unexpected c origin ≡ false
      → (apply_suffix c w db origin (clock_at db origin).generation (e ∷ events)
          ≡ ok (arrived, applied (length (e ∷ events))))
        × (clock_at arrived origin ≡ record {
          generation = (clock_at db origin).generation;
          seq = b;
          tail_seq = (clock_at db origin).tail_seq;
        })
        × ((h : Bytes)
            → contains h (arrived.hold origin)
              ≡ held_after (contains h (db.hold origin)) h (all_holds (e ∷ events)))
        × ((o : Bytes)
            → same o origin ≡ false
            → (clock_at arrived o ≡ clock_at db o)
              × ((h : Bytes) → contains h (arrived.hold o) ≡ contains h (db.hold o)))
  apply_suffix_connects c name u = (
    apply_suffix_lem c w db origin (clock_at db origin).generation (e ∷ events) name u
        ∙ ap ok outcome_run,
    applied-clock w db origin _ _ _ _ origin ∙ rw (same_self origin) refl,
    λ h. applied-hold w db origin _ _ _ _ origin h ∙ rw (same_self origin) refl,
    λ o d. (
      applied-clock w db origin _ _ _ _ o ∙ rw d refl,
      λ h. applied-hold w db origin _ _ _ _ o h ∙ rw d refl,
    ),
  )
