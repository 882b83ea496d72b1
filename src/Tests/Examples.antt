-- ===== src/Tests/Examples.antt =====
-- The theorems on the index at the example stores.
use narshare.Base.{
  ◌↔◌, ℕ, ◌+◌, ◌<◌, ◌≡◌, refl, ◌&&◌, ◌==◌, Bool, false, List, [], ◌∷◌, arith, length, ok,
}
use narshare.Base.Order.{nat_ord, list_ord}
use narshare.Base.Sets.{same, contains, canon, sort, dedup}
use narshare.Facts.{Bytes}
use narshare.Wire.{Event}
use narshare.Store.{Db}
use narshare.Store.Holdings.{IsMirrored, held_after}
use narshare.Store.Apply.{clock_at, HasRuns}
use narshare.Index.Messages.{need_snapshot, applied, origin_set, is_known_origin}
use narshare.Index.Apply.{apply_suffix, apply_snapshot, is_unexpected}
use narshare.Index.Apply.Collect.{EventRun, all_holds}
use narshare.Index.Apply.Repeat.{apply_suffix_again, apply_suffix-invariants}
use narshare.Index.Apply.Gap.{NeedsSnapshot, apply_suffix-NeedsSnapshot}
use narshare.Index.Apply.Connect.{arrived, apply_suffix_connects}
use narshare.Index.Apply.Snapshot.{after_snapshot, apply_snapshot-replaces}
use narshare.Index.Respond.{respond_origin, theirs}
use narshare.Index.Exchange.{behind_update, respond-apply_suffix}
use narshare.Index.Reach.{here, there, suffix_in, Reach-invariants}
use narshare.Tests.Toy.{toy}
use narshare.Tests.Data.{
  alice, bobs, alice-IsName, hash_of, empty_db, empty_db-HasRuns, empty_db-IsMirrored, first,
  second, third, two_db, fresh_db, ask, no_answer,
}

bobs_expects_alice : is_unexpected bobs alice ≡ false
unfolding is_known_origin origin_set canon sort dedup contains
bobs_expects_alice = refl

line_of_ask : theirs ask.have alice (0, 0) ≡ (5, 0)
unfolding theirs
line_of_ask = refl

not_skipped : contains alice ask.skip_origins ≡ false
unfolding contains
not_skipped = refl

respond-apply_suffix_example :
    (events : List Event) × (truncated : Bool) × (used : ℕ) × (next : Db) × (respond_origin toy
        two_db ask 100 alice no_answer
      ≡ ok (behind_update alice two_db truncated events no_answer used))
    × (apply_suffix bobs toy fresh_db alice 5 events ≡ ok (next, applied (length events)))
    × (0 < length events)
    × ((clock_at next alice).generation ≡ 5)
    × ((clock_at next alice).seq ≡ 0 + length events)
    × (truncated ≡ false → (clock_at next alice).seq ≡ 2)
respond-apply_suffix_example =
    respond-apply_suffix toy two_db ask 100 0 alice no_answer alice-IsName line_of_ask (omega arith)
      (omega arith) (omega arith) (omega arith) not_skipped (refl, (refl, refl))
      ((first, refl, refl), ((second, refl, refl), tt)) (omega arith) bobs fresh_db
      bobs_expects_alice refl refl

three_run : EventRun 0 (first ∷ second ∷ third ∷ []) 3
three_run = (refl, (refl, (refl, refl)))

abbrev caught_up : Db
caught_up = arrived toy fresh_db alice 3 first (second ∷ third ∷ []) three_run

apply_suffix_connects_example :
    (apply_suffix bobs toy fresh_db alice 5 (first ∷ second ∷ third ∷ [])
      ≡ ok (caught_up, applied 3))
    × (clock_at caught_up alice ≡ record { generation = 5; seq = 3; tail_seq = 0 })
    × ((h : Bytes)
        → contains h (caught_up.hold alice)
          ≡ held_after (contains h []) h (all_holds (first ∷ second ∷ third ∷ [])))
    × ((o : Bytes)
        → same o alice ≡ false
        → (clock_at caught_up o ≡ clock_at fresh_db o)
          × ((h : Bytes) → contains h (caught_up.hold o) ≡ contains h (fresh_db.hold o)))
apply_suffix_connects_example =
    apply_suffix_connects toy fresh_db alice 3 first (second ∷ third ∷ []) three_run bobs
      alice-IsName bobs_expects_alice

-- The node has nothing of this origin's first event.
apply_suffix-NeedsSnapshot_example :
    (apply_suffix bobs toy fresh_db alice 5 (second ∷ third ∷ []) ≡ ok (fresh_db, need_snapshot))
    ↔ ((fresh_db ≡ fresh_db) × NeedsSnapshot (clock_at fresh_db alice) 5 (second ∷ third ∷ []))
apply_suffix-NeedsSnapshot_example =
    apply_suffix-NeedsSnapshot bobs toy fresh_db fresh_db alice 5 (second ∷ third ∷ []) alice-IsName
      bobs_expects_alice

three_applied :
    apply_suffix bobs toy fresh_db alice 5 (first ∷ second ∷ third ∷ []) ≡ ok (caught_up, applied 3)
three_applied =
    (apply_suffix_connects toy fresh_db alice 3 first (second ∷ third ∷ []) three_run bobs
      alice-IsName bobs_expects_alice).0

apply_suffix_again_example :
    apply_suffix bobs toy caught_up alice 5 (first ∷ second ∷ third ∷ [])
    ≡ ok (caught_up, applied 0)
apply_suffix_again_example =
    apply_suffix_again bobs toy fresh_db caught_up alice 5 (first ∷ second ∷ third ∷ []) 3
      alice-IsName three_applied

abbrev zero_up : Db
zero_up = arrived toy empty_db alice 3 first (second ∷ third ∷ []) three_run

zero_applied :
    apply_suffix bobs toy empty_db alice 0 (first ∷ second ∷ third ∷ []) ≡ ok (zero_up, applied 3)
zero_applied =
    (apply_suffix_connects toy empty_db alice 3 first (second ∷ third ∷ []) three_run bobs
      alice-IsName bobs_expects_alice).0

apply_suffix-invariants_example : HasRuns zero_up × IsMirrored zero_up
apply_suffix-invariants_example =
    apply_suffix-invariants bobs toy empty_db zero_up alice 0 (first ∷ second ∷ third ∷ [])
      (applied 3) alice-IsName empty_db-HasRuns empty_db-IsMirrored zero_applied

Reach-invariants_example : HasRuns zero_up × IsMirrored zero_up
Reach-invariants_example =
    Reach-invariants bobs toy empty_db zero_up
      (there here
        (suffix_in alice 0 (first ∷ second ∷ third ∷ []) (applied 3) alice-IsName zero_applied))
      empty_db-HasRuns empty_db-IsMirrored

abbrev copied : Db
copied =
    after_snapshot bobs two_db alice 5 9 (hash_of 3 ∷ (1 ∷ []) ∷ []) alice-IsName bobs_expects_alice

apply_snapshot-replaces_example :
    (apply_snapshot bobs two_db alice 5 9 (hash_of 3 ∷ (1 ∷ []) ∷ []) ≡ ok (copied, 1))
    × ((h : Bytes)
        → contains h (copied.hold alice)
          ≡ ((length h == 32) && contains h (hash_of 3 ∷ (1 ∷ []) ∷ [])))
    × (clock_at copied alice ≡ record { generation = 5; seq = 9; tail_seq = 9 })
    × ((o : Bytes)
        → same o alice ≡ false
        → (clock_at copied o ≡ clock_at two_db o)
          × ((h : Bytes) → contains h (copied.hold o) ≡ contains h (two_db.hold o)))
apply_snapshot-replaces_example =
    apply_snapshot-replaces bobs two_db alice 5 9 (hash_of 3 ∷ (1 ∷ []) ∷ []) alice-IsName
      bobs_expects_alice refl
