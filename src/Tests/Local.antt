-- ===== src/Tests/Local.antt =====
-- The differ, the breaker and the retention plan at small examples, and what they compute there.
use narshare.Base.{ℕ, ◌≤◌, ◌<◌, ◌≡◌, refl, true, false, none, List, [], ◌∷◌, arith, leb, ok}
use narshare.Base.Order.{nat_ord, list_ord}
use narshare.Base.Sets.{contains}
use narshare.Facts.{Bytes}
use narshare.Store.{Db}
use narshare.Store.Holdings.{IsMirrored}
use narshare.Store.Apply.{HasRuns}
use narshare.Index.Own.{Candidate, Local, new_attests, is_claimed, sync_own_db}
use narshare.Index.Own.Differ.{sync_own_db-holds}
use narshare.Health.{fresh, available, record_ok, record_strike, record_strike-available}
use narshare.Dedup.{
  fetch, cached, identify, identify_one, id_of, no_keys, reside, residency_step, first_seen, replay,
  not_resident, plan, add_u64, sub_u64,
}
use narshare.Dedup.Budget.{retained, reside-within_budget}
use narshare.Tests.Toy.{toy}
use narshare.Tests.Data.{
  alice, alices, alice-IsName, hash_of, empty_db, empty_db-HasRuns, empty_db-IsMirrored,
}

abbrev unsigned : Candidate
unsigned = record {
  id = 1;
  path = b'/' ∷ b'h' ∷ [];
  nar_hash = hash_of 7;
  nar_size = 10;
  sigs = [];
  ca = none;
}

abbrev here : Local
here = record {
  candidates = unsigned ∷ [];
  references_of = λ id. ok [];
  store_dir = b'/' ∷ [];
  substitutable = λ c. true;
  any_sig_valid = λ a. false;
}

nothing_new : new_attests here (is_claimed []) (unsigned ∷ []) ≡ ok []
unfolding new_attests
nothing_new = refl

sync_own_db-holds_example :
    (next : Db) × (emitted : ℕ) × (sync_own_db alices toy here empty_db ≡ ok (next, emitted))
    × ((h : Bytes) → contains h (next.hold alice) ≡ contains h (hash_of 7 ∷ []))
    × HasRuns next
    × IsMirrored next
sync_own_db-holds_example =
    sync_own_db-holds alices toy here empty_db [] alice-IsName empty_db-HasRuns empty_db-IsMirrored
      nothing_new

record_strike-available_example :
    (1 < 3 → available 50 (record_strike 3 10 45 fresh) ≡ available 50 fresh)
    × (3 ≤ 1 → available 50 (record_strike 3 10 45 fresh) ≡ leb 55 50)
    × (available 50 (record_ok (record_strike 3 10 45 fresh)) ≡ true)
    × ((record_ok (record_strike 3 10 45 fresh)).strikes ≡ 0)
record_strike-available_example = record_strike-available 3 10 45 50 fresh (omega arith)

abbrev segments : List (Bytes × ℕ)
segments = (7 ∷ [], 4) ∷ (1 ∷ [], 4) ∷ (7 ∷ [], 4) ∷ (2 ∷ [], 4) ∷ (7 ∷ [], 4) ∷ []

-- The first test of the source: duplicates replay when they fit.
plan_fits : plan segments 100 ≡ fetch 0 2 ∷ fetch 1 0 ∷ cached 0 ∷ fetch 2 0 ∷ cached 0 ∷ []
unfolding plan identify identify_one id_of reside residency_step first_seen replay add_u64 sub_u64
plan_fits = refl

-- With no budget everything is fetched.
plan_without_budget :
    plan segments 0 ≡ fetch 0 0 ∷ fetch 1 0 ∷ fetch 0 0 ∷ fetch 2 0 ∷ fetch 0 0 ∷ []
unfolding plan identify identify_one id_of reside residency_step first_seen replay add_u64 sub_u64
plan_without_budget = refl

reside-within_budget_example :
    ((reside
        (identify 0 segments no_keys)
        100
        0
        (0 ∷ 1 ∷ [])
        (not_resident (identify 0 segments no_keys))).resident_bytes
      ≡ retained
          (reside
            (identify 0 segments no_keys)
            100
            0
            (0 ∷ 1 ∷ [])
            (not_resident (identify 0 segments no_keys))).resident
          (identify 0 segments no_keys).size_of)
    × ((reside
          (identify 0 segments no_keys)
          100
          0
          (0 ∷ 1 ∷ [])
          (not_resident (identify 0 segments no_keys))).resident_bytes
        ≤ 100)
reside-within_budget_example =
    reside-within_budget segments 100 (0 ∷ 1 ∷ []) (omega arith)
      (omega arith, (omega arith, (omega arith, (omega arith, (omega arith, tt)))))
