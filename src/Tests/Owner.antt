-- ===== src/Tests/Owner.antt =====
-- The theorems on a node's own exports and on maintenance, at the example stores.
use narshare.Base.{
  ℕ, ◌+◌, ◌-◌, ◌≤◌, ◌<◌, ◌≡◌, refl, true, false, Option, none, some, List, [], ◌∷◌, ◌++◌, max, All,
  ok,
}
use narshare.Base.Order.{nat_ord, list_ord}
use narshare.Base.Sets.{same, contains, canon, sort, dedup}
use narshare.Facts.{Bytes}
use narshare.Store.{Db, HoldOp, add, drop_hash, meta_get, seq_or_zero, u64_max}
use narshare.Store.Holdings.{IsName, IsMirrored, held_after}
use narshare.Wire.{Event}
use narshare.Store.Journal.{Row, values}
use narshare.Store.Apply.{clock_at, HasRuns}
use narshare.Index.Messages.{decode_all, applied, origin_set, is_known_origin}
use narshare.Index.Apply.{apply_suffix, is_unexpected}
use narshare.Index.Export.{att, hold, export_ops}
use narshare.Index.Export.Commit.{rows_after, ops_of, export_ops-commits}
use narshare.Index.Export.Follow.{export_ops-apply_suffix}
use narshare.Index.Maintain.{
  Text, compact_floor, compact, dump_cursor, dump_restart, self_generation_key,
  bump_self_generation,
}
use narshare.Index.Maintain.Compact.{compact-keeps, compact_floor-bounds}
use narshare.Index.Maintain.Remint.{bump_self_generation-restarts}
use narshare.Tests.Toy.{toy}
use narshare.Tests.Data.{
  alice, bob, alices, bobs, alice-IsName, bob-IsName, hash_of, empty_db, empty_db-HasRuns,
  empty_db-IsMirrored, hello,
}

bobs_expects_alice : is_unexpected bobs alice ≡ false
unfolding is_known_origin origin_set canon sort dedup contains
bobs_expects_alice = refl

abbrev grown : List HoldOp
grown = add (hash_of 7) ∷ add (hash_of 9) ∷ drop_hash (hash_of 7) ∷ []

export_ops-commits_example :
    (next : Db) × (export_ops alices toy empty_db (hello ∷ []) grown ≡ ok (next, 4))
    × (clock_at next alice ≡ record { generation = 0; seq = 0 + 4; tail_seq = 0 })
    × ((h : Bytes) → contains h (next.hold alice) ≡ held_after (contains h []) h grown)
    × ((o : Bytes)
        → same o alice ≡ false
        → (clock_at next o ≡ clock_at empty_db o)
          × ((h : Bytes) → contains h (next.hold o) ≡ contains h []))
    × HasRuns next
    × IsMirrored next
    × (next.journal alice ≡ [] ++ rows_after toy 0 (ops_of (hello ∷ []) grown))
export_ops-commits_example =
    export_ops-commits alices toy empty_db (hello ∷ []) grown alice-IsName empty_db-HasRuns
      empty_db-IsMirrored

export_ops-apply_suffix_example :
    (next : Db) × (follower : Db) × (rows : List Row) × (events : List Event) × (export_ops alices
        toy empty_db
        (hello ∷ [])
        grown
      ≡ ok (next, 4))
    × (next.journal alice ≡ [] ++ rows)
    × (decode_all toy (values rows) ≡ ok events)
    × (apply_suffix bobs toy empty_db alice 0 events ≡ ok (follower, applied 4))
    × ((clock_at follower alice).generation ≡ (clock_at next alice).generation)
    × ((clock_at follower alice).seq ≡ (clock_at next alice).seq)
    × ((h : Bytes) → contains h (follower.hold alice) ≡ contains h (next.hold alice))
export_ops-apply_suffix_example =
    export_ops-apply_suffix alices bobs toy empty_db empty_db (att hello)
      (hold (add (hash_of 7)) ∷ hold (add (hash_of 9)) ∷ hold (drop_hash (hash_of 7)) ∷ [])
      (hello ∷ []) grown alice-IsName empty_db-HasRuns empty_db-IsMirrored refl
      (refl, (refl, (refl, tt))) bobs_expects_alice refl refl (λ h. refl)

origins_of_alice : All IsName (origin_set alices)
unfolding origin_set canon sort dedup
origins_of_alice = (alice-IsName, (bob-IsName, tt))

compact-keeps_example :
    (next : Db) × (compact alices empty_db ≡ ok next)
    × ((o : Bytes) → (clock_at next o).seq ≡ 0)
    × ((o : Bytes) → (clock_at next o).generation ≡ 0)
    × ((o : Bytes) → (clock_at next o).tail_seq ≤ max 0 (compact_floor alices empty_db o 0))
    × (next.hold ≡ empty_db.hold)
    × (next.holdby ≡ empty_db.holdby)
    × HasRuns next
compact-keeps_example = compact-keeps alices empty_db origins_of_alice empty_db-HasRuns

compact_floor-bounds_example :
    (compact_floor alices empty_db alice 60000 ≤ 60000)
    × (60000 ≤ compact_floor alices empty_db alice 60000 + 50000)
    × All
        (λ (peer : Bytes).
          compact_floor alices empty_db alice 60000
          ≤ max (seq_or_zero (empty_db.wm peer alice)) (60000 - 50000))
        (bob ∷ [])
compact_floor-bounds_example = compact_floor-bounds alices empty_db alice 60000

abbrev toy_parse : Bytes → Option ℕ
toy_parse [] = none
toy_parse (n ∷ s) = some n

abbrev toy_text : Text
toy_text = record {
  to_string = λ n. n ∷ [];
  parse = toy_parse;
  hex_encode = λ s. s;
  hex_decode = λ s. some s;
  parse-to_string = λ n. refl;
  hex_decode-encode = λ s. refl;
}

bump_self_generation-restarts_example :
    (next : Db) × (g : ℕ) × (bump_self_generation alices toy_text empty_db 3 8 ≡ ok (next, g))
    × (8 < u64_max → 8 < g)
    × (u64_max ≤ 8 → g ≡ max 3 u64_max)
    × (3 ≤ g)
    × (clock_at next alice ≡ record { generation = g; seq = 0; tail_seq = 0 })
    × (meta_get next self_generation_key ≡ some (g ∷ []))
    × ((peer : Bytes)
        → contains peer (bob ∷ []) ≡ true
        → dump_cursor toy_text next peer ≡ dump_restart)
bump_self_generation-restarts_example =
    bump_self_generation-restarts alices toy_text empty_db 3 8 alice-IsName
