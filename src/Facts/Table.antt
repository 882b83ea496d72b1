-- ===== src/Facts/Table.antt =====
-- store/rocks.rs: the fact tables `att`, `att_path` and `att_nar`, and `merge_atts`.
use narshare.Base.{
  ℕ, ◌+◌, Bool, false, Option, none, some, List, [], ◌∷◌, ◌++◌, ◌==◌, if◌then◌else◌, length,
}
use narshare.Base.Order.{nat_ord, list_ord}
use narshare.Base.Sets.{same}
use narshare.Base.Keys.{get, put, delete}
use narshare.Facts.{Bytes, Attestation, path_key_of, hash_part_of, merge_into}
use narshare.Merkle.{Aggregates, xor_all}
use narshare.Wire.{Wire, attestation_hash}

-- The column families, by key: `att` by hash and path key, `att_path` by path key, `att_nar` by
-- NAR hash and hash part; and the aggregates derived from `att_path`.
pub record Tables : Type 0 where
  pub att : List (Bytes × Attestation)
  pub att_path : List (Bytes × Bytes)
  pub att_nar : List (Bytes × Bytes)
  pub agg : Aggregates

abbrev pub att_key : Bytes → Bytes → Bytes
att_key hash path_key = hash ++ path_key

unfoldable pub nar_key : Attestation → Bytes
unfolding hash_part_of
nar_key att = att.nar_hash ++ hash_part_of att.store_path

-- `att_at`: the fact that an index entry addresses.
abbrev pub att_at : Tables → Bytes → Bytes → Option Attestation
att_at t hash path_key = get (att_key hash path_key) t.att

-- Repeated identities of one call are merged before the table is read: one row for each path key,
-- in order of first appearance.
unfoldable pub update :
    Bytes → Attestation → List (Bytes × Attestation) → List (Bytes × Attestation)
update key a [] = []
update key a ((k, b) ∷ rows) = if same key k then (k, a) ∷ rows else (k, b) ∷ update key a rows

-- One attestation of the incoming list, against the rows so far.
unfoldable pub coalesce_one : List (Bytes × Attestation) → Attestation → List (Bytes × Attestation)
unfolding update
coalesce_one rows incoming =
    let key = path_key_of incoming in
    if length incoming.nar_hash == 32
    then elim (get key rows) [
      | some old ↦ elim (merge_into (some old) incoming) [
        | some merged ↦ update key merged rows
        | none ↦ rows
      ]
      | none ↦ elim (merge_into none incoming) [
        | some fresh ↦ rows ++ ((key, fresh) ∷ [])
        | none ↦ rows
      ]
    ]
    else rows

unfoldable pub coalesce : List (Bytes × Attestation) → List Attestation → List (Bytes × Attestation)
coalesce rows [] = rows
coalesce rows (a ∷ atts) = coalesce (coalesce_one rows a) atts

-- The batch under construction: the tables as they will be, the hashes that leave or enter the
-- tree, and the count of changed facts.
pub record Batch : Type 0 where
  pub tables : Tables
  pub delta : List Bytes
  pub changed : ℕ

abbrev remove_old : Option Bytes → Bytes → Batch → Batch
remove_old none key b = b
remove_old (some old_hash) key b = record b {
  tables = record (b.tables) { att = delete (att_key old_hash key) b.tables.att };
  delta = b.delta ++ (old_hash ∷ []);
}

unfoldable pub write_fact : Wire → Bytes → Attestation → Option Bytes → Batch → Batch
write_fact w key merged old_hash b =
    let new_hash = attestation_hash w merged in
    let c = remove_old old_hash key b in
    record {
      tables = record (c.tables) {
        att = put (att_key new_hash key) merged c.tables.att;
        att_path = put key new_hash c.tables.att_path;
        att_nar = put (nar_key merged) new_hash c.tables.att_nar;
      };
      delta = c.delta ++ (new_hash ∷ []);
      changed = c.changed + 1;
    }

abbrev same_hash : Option Bytes → Bytes → Bool
same_hash none h = false
same_hash (some old) h = same old h

abbrev existing_at : Tables → Option Bytes → Bytes → Option Attestation
existing_at db none key = none
existing_at db (some hash) key = att_at db hash key

-- One coalesced row. The reads are from `db`, the tables before the batch.
unfoldable pub merge_row : Wire → Tables → Batch → Bytes × Attestation → Batch
unfolding write_fact
merge_row w db b (key, incoming) =
    let old_hash = get key db.att_path in
    elim (merge_into (existing_at db old_hash key) incoming) [
      | none ↦ b
      | some merged ↦
          if same_hash old_hash (attestation_hash w merged)
          then b
          else write_fact w key merged old_hash b
    ]

unfoldable pub merge_rows : Wire → Tables → Batch → List (Bytes × Attestation) → Batch
merge_rows w db b [] = b
merge_rows w db b (row ∷ rows) = merge_rows w db (merge_row w db b row) rows

unfoldable pub merge_atts : Wire → Tables → List Attestation → Batch
merge_atts w db attests =
    merge_rows w db (record { tables = db; delta = []; changed = 0 }) (coalesce [] attests)

-- `commit_with_delta`: the rows, and then the aggregates.
unfoldable pub commit_with_delta : Batch → Tables
commit_with_delta b = record (b.tables) { agg = xor_all b.tables.agg b.delta }
