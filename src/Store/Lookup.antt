-- ===== src/Store/Lookup.antt =====
-- store/rocks.rs: the lookups of the substituter and of the differ.
use narshare.Base.{
  Option, none, some, List, [], ◌∷◌, ◌++◌, ◌==◌, if◌then◌else◌, length, drop, is_empty,
}
use narshare.Base.Order.{nat_ord, list_ord}
use narshare.Base.Keys.{get}
use narshare.Facts.{Bytes, Attestation}
use narshare.Facts.Table.{att_at}
use narshare.Store.{Db}
use narshare.Store.Pages.{starts_with}

-- `scan`: the rows under a prefix, in key order. For a prefix of 32 bytes `scan_prefix32` gives the
-- same rows.
unfoldable pub scan : Bytes → List (Bytes × Bytes) → List (Bytes × Bytes)
scan prefix [] = []
scan prefix ((k, v) ∷ rows) =
    let rest = scan prefix rows in if starts_with prefix k then (k, v) ∷ rest else rest

abbrev cons_found : Option Attestation → List Attestation → List Attestation
cons_found none rows = rows
cons_found (some a) rows = a ∷ rows

-- The facts that index entries address, `path_key` being read off each entry's key.
unfoldable pub facts_at : Db → (Bytes → Bytes) → List (Bytes × Bytes) → List Attestation
facts_at db path_key [] = []
facts_at db path_key ((k, h) ∷ entries) =
    cons_found (att_at db.facts h (path_key k)) (facts_at db path_key entries)

-- `holders_of` with nobody excluded, and `lookup_atts`: facts that nobody holds are left out.
unfoldable pub lookup_atts : Db → List Attestation → List (Attestation × List Bytes)
lookup_atts db [] = []
lookup_atts db (a ∷ rows) =
    let rest = lookup_atts db rows in
    if length a.nar_hash == 32
    then (if is_empty (db.holdby a.nar_hash) then rest else (a, db.holdby a.nar_hash) ∷ rest)
    else rest

unfoldable pub lookup_hash_part : Db → Bytes → List (Attestation × List Bytes)
lookup_hash_part db hash_part =
    lookup_atts db (facts_at db (λ k. k) (scan hash_part db.facts.att_path))

-- The index by NAR hash has the parts of the path key in the other order.
unfoldable pub lookup_nar_hash : Db → Bytes → List (Attestation × List Bytes)
lookup_nar_hash db nar_hash =
    lookup_atts db (facts_at db (λ k. drop 32 k ++ nar_hash) (scan nar_hash db.facts.att_nar))

abbrev sigs_of : Option Attestation → Option (List Bytes)
sigs_of none = none
sigs_of (some a) = some a.sigs

abbrev sigs_at : Db → Bytes → Option Bytes → Option (List Bytes)
sigs_at db path_key none = none
sigs_at db path_key (some h) = sigs_of (att_at db.facts h path_key)

unfoldable pub attestation_sigs : Db → Bytes → Bytes → Option (List Bytes)
attestation_sigs db hash_part nar_hash =
    sigs_at db (hash_part ++ nar_hash) (get (hash_part ++ nar_hash) db.facts.att_path)
