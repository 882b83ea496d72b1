-- ===== src/Index/Own.antt =====
-- index.rs: the differ, `sync_own_db` and `sync_own_db_incremental`, and the lookups.
use narshare.Base.{
  ℕ, ◌≡◌, Bool, true, false, not, ◌&&◌, ◌||◌, Option, none, some, List, [], ◌∷◌, ◌++◌, map,
  if◌then◌else◌, length, drop, keep_if, is_empty, is_some, Result, ok, err, ◌>>=◌,
}
use narshare.Base.Order.{nat_ord, list_ord}
use narshare.Base.Sets.{same, contains, all_contained, canon}
use narshare.Facts.{Bytes, Attestation, hash_part_of}
use narshare.Wire.{Wire}
use narshare.Store.{Db, HoldOp, add, drop_hash, holdings, is_held}
use narshare.Store.Pages.{starts_with}
use narshare.Store.Lookup.{lookup_hash_part, lookup_nar_hash, attestation_sigs}
use narshare.Index.Messages.{Config, well_formed}
use narshare.Index.Export.{export_ops}
pub mod Differ

-- `db::Candidate`: a valid path of the local Nix database.
pub record Candidate : Type 0 where
  pub id : ℕ
  pub path : Bytes
  pub nar_hash : Bytes
  pub nar_size : ℕ
  pub sigs : List Bytes
  pub ca : Option Bytes

-- What is read outside the index: the rows of the Nix database, the deriver's verdict on
-- substitution, and whether a trusted key has signed.
pub record Local : Type 0 where
  pub candidates : List Candidate
  pub references_of : ℕ → Result (List Bytes)
  pub store_dir : Bytes
  pub substitutable : Candidate → Bool
  pub any_sig_valid : Attestation → Bool

-- Well formed, and content-addressed or signed by a trusted key.
unfoldable pub feasible : Local → Attestation → Bool
feasible l a = well_formed a && (not (is_empty a.ca) || l.any_sig_valid a)

-- narinfo.rs: the path with the store's directory and a slash taken off the front.
abbrev strip_slash : Bytes → Bytes → Bytes
strip_slash path [] = path
strip_slash path (c ∷ rest) = if starts_with (b'/' ∷ []) (c ∷ rest) then rest else path

unfoldable pub basename : Bytes → Bytes → Bytes
basename path store_dir =
    if starts_with store_dir path then strip_slash path (drop (length store_dir) path) else path

abbrev or_empty : Option Bytes → Bytes
or_empty none = []
or_empty (some s) = s

-- The attestation of a candidate, with its references.
unfoldable pub attestation_of : Local → Candidate → List Bytes → Attestation
attestation_of l c refs = record {
  store_path = c.path;
  nar_hash = c.nar_hash;
  nar_size = c.nar_size;
  references = map (λ r. basename r l.store_dir) refs;
  ca = or_empty c.ca;
  sigs = c.sigs;
}

-- Nobody could believe it: neither content-addressed nor signed.
abbrev pub is_bare : Candidate → Bool
is_bare c = not (is_some c.ca) && is_empty c.sigs

-- A fact about the candidate with at least its signatures is in the table, by `for_each_claim`. The
-- index `cand_ix` finds a candidate by path and hash, which the Nix database has once each.
unfoldable pub is_claimed : List (Bytes × Attestation) → Candidate → Bool
is_claimed [] c = false
is_claimed ((k, a) ∷ rows) c =
    (same a.store_path c.path && same a.nar_hash c.nar_hash && all_contained c.sigs a.sigs)
    || is_claimed rows c

abbrev cons_if : Bool → Attestation → List Attestation → List Attestation
cons_if b a atts = if b then a ∷ atts else atts

-- The new attestations, `known` deciding which candidates have a fact already.
unfoldable pub new_attests : Local → (Candidate → Bool) → List Candidate → Result (List Attestation)
new_attests l known [] = ok []
new_attests l known (c ∷ cands) = elim (is_bare c || known c || not (l.substitutable c)) [
  | true ↦ new_attests l known cands
  | false ↦ l.references_of c.id >>= λ refs. new_attests l known cands >>= λ rest.
      ok (cons_if (feasible l (attestation_of l c refs)) (attestation_of l c refs) rest)
]

abbrev pub hashes_of : List Candidate → List Bytes
hashes_of [] = []
hashes_of (c ∷ cands) = c.nar_hash ∷ hashes_of cands

-- What is held and not yet exported is added, what is exported and no longer held is dropped.
unfoldable pub own_holds : List Bytes → List Bytes → List HoldOp
own_holds local held =
    map add (keep_if (λ h. not (contains h held)) (canon local))
    ++ map drop_hash (keep_if (λ h. not (contains h local)) held)

unfoldable pub export_if_any : Config → Wire → Db → List Attestation → List HoldOp → Result (Db × ℕ)
export_if_any c w db attests holds =
    if is_empty attests && is_empty holds then ok (db, 0) else export_ops c w db attests holds

unfoldable pub sync_own_db : Config → Wire → Local → Db → Result (Db × ℕ)
sync_own_db c w l db = do
  held ← holdings db c.self_name
  attests ← new_attests l (is_claimed db.facts.att) l.candidates
  export_if_any c w db attests (own_holds (hashes_of l.candidates) held)

-- The additions pass: the hashes of the candidates that are not held, each once.
unfoldable pub new_holds : Config → Db → List Bytes → List Candidate → Result (List HoldOp)
new_holds c db seen [] = ok []
new_holds c db seen (cand ∷ cands) = do
  held ← is_held db c.self_name cand.nar_hash
  rest ← new_holds c db (cand.nar_hash ∷ seen) cands
  ok (if contains cand.nar_hash seen || held then rest else add cand.nar_hash ∷ rest)

abbrev has_all : List Bytes → Option (List Bytes) → Bool
has_all sigs none = false
has_all sigs (some known) = all_contained sigs known

abbrev is_known : Db → Candidate → Bool
is_known db c = has_all c.sigs (attestation_sigs db (hash_part_of c.path) c.nar_hash)

unfoldable pub sync_own_db_incremental :
    Config → Wire → Local → Db → List Candidate → Result (Db × ℕ)
sync_own_db_incremental c w l db [] = ok (db, 0)
sync_own_db_incremental c w l db (cand ∷ cands) = do
  holds ← new_holds c db [] (cand ∷ cands)
  attests ← new_attests l (is_known db) (cand ∷ cands)
  export_ops c w db attests holds

-- `Index::lookup_hash_part` and `lookup_nar_hash`: only what is feasible now is served.
unfoldable pub found : Local → List (Attestation × List Bytes) → List (Attestation × List Bytes)
found l [] = []
found l ((a, holders) ∷ rows) =
    let rest = found l rows in if feasible l a then (a, holders) ∷ rest else rest

unfoldable pub find_hash_part : Local → Db → Bytes → List (Attestation × List Bytes)
find_hash_part l db hash_part = found l (lookup_hash_part db hash_part)

unfoldable pub find_nar_hash : Local → Db → Bytes → List (Attestation × List Bytes)
find_nar_hash l db nar_hash = found l (lookup_nar_hash db nar_hash)
