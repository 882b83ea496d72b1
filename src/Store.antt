-- ===== src/Store.antt =====
-- store/mod.rs (`SyncStore`) and its embedded backend store/rocks.rs: clocks, journals, possession
-- and watermarks. The state is the logical schema of store/mod.rs: one ordered map for each column
-- family, the row prefix `okey(origin)` turned into an argument. A write batch is atomic, the
-- locks make each call atomic, and the database's own failures are not modelled.
pub mod Holdings
pub mod Journal
pub mod Apply
pub mod Replace
pub mod Pages
pub mod Lookup
use narshare.Base.{
  ℕ, zero, suc, ◌+◌, ◌-◌, ◌^◌, ◌≡◌, Bool, true, false, not, ◌&&◌, ◌||◌, Option, none, some, List,
  [], ◌∷◌, ◌++◌, map, ◌==◌, ltb, leb, if◌then◌else◌, length, take, drop, min, keep_if, is_empty,
  is_some, Result, ok, err, ◌>>=◌, ◌>>◌, bail_if, origin_name_length,
}
use narshare.Base.Order.{nat_ord, list_ord}
use narshare.Base.Sets.{same, contains, canon}
use narshare.Base.Keys.{put, get, put_key, delete_key}
use narshare.Facts.{Bytes, Attestation}
use narshare.Facts.Table.{Tables, merge_atts, commit_with_delta}
use narshare.Wire.{Wire}

pub record Clock : Type 0 where
  pub generation : ℕ
  pub seq : ℕ
  pub tail_seq : ℕ

abbrev pub zero_clock : Clock
zero_clock = record { generation = 0; seq = 0; tail_seq = 0 }

pub data HoldOp : Type 0 where
  add drop_hash : Bytes → HoldOp

pub record Db : Type 0 where
  pub meta : List (Bytes × Bytes)
  pub clocks : Bytes → Option Clock
  pub journal : Bytes → List (ℕ × Bytes)
  pub hold : Bytes → List Bytes
  pub holdby : Bytes → List Bytes
  pub wm : Bytes → Bytes → Option ℕ
  pub facts : Tables

-- The table with one key's value replaced.
abbrev pub at_key {ℓ} : {V : Type ℓ} → (Bytes → V) → Bytes → V → Bytes → V
at_key f k v j = if same j k then v else f j

-- The check of `okey`.
unfoldable pub okey : Bytes → Result (Unit {0})
okey origin = bail_if (ltb 255 (length origin) || is_empty origin) origin_name_length

abbrev pub clock_or_zero : Option Clock → Clock
clock_or_zero none = zero_clock
clock_or_zero (some c) = c

unfoldable pub clock : Db → Bytes → Result Clock
clock db origin = okey origin >> ok (clock_or_zero (db.clocks origin))

unfoldable pub put_clock : Db → Bytes → Clock → Db
put_clock db origin c = record db { clocks = at_key db.clocks origin (some c) }

unfoldable pub meta_get : Db → Bytes → Option Bytes
meta_get db key = get key db.meta

unfoldable pub meta_put : Db → Bytes → Bytes → Db
meta_put db key value = record db { meta = put key value db.meta }

unfoldable pub set_generation : Db → Bytes → ℕ → Result Db
set_generation db origin generation = do
  c ← clock db origin
  ok (put_clock db origin (record c { generation = generation }))

-- The last operation for each hash, as the map `fin` holds it.
unfoldable pub final_ops : List (Bytes × Bool) → List HoldOp → List (Bytes × Bool)
final_ops fin [] = fin
final_ops fin (add h ∷ ops) = final_ops (put h true fin) ops
final_ops fin (drop_hash h ∷ ops) = final_ops (put h false fin) ops

unfoldable pub write_hold : Db → Bytes → Bytes → Bool → Db
write_hold db origin h true = record db {
  hold = at_key db.hold origin (put_key h (db.hold origin));
  holdby = at_key db.holdby h (put_key origin (db.holdby h));
}
write_hold db origin h false = record db {
  hold = at_key db.hold origin (delete_key h (db.hold origin));
  holdby = at_key db.holdby h (delete_key origin (db.holdby h));
}

unfoldable pub write_holds : Db → Bytes → List (Bytes × Bool) → Result Db
write_holds db origin [] = ok db
write_holds db origin ((h, held) ∷ fin) = do
  okey origin
  write_holds (write_hold db origin h held) origin fin

unfoldable pub apply_holds : Db → Bytes → List HoldOp → Result Db
apply_holds db origin holds = write_holds db origin (final_ops [] holds)

unfoldable pub put_rows : List (ℕ × Bytes) → List (ℕ × Bytes) → List (ℕ × Bytes)
put_rows rows [] = rows
put_rows rows ((seq, bytes) ∷ journal) = put_rows (put seq bytes rows) journal

unfoldable pub put_journal : Db → Bytes → List (ℕ × Bytes) → Db
put_journal db origin journal = record db {
  journal = at_key db.journal origin (put_rows (db.journal origin) journal);
}

unfoldable pub merge_facts : Wire → Db → List Attestation → Db
merge_facts w db attests = record db { facts = commit_with_delta (merge_atts w db.facts attests) }

abbrev pub clock_is : Clock → ℕ → ℕ → Bool
clock_is c generation seq = (c.generation == generation) && (c.seq == seq)

-- `apply_events`, with the pairs `expect` and `set` spelled out. `durable` only chooses an fsync.
unfoldable pub apply_events :
    Wire
    → Db
    → Bytes
    → ℕ × ℕ
    → ℕ × ℕ
    → List (ℕ × Bytes)
    → List HoldOp
    → List Attestation
    → Result (Db × Bool)
apply_events w db origin expect set journal holds attests = do
  cur ← clock db origin
  if not (clock_is cur expect.0 expect.1) then ok (db, false) else do
    held ← apply_holds (put_journal db origin journal) origin holds
    let c : Clock = record { generation = set.0; seq = set.1; tail_seq = cur.tail_seq }
    ok (put_clock (merge_facts w held attests) origin c, true)

abbrev pub batch_ops : ℕ
batch_ops = 32768

-- `chunks(n)`, on fuel; the length of the list is enough.
unfoldable pub chunks {ℓ} : {A : Type ℓ} → ℕ → ℕ → List A → List (List A)
chunks zero n xs = []
chunks (suc fuel) n [] = []
chunks (suc fuel) n (x ∷ xs) = take n (x ∷ xs) ∷ chunks fuel n (drop n (x ∷ xs))

unfoldable pub apply_chunks : Db → Bytes → List (List HoldOp) → Result Db
apply_chunks db origin [] = ok db
apply_chunks db origin (chunk ∷ rest) = do
  next ← apply_holds db origin chunk
  apply_chunks next origin rest

-- The drops and then the adds that turn the old set into the new one.
unfoldable pub difference_ops : List Bytes → List Bytes → List HoldOp
difference_ops old new =
    map drop_hash (keep_if (λ h. not (contains h new)) old)
    ++ map add (keep_if (λ h. not (contains h old)) (canon new))

unfoldable pub replace_holdings : Db → Bytes → ℕ → ℕ → List Bytes → Result (Db × Bool)
replace_holdings db origin generation seq held = do
  cur ← clock db origin
  if ltb generation cur.generation || ((generation == cur.generation) && ltb seq cur.seq)
      then ok (db, false)
      else do
        let ops = difference_ops (db.hold origin) held
        next ← apply_chunks db origin (chunks (length ops) batch_ops ops)
        let emptied : Db = record next { journal = at_key next.journal origin [] }
        let c : Clock = record { generation = generation; seq = seq; tail_seq = seq }
        ok (put_clock emptied origin c, true)

unfoldable pub merge_attestations : Wire → Db → List Attestation → Db × ℕ
merge_attestations w db attests =
    let b = merge_atts w db.facts attests in
    (if ltb 0 b.changed then record db { facts = commit_with_delta b } else db, b.changed)

abbrev pub u64_max : ℕ
u64_max = 2 ^ 64 - 1

-- Rows from a key on.
unfoldable pub rows_from : ℕ → List (ℕ × Bytes) → List (ℕ × Bytes)
rows_from start [] = []
rows_from start ((seq, bytes) ∷ rows) =
    if leb start seq then (seq, bytes) ∷ rows else rows_from start rows

-- The loop of `journal_suffix`, over what the iterator has left.
unfoldable pub take_rows : ℕ → List (ℕ × Bytes) → ℕ → List Bytes → List Bytes × Bool
take_rows max_bytes [] bytes events = (events, false)
take_rows max_bytes ((seq, v) ∷ rows) bytes events =
    elim (ltb max_bytes (bytes + length v) && not (is_empty events)) [
      | true ↦ (events, true)
      | false ↦ take_rows max_bytes rows (bytes + length v) (events ++ (v ∷ []))
    ]

unfoldable pub journal_suffix : Db → Bytes → ℕ → ℕ → Result (List Bytes × Bool)
journal_suffix db origin after max_bytes =
    okey origin
    >> ok (take_rows max_bytes (rows_from (min (after + 1) u64_max) (db.journal origin)) 0 [])

unfoldable pub holdings : Db → Bytes → Result (List Bytes)
holdings db origin = okey origin >> ok (db.hold origin)

-- Rows after the tail and up to the floor are deleted.
unfoldable pub drop_rows : ℕ → ℕ → List (ℕ × Bytes) → List (ℕ × Bytes)
drop_rows tail floor [] = []
drop_rows tail floor ((seq, v) ∷ rows) =
    let rest = drop_rows tail floor rows in
    if ltb seq (min (tail + 1) u64_max) || ltb floor seq then (seq, v) ∷ rest else rest

unfoldable pub compact_journal : Db → Bytes → ℕ → Result Db
compact_journal db origin floor = do
  c ← clock db origin
  if leb floor c.tail_seq
      then ok db
      else ok (
          put_clock
            (record db {
              journal = at_key db.journal origin (drop_rows c.tail_seq floor (db.journal origin));
            })
            origin (record c { tail_seq = floor }))

-- Origins with a clock that the configuration no longer names lose all their rows; watermarks stay
-- only if both names do.
abbrev pub is_departed : Db → List Bytes → Bytes → Bool
is_departed db keep o = is_some (db.clocks o) && not (contains o keep)

unfoldable pub retain_origins : Db → List Bytes → Db
retain_origins db keep = record db {
  clocks = λ o. if is_departed db keep o then none else db.clocks o;
  journal = λ o. if is_departed db keep o then [] else db.journal o;
  hold = λ o. if is_departed db keep o then [] else db.hold o;
  holdby = λ h. keep_if (λ o. not (is_departed db keep o && contains h (db.hold o))) (db.holdby h);
  wm = λ p o. if contains p keep && contains o keep then db.wm p o else none;
}

abbrev pub seq_or_zero : Option ℕ → ℕ
seq_or_zero none = 0
seq_or_zero (some n) = n

unfoldable pub advance_watermark : Db → Bytes → Bytes → ℕ → Result Db
advance_watermark db peer origin seq = do
  okey peer
  if ltb (seq_or_zero (db.wm peer origin)) seq
      then ok (record db { wm = at_key db.wm peer (at_key (db.wm peer) origin (some seq)) })
      else ok db

unfoldable pub is_held : Db → Bytes → Bytes → Result Bool
is_held db origin nar_hash = okey origin >> ok (contains nar_hash (db.hold origin))
