-- ===== src/Fetch/Buffer.antt =====
-- fetch.rs: the buffered chunks of a transfer, and the pieces that are taken out of them.
pub mod Cut
pub mod Disjoint
pub mod Reading
pub mod Chain
pub mod Whole
use narshare.Base.{
  Bool, ℕ, zero, suc, ◌+◌, ◌-◌, Option, none, some, List, [], ◌∷◌, ltb, leb, if◌then◌else◌, min,
  max, length, take, drop, Result, ok, err, ◌>>=◌, context, index_panic,
}
use narshare.Base.Order.{nat_ord}
use narshare.Base.Keys.{put, get, delete}
use narshare.Facts.{Bytes}

-- `BTreeMap<u64, Bytes>`: the offset of a chunk, and its bytes.
abbrev pub Buffer : Type 0
Buffer = List (ℕ × Bytes)

-- `buf.range(..=pos).next_back()`
abbrev or_else : Option (ℕ × Bytes) → Option (ℕ × Bytes) → Option (ℕ × Bytes)
or_else (some row) other = some row
or_else none other = other

unfoldable pub last_at : ℕ → Buffer → Option (ℕ × Bytes)
last_at pos [] = none
last_at pos ((k, b) ∷ rows) = or_else (last_at pos rows) (if leb k pos then some (k, b) else none)

-- `b.slice(from..to)`
abbrev pub slice : ℕ → ℕ → Bytes → Bytes
slice from to b = take (to - from) (drop from b)

-- `b.slice(from..)`
abbrev pub slice_from : ℕ → Bytes → Bytes
slice_from from b = slice from (length b) b

-- What the branches of `take_prefix` and `take_span` insert again.
abbrev put_if : Bool → ℕ → Bytes → Buffer → Buffer
put_if test k b buf = if test then put k b buf else buf

abbrev piece_of : Buffer → ℕ → ℕ → ℕ → Bytes → Option (Bytes × Buffer)
piece_of buf pos most k b =
    let end = k + length b in
    if leb end pos
    then none
    else let avail = end - pos in
      let n = min avail most in
      let kept = put_if (ltb k pos) k (slice 0 (pos - k) b) (delete k buf) in
      some (
        slice (pos - k) (pos - k + n) b,
        put_if (ltb n avail) (pos + n) (slice_from (pos - k + n) b) kept,
      )

abbrev piece_at : Buffer → ℕ → ℕ → Option (ℕ × Bytes) → Option (Bytes × Buffer)
piece_at buf pos most none = none
piece_at buf pos most (some (k, b)) = piece_of buf pos most k b

unfoldable pub take_prefix : Buffer → ℕ → ℕ → Option (Bytes × Buffer)
take_prefix buf pos most = piece_at buf pos most (last_at pos buf)

-- The coverage loop on fuel: the keys of the entries that hold `[cur, end)`.
abbrev cons_key : ℕ → Option (List ℕ) → Option (List ℕ)
cons_key k none = none
cons_key k (some ks) = some (k ∷ ks)

abbrev next_key : Option (ℕ × Bytes) → ℕ → (ℕ → Option (List ℕ)) → Option (List ℕ)
next_key none cur rest = none
next_key (some (k, b)) cur rest =
    if leb (k + length b) cur then none else cons_key k (rest (k + length b))

unfoldable pub covering : ℕ → Buffer → ℕ → ℕ → Option (List ℕ)
covering zero buf cur end = if ltb cur end then none else some []
covering (suc fuel) buf cur end =
    let rest = next_key (last_at cur buf) cur (λ past. covering fuel buf past end) in
    if ltb cur end then rest else some []

-- The cutting loop; `buf.remove(&k).unwrap()` panics on a key that is not there.
abbrev cut_entry : ℕ → ℕ → ℕ → Bytes → Buffer → Bytes × Buffer
cut_entry off end k b buf =
    let past = k + length b in
    let s = max off k in
    let e = min end past in
    let kept = put_if (ltb k s) k (slice 0 (s - k) b) (delete k buf) in
    (slice (s - k) (e - k) b, put_if (ltb e past) e (slice_from (e - k) b) kept)

unfoldable pub cut_keys : ℕ → ℕ → List ℕ → Buffer → Result (List Bytes × Buffer)
cut_keys off end [] buf = ok ([], buf)
cut_keys off end (k ∷ ks) buf = context (get k buf) index_panic >>= λ b.
    let cut = cut_entry off end k b buf in
    cut_keys off end ks cut.1 >>= λ rest. ok (cut.0 ∷ rest.0, rest.1)

abbrev cut_covered : Buffer → ℕ → ℕ → Option (List ℕ) → Option (Result (List Bytes × Buffer))
cut_covered buf off end none = none
cut_covered buf off end (some ks) = some (cut_keys off end ks buf)

-- An entry that covers `cur` ends above it, so `end - off` rounds are enough.
unfoldable pub take_span : Buffer → ℕ → ℕ → Option (Result (List Bytes × Buffer))
take_span buf off end = cut_covered buf off end (covering (end - off) buf off end)
