-- ===== src/Dedup.antt =====
-- dedup.rs: the retention plan for repeated segments.
pub mod Budget
use narshare.Base.{
  ℕ, zero, suc, ◌+◌, ◌-◌, ◌%◌, ◌^◌, ◌≡◌, Bool, true, false, not, ◌&&◌, Option, none, some, List, [],
  ◌∷◌, ◌++◌, ◌==◌, ltb, leb, if◌then◌else◌, get_or, set, length,
}
use narshare.Base.Order.{nat_ord, list_ord}
use narshare.Base.Sets.{same}
use narshare.Facts.{Bytes}

pub data Step : Type 0 where
  fetch : (unique : ℕ) → (retain_for : ℕ) → Step
  cached : (unique : ℕ) → Step

-- What the first pass collects: the distinct keys in order of appearance, and for each its number of
-- occurrences, last position and size; and the number of each occurrence's key.
pub record Identity : Type 0 where
  pub keys : List Bytes
  pub occurrences : List ℕ
  pub last_pos : List ℕ
  pub size_of : List ℕ
  pub unique_at : List ℕ

abbrev pub no_keys : Identity
no_keys = record { keys = []; occurrences = []; last_pos = []; size_of = []; unique_at = [] }

-- The place of a key, or the next one: `entry(k).or_insert(next_id)`.
unfoldable pub id_of : Bytes → List Bytes → ℕ
id_of k [] = 0
id_of k (j ∷ ks) = if same k j then 0 else suc (id_of k ks)

abbrev with_key : Bytes → ℕ → Identity → Identity
with_key k size t =
    if id_of k t.keys == length t.keys
    then record t {
      keys = t.keys ++ (k ∷ []);
      occurrences = t.occurrences ++ (0 ∷ []);
      last_pos = t.last_pos ++ (0 ∷ []);
      size_of = t.size_of ++ (size ∷ []);
    }
    else t

unfoldable pub identify_one : ℕ → Bytes → ℕ → Identity → Identity
identify_one p k size t =
    let id = id_of k t.keys in
    let t2 = with_key k size t in
    record t2 {
      occurrences = set t2.occurrences id (get_or t2.occurrences id 0 + 1);
      last_pos = set t2.last_pos id p;
      unique_at = t2.unique_at ++ (id ∷ []);
    }

-- The first pass, over the keys with their sizes.
unfoldable pub identify : ℕ → List (Bytes × ℕ) → Identity → Identity
identify p [] t = t
identify p ((k, size) ∷ rest) t = identify (p + 1) rest (identify_one p k size t)

-- What the second pass carries.
pub record Residency : Type 0 where
  pub resident : List Bool
  pub seen : List Bool
  pub resident_bytes : ℕ
  pub steps : List Step

abbrev emit : Residency → Step → Residency
emit s step = record s { steps = s.steps ++ (step ∷ []) }

abbrev size_at : Identity → ℕ → ℕ
size_at t u = get_or t.size_of u 0

-- Sums and differences of sizes are `u64` and wrap around.
unfoldable pub add_u64 : ℕ → ℕ → ℕ
add_u64 a b = (a + b) % 2 ^ 64

unfoldable pub sub_u64 : ℕ → ℕ → ℕ
sub_u64 a b = (a + 2 ^ 64 - b) % 2 ^ 64

-- A key's first occurrence: retained if it occurs again and the budget holds it.
unfoldable pub first_seen : Identity → ℕ → ℕ → Residency → Residency
first_seen t budget u s =
    let later = get_or t.occurrences u 0 - 1 in
    let marked = record s { seen = set s.seen u true } in
    if ltb 0 later && leb (add_u64 s.resident_bytes (size_at t u)) budget
    then emit
        (record marked {
          resident = set s.resident u true;
          resident_bytes = add_u64 s.resident_bytes (size_at t u);
        })
        (fetch u later)
    else emit marked (fetch u 0)

unfoldable pub replay : Identity → ℕ → ℕ → Residency → Residency
replay t p u s =
    if p == get_or t.last_pos u 0
    then emit
        (record s {
          resident = set s.resident u false;
          resident_bytes = sub_u64 s.resident_bytes (size_at t u);
        })
        (cached u)
    else emit s (cached u)

unfoldable pub residency_step : Identity → ℕ → ℕ → ℕ → Residency → Residency
residency_step t budget p u s =
    if not (get_or s.seen u false)
    then first_seen t budget u s
    else if get_or s.resident u false
    then replay t p u s
    else emit s (fetch u 0)

-- The second pass, over the numbers of the occurrences' keys.
unfoldable pub reside : Identity → ℕ → ℕ → List ℕ → Residency → Residency
reside t budget p [] s = s
reside t budget p (u ∷ us) s = reside t budget (p + 1) us (residency_step t budget p u s)

abbrev pub all_false : List ℕ → List Bool
all_false [] = []
all_false (x ∷ xs) = false ∷ all_false xs

abbrev pub not_resident : Identity → Residency
not_resident t = record {
  resident = all_false t.occurrences;
  seen = all_false t.occurrences;
  resident_bytes = 0;
  steps = [];
}

unfoldable pub plan : List (Bytes × ℕ) → ℕ → List Step
plan keys budget =
    let t = identify 0 keys no_keys in (reside t budget 0 t.unique_at (not_resident t)).steps
