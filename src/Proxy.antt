-- ===== src/Proxy.antt =====
-- proxy.rs: what the substituter answers to Nix, and from whom it fetches.
use narshare.Base.{
  ℕ, suc, ◌+◌, ◌-◌, ◌≡◌, Bool, true, false, not, ◌&&◌, ◌||◌, Option, none, some, List, [], ◌∷◌,
  ◌++◌, map, ltb, leb, ◌==◌, if◌then◌else◌, is_empty, length, get_elem?, keep_if, min, Result, ok,
  err,
}
use narshare.Base.Order.{nat_ord, list_ord}
use narshare.Base.Sets.{same}
use narshare.Facts.{Bytes}
use narshare.Nixbase32.{decode}
use narshare.Health.{Health, available}
use narshare.Serve.{RangeSpec, full, partial, unsatisfiable, parse_range}
use narshare.Narinfo.{RemoteNarinfo, rewrite_for_client, url_of, w_dot_nar}
pub mod Trusted
pub mod Sources
pub mod Choice
pub mod Answers
pub mod Replies

pub record Peer : Type 0 where
  pub name : Bytes
  pub tier : ℕ
  pub health : Health

-- One result of a lookup: who holds the path.
pub record Found : Type 0 where
  pub info : RemoteNarinfo
  pub holders : List Bytes

-- What a request sees: this node, its peers, the time, and which sizes are refused while roaming.
pub record Proxy : Type 0 where
  pub self_name : Bytes
  pub list : List Peer
  pub now : ℕ
  pub refuses : ℕ → Bool

-- `idx_of`
abbrev next_idx : Option ℕ → Option ℕ
next_idx none = none
next_idx (some i) = some (suc i)

unfoldable pub idx_of : Bytes → List Peer → Option ℕ
idx_of name [] = none
idx_of name (p ∷ peers) = if same p.name name then some 0 else next_idx (idx_of name peers)

-- `self.peers.list[i]`, for an index that `idx_of` has given.
abbrev pub available_peer : ℕ → Option Peer → Bool
available_peer now none = false
available_peer now (some p) = available now p.health

abbrev pub is_available : Proxy → ℕ → Bool
is_available g i = available_peer g.now (get_elem? g.list i)

abbrev pub tier_peer : Option Peer → ℕ
tier_peer none = 0
tier_peer (some p) = p.tier

abbrev pub tier_of : Proxy → ℕ → ℕ
tier_of g i = tier_peer (get_elem? g.list i)

-- The holders that are peers whose breaker is not open.
abbrev pub if_available : Proxy → Option ℕ → Option ℕ
if_available g none = none
if_available g (some i) = if is_available g i then some i else none

abbrev pub candidate : Proxy → Bytes → Option ℕ
candidate g h = if same h g.self_name then none else if_available g (idx_of h g.list)

abbrev pub cons_some {ℓ} : {A : Type ℓ} → Option A → List A → List A
cons_some none xs = xs
cons_some (some x) xs = x ∷ xs

unfoldable pub candidates : Proxy → List Bytes → List ℕ
candidates g [] = []
candidates g (h ∷ holders) = cons_some (candidate g h) (candidates g holders)

-- `min()` over the tiers.
abbrev pub min_with : ℕ → Option ℕ → ℕ
min_with t none = t
min_with t (some m) = min t m

unfoldable pub min_tier : Proxy → List ℕ → Option ℕ
min_tier g [] = none
min_tier g (i ∷ is) = some (min_with (tier_of g i) (min_tier g is))

abbrev pub at_tier : Proxy → Option ℕ → List ℕ → List ℕ
at_tier g none is = is
at_tier g (some m) is = keep_if (λ i. tier_of g i == m) is

unfoldable pub sources_of : Proxy → Found → List (ℕ × Bytes)
sources_of g found =
    let is = candidates g found.holders in
    map (λ i. (i, url_of found.info.nar_hash)) (at_tier g (min_tier g is) is)

-- `strip_suffix`
abbrev cons_stem : ℕ → Option Bytes → Option Bytes
cons_stem c none = none
cons_stem c (some s) = some (c ∷ s)

unfoldable pub strip_suffix : Bytes → Bytes → Option Bytes
strip_suffix suffix [] = if same [] suffix then some [] else none
strip_suffix suffix (c ∷ cs) =
    let rest = strip_suffix suffix cs in if same (c ∷ cs) suffix then some [] else cons_stem c rest

abbrev pub w_dot_narinfo : Bytes
w_dot_narinfo = b'.' ∷ b'n' ∷ b'a' ∷ b'r' ∷ b'i' ∷ b'n' ∷ b'f' ∷ b'o' ∷ []

-- What Nix is answered.
pub data Answer : Type 0 where
  not_found : Answer
  narinfo : (body : Bytes) → Answer
  not_satisfiable : (size : ℕ) → Answer
  headers : (start : ℕ) → (end : ℕ) → (whole : Bool) → Answer
  nar :
      (info : RemoteNarinfo)
      → (sources : List (ℕ × Bytes)) → (start : ℕ) → (end : ℕ) → (whole : Bool) → Answer

-- `max_by_key`: of several rows with the most, the last.
unfoldable pub max_by_key : (Found → ℕ) → List Found → Option Found
max_by_key key [] = none
max_by_key key (row ∷ rows) = elim (max_by_key key rows) [
  | none ↦ some row
  | some best ↦ if ltb (key best) (key row) then some row else some best
]

abbrev pub is_alphanumeric : ℕ → Bool
is_alphanumeric c =
    (leb b'0' c && leb c b'9') || ((leb b'a' c && leb c b'z') || (leb b'A' c && leb c b'Z'))

unfoldable pub all_alphanumeric : Bytes → Bool
all_alphanumeric [] = true
all_alphanumeric (c ∷ cs) = is_alphanumeric c && all_alphanumeric cs

abbrev pub rows_or_miss : Result (List Found) → (List Found → Answer) → Answer
rows_or_miss (ok rows) answer = answer rows
rows_or_miss (err e) answer = not_found

-- The row that the most peers can serve.
abbrev pub sources_count : Proxy → Found → ℕ
sources_count g row = length (sources_of g row)

abbrev pub best_row : Proxy → List Found → Option Found
best_row g rows = max_by_key (sources_count g) (keep_if (λ row. ltb 0 (sources_count g row)) rows)

abbrev pub answer_row : Proxy → Option Found → Answer
answer_row g none = not_found
answer_row g (some row) =
    if g.refuses row.info.nar_size then not_found else narinfo (rewrite_for_client row.info)

abbrev pub answer_hash_part : Proxy → (Bytes → Result (List Found)) → Option Bytes → Answer
answer_hash_part g lookup none = not_found
answer_hash_part g lookup (some hash_part) =
    if not (length hash_part == 32) || not (all_alphanumeric hash_part)
    then not_found
    else rows_or_miss (lookup hash_part) (λ rows. answer_row g (best_row g rows))

-- `get_narinfo`, for the index's `lookup_hash_part`.
unfoldable pub get_narinfo : Proxy → (Bytes → Result (List Found)) → Bytes → Answer
get_narinfo g lookup file = answer_hash_part g lookup (strip_suffix w_dot_narinfo file)

-- The sources of all rows, each peer once.
unfoldable pub has_peer : ℕ → List (ℕ × Bytes) → Bool
has_peer i [] = false
has_peer i ((j, url) ∷ sources) = (j == i) || has_peer i sources

unfoldable pub add_sources : List (ℕ × Bytes) → List (ℕ × Bytes) → List (ℕ × Bytes)
add_sources sources [] = sources
add_sources sources (s ∷ more) =
    add_sources (if has_peer s.0 sources then sources else sources ++ s ∷ []) more

unfoldable pub union_sources : Proxy → List (ℕ × Bytes) → List Found → List (ℕ × Bytes)
union_sources g sources [] = sources
union_sources g sources (row ∷ rows) = union_sources g (add_sources sources (sources_of g row)) rows

-- The answer for a range, to HEAD or to GET.
abbrev pub answer_part : Bool → RemoteNarinfo → List (ℕ × Bytes) → ℕ → ℕ → Bool → Answer
answer_part is_head info sources start end whole =
    if is_head then headers start end whole else nar info sources start end whole

abbrev pub answer_range : Bool → RemoteNarinfo → List (ℕ × Bytes) → RangeSpec → Answer
answer_range is_head info sources full = answer_part is_head info sources 0 info.nar_size true
answer_range is_head info sources (partial start end) =
    answer_part is_head info sources start end false
answer_range is_head info sources unsatisfiable = not_satisfiable info.nar_size

abbrev pub answer_best : Proxy → Bool → Option Bytes → List (ℕ × Bytes) → Option Found → Answer
answer_best g is_head range sources none = not_found
answer_best g is_head range sources (some best) =
    if is_empty sources || g.refuses best.info.nar_size
    then not_found
    else answer_range is_head best.info sources (parse_range range best.info.nar_size)

abbrev pub answer_nar_hash :
    Proxy → (Bytes → Result (List Found)) → Bool → Option Bytes → Option Bytes → Answer
answer_nar_hash g lookup is_head range none = not_found
answer_nar_hash g lookup is_head range (some hash) = rows_or_miss (lookup hash) (λ rows.
    answer_best g is_head range (union_sources g [] rows)
      (max_by_key (λ row. length row.holders) rows))

abbrev pub decoded_stem : Option Bytes → Option Bytes
decoded_stem none = none
decoded_stem (some stem) = decode stem 32

-- `get_nar`, for the index's `lookup_nar_hash`, the method and the header `Range`.
unfoldable pub get_nar :
    Proxy → (Bytes → Result (List Found)) → Bool → Option Bytes → Bytes → Answer
get_nar g lookup is_head range file =
    answer_nar_hash g lookup is_head range (decoded_stem (strip_suffix w_dot_nar file))
