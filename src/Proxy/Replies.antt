-- ===== src/Proxy/Replies.antt =====
-- proxy.rs: the two requests, from the narinfo to the archive.
use narshare.Base.{
  ℕ, ◌≤◌, ◌<◌, ◌≡◌, refl, sym, subst, inl, inr, ◌⊎◌, Bool, true, Option, none, some, List, [], ◌∷◌,
  ◌++◌, ltb, ◌==◌, length, keep_if, All, All-append, Among, Bool-cases, Option-cases, Result, ok,
  ==_iff, arith,
}
use narshare.Base.Order.{nat_ord, list_ord}
use narshare.Facts.{Bytes}
use narshare.Nixbase32.{encode, decode}
use narshare.Nixbase32.Put.{AreBytes}
use narshare.Nixbase32.RoundTrip.{decode-encode}
use narshare.Narinfo.{parse_narinfo, w_dot_nar, w_none}
use narshare.Narinfo.FieldValues.{IsRelayable}
use narshare.Narinfo.RoundTrip.{parse_narinfo-rewrite_for_client}
use narshare.Proxy.{
  Proxy, Found, Answer, not_found, narinfo, sources_of, sources_count, max_by_key, best_row,
  answer_row, has_peer, add_sources, union_sources, get_nar, get_narinfo, w_dot_narinfo,
  all_alphanumeric,
}
use narshare.Proxy.Answers.{strip_suffix-append, max_by_key-Among, IsFor, best-IsFor}

-- A source of one of the rows.
abbrev pub IsOfRow : Proxy → List Found → ℕ × Bytes → Type 0
IsOfRow g rows s = (row : Found) × Among row rows × Among s (sources_of g row)

add_sources-All :
    (P : ℕ × Bytes → Type 0) (sources more : List (ℕ × Bytes))
    → All P sources
    → All P more
    → All P (add_sources sources more)
unfolding add_sources
add_sources-All P sources [] h k = h
add_sources-All P sources (s ∷ more) h k = elim (Bool-cases (has_peer s.0 sources)) [
  | inl y ↦ rw y (add_sources-All P sources more h k.1)
  | inr n ↦
      rw n
        (add_sources-All P (sources ++ s ∷ []) more (All-append P sources (s ∷ []) h (k.0, tt)) k.1)
]

All-Among : {A : Type 0} (xs : List A) (P : A → Type 0) → ((x : A) → Among x xs → P x) → All P xs
All-Among [] P h = tt
All-Among (x ∷ xs) P h = (h x (inl refl), All-Among xs P (λ y a. h y (inr a)))

union_sources-All :
    (g : Proxy) (P : ℕ × Bytes → Type 0) (sources : List (ℕ × Bytes)) (rows : List Found)
    → All P sources
    → ((row : Found) → Among row rows → All P (sources_of g row))
    → All P (union_sources g sources rows)
unfolding union_sources
union_sources-All g P sources [] h k = h
union_sources-All g P sources (row ∷ rows) h k =
    union_sources-All g P (add_sources sources (sources_of g row)) rows
      (add_sources-All P sources (sources_of g row) h (k row (inl refl))) (λ r a. k r (inr a))

-- For the name that a narinfo gives an archive, Nix is answered from the rows of the archive's hash.
-- It is not found only where no row has a source, or where a row's size is refused while roaming. A
-- range that is answered is not empty and within the size that a row claims, or else it is all of it;
-- the transfer has a source; and each source is one of a row.
pub get_nar-IsFor :
    (g : Proxy) (lookup : Bytes → Result (List Found)) (is_head : Bool) (range : Option Bytes)
    (hash : Bytes) (rows : List Found)
    → AreBytes hash
    → length hash ≡ 32
    → lookup hash ≡ ok rows
    → IsFor g rows (get_nar g lookup is_head range (encode hash ++ w_dot_nar))
      × All (IsOfRow g rows) (union_sources g [] rows)
unfolding get_nar
get_nar-IsFor g lookup is_head range hash rows are n found =
    let stem = strip_suffix-append w_dot_nar (encode hash) in
    let decoded : decode (encode hash) 32 ≡ some hash =
      subst (λ x. decode (encode hash) x ≡ some hash) n (decode-encode hash are) in
    (
      rw (stem, decoded, found)
          (best-IsFor g rows is_head range (max_by_key (λ row. length row.holders) rows) refl),
      union_sources-All g (IsOfRow g rows) [] rows tt
          (λ row a. All-Among (sources_of g row) (IsOfRow g rows) (λ s b. (row, a, b))),
    )

-- What is answered for the rows of a hash part.
abbrev pub IsNarinfoFor : Proxy → List Found → Answer → Type 0
IsNarinfoFor g rows not_found =
    All (λ (row : Found). sources_count g row ≡ 0) rows
    ⊎ ((row : Found) × Among row rows × (g.refuses row.info.nar_size ≡ true))
IsNarinfoFor g rows (narinfo body) =
    (row : Found) × Among row rows
    × (0 < sources_count g row)
    × All (λ (r : Found). sources_count g r ≤ sources_count g row) rows
    × (parse_narinfo body ≡ ok (record row.info { compression = w_none }))
IsNarinfoFor g rows other = ⊥

pub Among-kept :
    (g : Proxy) (row : Found) (rows : List Found)
    → Among row (keep_if (λ r. ltb 0 (sources_count g r)) rows)
    → Among row rows × (0 < sources_count g row)
Among-kept g row [] a = elim a [ ]
Among-kept g row (r ∷ rows) a = elim (Bool-cases (ltb 0 (sources_count g r))) [
  | inl y ↦
      let b : (row ≡ r) ⊎ Among row (keep_if (λ r. ltb 0 (sources_count g r)) rows) =
        rw (y, keep_if) at a in
      elim b [
        | inl e ↦ (inl e, subst (λ x. 0 < sources_count g x) (sym e) (ground (arith, y)))
        | inr later ↦ let z = Among-kept g row rows later in (inr z.0, z.1)
      ]
  | inr n ↦ let z = Among-kept g row rows (rw (n, keep_if) at a) in (inr z.0, z.1)
]

All-kept :
    (g : Proxy) (k : ℕ) (rows : List Found)
    → All (λ (r : Found). sources_count g r ≤ k) (keep_if (λ r. ltb 0 (sources_count g r)) rows)
    → All (λ (r : Found). sources_count g r ≤ k) rows
All-kept g k [] h = tt
All-kept g k (r ∷ rows) h = elim (Bool-cases (ltb 0 (sources_count g r))) [
  | inl y ↦
      let b : (sources_count g r ≤ k)
          × All (λ (r : Found). sources_count g r ≤ k)
              (keep_if (λ r. ltb 0 (sources_count g r)) rows) =
        rw (y, keep_if) at h in
      (b.0, All-kept g k rows b.1)
  | inr n ↦ (ground (arith, n), All-kept g k rows (rw (n, keep_if) at h))
]

max_by_key-none : (key : Found → ℕ) (rows : List Found) → max_by_key key rows ≡ none → rows ≡ []
unfolding max_by_key
max_by_key-none key [] e = refl
max_by_key-none key (x ∷ rows) e = elim (Option-cases (max_by_key key rows)) [
  | inl f ↦ cc (rw (f, max_by_key) at e)
  | inr (best, f) ↦ elim (Bool-cases (ltb (key best) (key x))) [
    | inl more ↦ cc (rw (f, more, max_by_key) at e)
    | inr less ↦ cc (rw (f, less, max_by_key) at e)
  ]
]

none-kept :
    (g : Proxy) (rows : List Found)
    → keep_if (λ r. ltb 0 (sources_count g r)) rows ≡ []
    → All (λ (r : Found). sources_count g r ≡ 0) rows
none-kept g [] e = tt
none-kept g (r ∷ rows) e = elim (Bool-cases (ltb 0 (sources_count g r))) [
  | inl y ↦ cc (rw (y, keep_if) at e)
  | inr n ↦ (ground (arith, n), none-kept g rows (rw (n, keep_if) at e))
]

All-at :
    (P : Found → Type 0) (rows : List Found) (row : Found) → All P rows → Among row rows → P row
All-at P [] row h a = elim a [ ]
All-at P (r ∷ rows) row h (inl e) = subst P (sym e) h.0
All-at P (r ∷ rows) row h (inr a) = All-at P rows row h.1 a

best-IsNarinfoFor :
    (g : Proxy) (rows : List Found) (best : Option Found)
    → All (λ (r : Found). IsRelayable r.info) rows
    → best_row g rows ≡ best
    → IsNarinfoFor g rows (answer_row g best)
best-IsNarinfoFor g rows none relayable e =
    inl (none-kept g rows (max_by_key-none (sources_count g) _ e))
best-IsNarinfoFor g rows (some row) relayable e =
    let best =
      max_by_key-Among (sources_count g) (keep_if (λ r. ltb 0 (sources_count g r)) rows) row e in
    let kept = Among-kept g row rows best.0 in
    elim (Bool-cases (g.refuses row.info.nar_size)) [
      | inl roaming ↦ rw roaming (inr (row, kept.0, roaming))
      | inr free ↦ rw free (
        row,
        kept.0,
        kept.1,
        All-kept g (sources_count g row) rows best.1,
        parse_narinfo-rewrite_for_client row.info
            (All-at (λ r. IsRelayable r.info) rows row relayable kept.0),
      )
    ]

-- For the hash part of a path, Nix is answered with a narinfo that is parsed to that of a row, with
-- no compression: one that some peer can serve, and as many as can serve any row. It is not found only
-- where no row has a source, or where a row's size is refused while roaming.
pub get_narinfo-IsNarinfoFor :
    (g : Proxy) (lookup : Bytes → Result (List Found)) (hash_part : Bytes) (rows : List Found)
    → length hash_part ≡ 32
    → all_alphanumeric hash_part ≡ true
    → lookup hash_part ≡ ok rows
    → All (λ (row : Found). IsRelayable row.info) rows
    → IsNarinfoFor g rows (get_narinfo g lookup (hash_part ++ w_dot_narinfo))
unfolding get_narinfo
get_narinfo-IsNarinfoFor g lookup hash_part rows n letters found relayable =
    let size : (length hash_part == 32) ≡ true = (==_iff (length hash_part) 32).1 n in
    rw (strip_suffix-append w_dot_narinfo hash_part, size, letters, found)
      (best-IsNarinfoFor g rows (best_row g rows) relayable refl)
