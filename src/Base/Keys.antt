-- ===== src/Base/Keys.antt =====
-- The ordered map of a column family: rows by key, and sets of keys.
use Prim.Native.Nat.Ordering.{lt, eq, gt}
use mathlib.Core.Path.{◌≡◌, refl}
use mathlib.Core.List.{List, [], ◌∷◌}
use mathlib.Core.Option.{Option, none, some}
use mathlib.Core.Bool.{not, ◌&&◌, ◌||◌}
use native.Mathlib.Omega.{arith}
use narshare.Base.Tests.{if◌then◌else◌}
use narshare.Base.Order.{Ord}
use narshare.Base.Lists.{All}
use narshare.Base.Sets.{same, same_self, eq_of_same, contains, IsStrict}

module _ {ℓ} {K : Type ℓ} ⦃o : Ord K⦄ where
  -- Rows are kept in key order; a second put of a key replaces its row.
  unfoldable pub put {κ} : {V : Type κ} → K → V → List (K × V) → List (K × V)
  put k v [] = (k, v) ∷ []
  put k v ((j, w) ∷ rows) = elim (o.cmp k j) [
    | lt ↦ (k, v) ∷ (j, w) ∷ rows
    | eq ↦ (k, v) ∷ rows
    | gt ↦ (j, w) ∷ put k v rows
  ]

  unfoldable pub get {κ} : {V : Type κ} → K → List (K × V) → Option V
  get k [] = none
  get k ((j, w) ∷ rows) = if same k j then some w else get k rows

  unfoldable pub delete {κ} : {V : Type κ} → K → List (K × V) → List (K × V)
  delete k [] = []
  delete k ((j, w) ∷ rows) = if same k j then delete k rows else (j, w) ∷ delete k rows

  pub get-put {κ} :
      {V : Type κ} (k j : K) (v : V) (rows : List (K × V))
      → get j (put k v rows) ≡ (if same j k then some v else get j rows)
  unfolding get put
  get-put k j v [] = refl
  get-put k j v ((i, w) ∷ rows) = ground (
    arith,
    get-put k j v rows,
    o.eq_of_cmp k i,
    o.eq_of_cmp j i,
    o.eq_of_cmp j k,
    o.cmp_self i,
    o.cmp-reverse j i,
  )

  pub get-delete {κ} :
      {V : Type κ} (k j : K) (rows : List (K × V))
      → get j (delete k rows) ≡ (if same j k then none else get j rows)
  unfolding get delete
  get-delete k j [] = ground arith
  get-delete k j ((i, w) ∷ rows) = ground (
    arith,
    get-delete k j rows,
    eq_of_same k i,
    eq_of_same j i,
    eq_of_same j k,
    same_self i,
    same_self j,
  )

  -- Sets of keys, in order.
  unfoldable pub put_key : K → List K → List K
  put_key k [] = k ∷ []
  put_key k (j ∷ ks) = elim (o.cmp k j) [ lt ↦ k ∷ j ∷ ks | eq ↦ j ∷ ks | gt ↦ j ∷ put_key k ks ]

  unfoldable pub delete_key : K → List K → List K
  delete_key k [] = []
  delete_key k (j ∷ ks) = if same k j then delete_key k ks else j ∷ delete_key k ks

  pub contains-put_key :
      (j k : K) (ks : List K) → contains j (put_key k ks) ≡ (same j k || contains j ks)
  unfolding contains put_key
  contains-put_key j k [] = refl
  contains-put_key j k (i ∷ ks) = ground (arith, contains-put_key j k ks, o.eq_of_cmp k i)

  pub contains-delete_key :
      (j k : K) (ks : List K) → contains j (delete_key k ks) ≡ (not (same j k) && contains j ks)
  unfolding contains delete_key
  contains-delete_key j k [] = ground arith
  contains-delete_key j k (i ∷ ks) = ground (
    arith,
    contains-delete_key j k ks,
    eq_of_same k i,
    eq_of_same j i,
    eq_of_same j k,
    same_self i,
  )

  abbrev pub keys {κ} : {V : Type κ} → List (K × V) → List K
  keys [] = []
  keys ((k, v) ∷ rows) = k ∷ keys rows

  All-below :
      (k j : K) (ks : List K)
      → o.cmp k j ≡ lt
      → All (λ i. o.cmp j i ≡ lt) ks
      → All (λ i. o.cmp k i ≡ lt) ks
  All-below k j [] h all = tt
  All-below k j (i ∷ ks) h all = (o.lt_trans k j i h all.0, All-below k j ks h all.1)

  All-put {κ} :
      {V : Type κ} (i k : K) (v : V) (rows : List (K × V))
      → o.cmp i k ≡ lt
      → All (λ j. o.cmp i j ≡ lt) (keys rows)
      → All (λ j. o.cmp i j ≡ lt) (keys (put k v rows))
  unfolding put
  All-put i k v [] h all = (h, tt)
  All-put i k v ((j, w) ∷ rows) h all = ground (arith, All-put i k v rows h all.1, o.eq_of_cmp k j)

  -- A put keeps the rows in strict key order.
  pub put-IsStrict {κ} :
      {V : Type κ} (k : K) (v : V) (rows : List (K × V))
      → IsStrict (keys rows)
      → IsStrict (keys (put k v rows))
  unfolding put
  put-IsStrict k v [] h = (tt, tt)
  put-IsStrict k v ((j, w) ∷ rows) h = ground (
    arith,
    put-IsStrict k v rows h.1,
    All-put j k v rows,
    All-below k j (keys rows),
    o.eq_of_cmp k j,
    o.cmp-reverse k j,
  )

  pub get_above {κ} :
      {V : Type κ} (k : K) (rows : List (K × V))
      → All (λ j. o.cmp k j ≡ lt) (keys rows)
      → get k rows ≡ none
  unfolding get
  get_above k [] all = refl
  get_above k ((j, w) ∷ rows) all = ground (arith, get_above k rows all.1)
