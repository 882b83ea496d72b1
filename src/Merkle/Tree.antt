-- ===== src/Merkle/Tree.antt =====
-- store/rocks.rs: what the aggregates hold after any series of `xor`.
use mathlib.Core.List.{Permᴰ}
use mathlib.Core.List.Permᴰ.{nil, cons, swap, trans}
use narshare.Base.{
  ℕ, zero, suc, ◌+◌, ◌*◌, ◌/◌, ◌%◌, ◌<◌, ◌≡◌, refl, sym, ap, ◌∙◌, Bool, true, List, [], ◌∷◌, ◌++◌,
  Option, none, some, arith, ◌==◌, if◌then◌else◌, get_or, replicate, length, length-set, All,
}
use narshare.Facts.{Bytes}
use narshare.Merkle.{
  Aggregates, new, xor, xor_all, leaves, leaf_of, xor_into, xor_at, zero_hash, cells_or_new,
}
use narshare.Merkle.Cells.{
  get_or-set, get_or-All, All-set, get_or-xor_at, length-xor_at, xor_into_comm, xor_into_twice,
}

-- The two bytes that `leaf_of` reads are bytes.
abbrev pub IsHash : Bytes → Type 0
IsHash h = leaf_of h < 65536

-- One leaf, as a peer reads it.
abbrev pub leaf : Aggregates → ℕ → ℕ → Bytes
leaf agg b s = get_or (leaves agg b) s zero_hash

abbrev pub coarse_at : Aggregates → ℕ → Bytes
coarse_at agg b = get_or agg.coarse b zero_hash

pub record IsSized (agg : Aggregates) : Type 0 where
  pub block_count : length agg.blocks ≡ 256
  pub cell_count : All (λ o. length (cells_or_new o) ≡ 256) agg.blocks
  pub coarse_count : length agg.coarse ≡ 256

All-replicate {ℓ κ} : {A : Type ℓ} (P : A → Type κ) (n : ℕ) (a : A) → P a → All P (replicate n a)
All-replicate P zero a p = tt
All-replicate P (suc n) a p = (p, All-replicate P n a p)

leaves_count : (agg : Aggregates) (b : ℕ) → IsSized agg → length (leaves agg b) ≡ 256
unfolding leaves
leaves_count agg b v =
    get_or-All (λ o. length (cells_or_new o) ≡ 256) agg.blocks b none v.cell_count refl

pub new-IsSized : IsSized new
unfolding new
new-IsSized = record {
  block_count = refl;
  cell_count =
      All-replicate (λ (o : Option (List Bytes)). length (cells_or_new o) ≡ 256) 256 none refl;
  coarse_count = refl;
}

pub xor-IsSized : (agg : Aggregates) (h : Bytes) → IsSized agg → IsSized (xor agg h)
unfolding xor
xor-IsSized agg h v = record {
  block_count = length-set agg.blocks _ _ ∙ v.block_count;
  cell_count =
      All-set _ agg.blocks _ _ v.cell_count
        (length-xor_at _ _ h ∙ unfold leaves in leaves_count agg (leaf_of h / 256) v);
  coarse_count = length-xor_at agg.coarse _ h ∙ v.coarse_count;
}

leaves-xor :
    (agg : Aggregates) (h : Bytes) (b : ℕ)
    → IsHash h
    → IsSized agg
    → leaves (xor agg h) b
      ≡ (if leaf_of h / 256 == b then xor_at (leaves agg b) (leaf_of h % 256) h else leaves agg b)
unfolding leaves xor
leaves-xor agg h b p v = ground (
  arith,
  v.block_count,
  get_or-set agg.blocks (leaf_of h / 256) b
      (some (xor_at (cells_or_new (get_or agg.blocks (leaf_of h / 256) none)) (leaf_of h % 256) h))
      none,
)

-- Each leaf changes if the hash falls in it, and only then.
pub leaf-xor :
    (agg : Aggregates) (h : Bytes) (b s : ℕ)
    → IsHash h
    → IsSized agg
    → s < 256
    → leaf (xor agg h) b s
      ≡ (if leaf_of h == b * 256 + s then xor_into (leaf agg b s) h else leaf agg b s)
leaf-xor agg h b s p v lt = ground (
  arith,
  leaves-xor agg h b p v,
  leaves_count agg b v,
  get_or-xor_at (leaves agg b) (leaf_of h % 256) s h,
)

coarse-xor :
    (agg : Aggregates) (h : Bytes) (b : ℕ)
    → IsHash h
    → IsSized agg
    → coarse_at (xor agg h) b
      ≡ (if leaf_of h / 256 == b then xor_into (coarse_at agg b) h else coarse_at agg b)
unfolding xor
coarse-xor agg h b p v =
    ground (arith, v.coarse_count, get_or-xor_at agg.coarse (leaf_of h / 256) b h)

-- The exclusive or of the hashes that meet the test, folded into `acc`.
abbrev pub xor_where : (Bytes → Bool) → Bytes → List Bytes → Bytes
xor_where p acc [] = acc
xor_where p acc (h ∷ hs) = xor_where p (if p h then xor_into acc h else acc) hs

-- The tree that the hashes make, read at a leaf, at a coarse bucket and at the root.
pub record Reads (agg : Aggregates) (hs : List Bytes) (base : Aggregates) : Type 0 where
  pub at_leaf :
      (b s : ℕ)
      → s < 256
      → leaf agg b s ≡ xor_where (λ h. leaf_of h == b * 256 + s) (leaf base b s) hs
  pub at_coarse :
      (b : ℕ) → coarse_at agg b ≡ xor_where (λ h. leaf_of h / 256 == b) (coarse_at base b) hs
  pub at_root : agg.root ≡ xor_where (λ _. true) base.root hs

root-xor : (agg : Aggregates) (h : Bytes) → (xor agg h).root ≡ xor_into agg.root h
unfolding xor
root-xor agg h = refl

-- Each leaf, each coarse bucket and the root is the exclusive or of exactly the hashes that belong
-- under it.
pub xor_all-Reads :
    (agg : Aggregates) (hs : List Bytes)
    → IsSized agg
    → All IsHash hs
    → Reads (xor_all agg hs) hs agg
unfolding xor_all
xor_all-Reads agg [] v all = record {
  at_leaf = λ b s lt. refl;
  at_coarse = λ b. refl;
  at_root = refl;
}
xor_all-Reads agg (h ∷ hs) v (p, all) =
    let r = xor_all-Reads (xor agg h) hs (xor-IsSized agg h v) all in
    record {
      at_leaf = λ b s lt.
          r.at_leaf b s lt
          ∙ ap (λ x. xor_where (λ k. leaf_of k == b * 256 + s) x hs) (leaf-xor agg h b s p v lt);
      at_coarse = λ b.
          r.at_coarse b
          ∙ ap (λ x. xor_where (λ k. leaf_of k / 256 == b) x hs) (coarse-xor agg h b p v);
      at_root = r.at_root ∙ ap (λ x. xor_where (λ k. true) x hs) (root-xor agg h);
    }

-- Two aggregates that no peer can tell apart.
pub record SameTree (x y : Aggregates) : Type 0 where
  pub same_leaf : (b s : ℕ) → s < 256 → leaf x b s ≡ leaf y b s
  pub same_coarse : (b : ℕ) → coarse_at x b ≡ coarse_at y b
  pub same_root : x.root ≡ y.root

-- Order does not matter.
xor_where_swap :
    (p : Bytes → Bool) (acc x y : Bytes) (hs : List Bytes)
    → xor_where p acc (x ∷ y ∷ hs) ≡ xor_where p acc (y ∷ x ∷ hs)
xor_where_swap p acc x y hs = ap (λ a. xor_where p a hs) (ground (arith, xor_into_comm acc x y))

xor_where_perm :
    (p : Bytes → Bool) {hs ks : List Bytes} (acc : Bytes)
    → Permᴰ hs ks
    → xor_where p acc hs ≡ xor_where p acc ks
xor_where_perm p acc nil = refl
xor_where_perm p acc (cons {a = x} {b = y} {l₁ = hs} {l₂ = ks} e q) =
    ap (λ z. xor_where p (if p z then xor_into acc z else acc) hs) e
    ∙ xor_where_perm p (if p y then xor_into acc y else acc) q
xor_where_perm p acc (swap {a = x} {b = y} {l = hs} e f) = xor_where_swap p acc x y hs ∙ rw (e, f)
xor_where_perm p acc (trans q r) = xor_where_perm p acc q ∙ xor_where_perm p acc r

xor_where-append :
    (p : Bytes → Bool) (acc : Bytes) (xs ys : List Bytes)
    → xor_where p acc (xs ++ ys) ≡ xor_where p (xor_where p acc xs) ys
xor_where-append p acc [] ys = refl
xor_where-append p acc (x ∷ xs) ys = xor_where-append p (if p x then xor_into acc x else acc) xs ys

xor_if_comm :
    (s t : Bool) (acc x y : Bytes)
    → (if s
        then xor_into (if t then xor_into acc y else acc) x
        else if t
        then xor_into acc y
        else acc)
      ≡ (if t
          then xor_into (if s then xor_into acc x else acc) y
          else if s
          then xor_into acc x
          else acc)
xor_if_comm s t acc x y = ground (arith, xor_into_comm acc x y)

-- A hash may be folded in before the others or after them.
xor_where_last :
    (p : Bytes → Bool) (acc x : Bytes) (hs : List Bytes)
    → xor_where p (if p x then xor_into acc x else acc) hs
      ≡ (if p x then xor_into (xor_where p acc hs) x else xor_where p acc hs)
xor_where_last p acc x [] = refl
xor_where_last p acc x (h ∷ hs) =
    ap (λ a. xor_where p a hs) (xor_if_comm (p h) (p x) acc h x)
    ∙ xor_where_last p (if p h then xor_into acc h else acc) x hs

xor_if_twice :
    (s : Bool) (acc x : Bytes)
    → (if s
        then xor_into (if s then xor_into acc x else acc) x
        else if s
        then xor_into acc x
        else acc)
      ≡ acc
xor_if_twice s acc x = ground (arith, xor_into_twice acc x)

-- What is folded in and folded out leaves nothing.
xor_where_twice :
    (p : Bytes → Bool) (acc : Bytes) (ds : List Bytes) → xor_where p acc (ds ++ ds) ≡ acc
xor_where_twice p acc [] = refl
xor_where_twice p acc (d ∷ ds) =
    xor_where-append p (if p d then xor_into acc d else acc) ds (d ∷ ds)
    ∙ ap (λ a. xor_where p (if p d then xor_into a d else a) ds) (xor_where_last p acc d ds)
    ∙ ap (λ a. xor_where p a ds) (xor_if_twice (p d) (xor_where p acc ds) d)
    ∙ sym (xor_where-append p acc ds ds)
    ∙ xor_where_twice p acc ds

-- A history of hashes: those that are still held, and twice those that were superseded, which
-- `commit_with_delta` folds in when they come and again when they go.
abbrev pub IsHistoryOf : List Bytes → List Bytes → List Bytes → Type 0
IsHistoryOf hs held gone = Permᴰ hs (held ++ (gone ++ gone))

xor_where-history :
    (p : Bytes → Bool) (hs held gone : List Bytes) (acc : Bytes)
    → IsHistoryOf hs held gone
    → xor_where p acc hs ≡ xor_where p acc held
xor_where-history p hs held gone acc perm =
    xor_where_perm p acc perm
    ∙ xor_where-append p acc held (gone ++ gone)
    ∙ xor_where_twice p (xor_where p acc held) gone

xor_where-same :
    (p : Bytes → Bool) (hs ks held lost gone : List Bytes) (acc : Bytes)
    → IsHistoryOf hs held lost
    → IsHistoryOf ks held gone
    → xor_where p acc hs ≡ xor_where p acc ks
xor_where-same p hs ks held lost gone acc h k =
    xor_where-history p hs held lost acc h ∙ sym (xor_where-history p ks held gone acc k)

-- Two nodes that hold the same hashes advertise the same tree, in whatever order they folded them
-- in, and whatever other hashes each of them has folded in and out again, superseded, in between.
pub xor_all_perm :
    (agg : Aggregates) (hs ks held lost gone : List Bytes)
    → IsSized agg
    → All IsHash hs
    → All IsHash ks
    → IsHistoryOf hs held lost
    → IsHistoryOf ks held gone
    → SameTree (xor_all agg hs) (xor_all agg ks)
xor_all_perm agg hs ks held lost gone v p q h k =
    let x = xor_all-Reads agg hs v p in
    let y = xor_all-Reads agg ks v q in
    record {
      same_leaf = λ b s lt.
          x.at_leaf b s lt
          ∙ xor_where-same (λ z. leaf_of z == b * 256 + s) hs ks held lost gone (leaf agg b s) h k
          ∙ sym (y.at_leaf b s lt);
      same_coarse = λ b.
          x.at_coarse b
          ∙ xor_where-same (λ z. leaf_of z / 256 == b) hs ks held lost gone (coarse_at agg b) h k
          ∙ sym (y.at_coarse b);
      same_root =
          x.at_root ∙ xor_where-same (λ _. true) hs ks held lost gone agg.root h k ∙ sym y.at_root;
    }
