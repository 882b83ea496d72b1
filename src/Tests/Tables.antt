-- ===== src/Tests/Tables.antt =====
-- The theorems on facts, on the tree and on the tables, at small examples.
use mathlib.Core.List.Permᴰ.{nil, cons, swap, trans}
use narshare.Base.{◌≡◌, refl, inl, inr, false, none, [], ◌∷◌, arith, replicate, ok}
use narshare.Base.Order.{nat_ord, list_ord}
use narshare.Base.Sets.{same, contains}
use narshare.Facts.{Bytes}
use narshare.Facts.Converge.{absorb, absorb_same}
use narshare.Merkle.{new, xor_all}
use narshare.Merkle.Tree.{IsHash, Reads, SameTree, new-IsSized, xor_all-Reads, xor_all_perm}
use narshare.Store.{Db, add, drop_hash, apply_holds}
use narshare.Store.Holdings.{IsMirrored, held_after, apply_holds-holds}
use narshare.Tests.Data.{
  alice, alice-IsName, hash_of, empty_db, empty_db-IsMirrored, hello, hello_again,
}

absorb_same_example :
    absorb none (hello ∷ hello_again ∷ []) ≡ absorb none (hello_again ∷ hello ∷ hello_again ∷ [])
absorb_same_example =
    absorb_same (hash_of 7) (hello ∷ hello_again ∷ []) (hello_again ∷ hello ∷ hello_again ∷ [])
      (refl, (refl, tt)) (refl, (refl, (refl, tt))) (inr (inl refl), (inl refl, tt))
      (inr (inl refl), (inl refl, (inr (inl refl), tt)))

abbrev left_hash : Bytes
left_hash = 1 ∷ 2 ∷ replicate 14 5

abbrev right_hash : Bytes
right_hash = 1 ∷ 3 ∷ replicate 14 6

left_hash-IsHash : IsHash left_hash
left_hash-IsHash = omega arith

right_hash-IsHash : IsHash right_hash
right_hash-IsHash = omega arith

xor_all-Reads_example :
    Reads (xor_all new (left_hash ∷ right_hash ∷ [])) (left_hash ∷ right_hash ∷ []) new
xor_all-Reads_example =
    xor_all-Reads new (left_hash ∷ right_hash ∷ []) new-IsSized
      (left_hash-IsHash, (right_hash-IsHash, tt))

-- One node has folded in the right hash after another that it folded out again.
xor_all_perm_example :
    SameTree (xor_all new (left_hash ∷ left_hash ∷ right_hash ∷ [])) (xor_all new (right_hash ∷ []))
xor_all_perm_example =
    xor_all_perm new (left_hash ∷ left_hash ∷ right_hash ∷ []) (right_hash ∷ []) (right_hash ∷ [])
      (left_hash ∷ []) [] new-IsSized
      (left_hash-IsHash, (left_hash-IsHash, (right_hash-IsHash, tt))) (right_hash-IsHash, tt)
      (trans (cons refl (swap refl refl)) (swap refl refl)) (cons refl nil)

apply_holds-holds_example :
    (next : Db) × (apply_holds empty_db alice
        (add (hash_of 7) ∷ drop_hash (hash_of 7) ∷ add (hash_of 9) ∷ [])
      ≡ ok next)
    × ((h : Bytes)
        → contains h (next.hold alice)
          ≡ held_after
              (contains h [])
              h
              (add (hash_of 7) ∷ drop_hash (hash_of 7) ∷ add (hash_of 9) ∷ []))
    × ((o h : Bytes) → same o alice ≡ false → contains h (next.hold o) ≡ contains h [])
    × IsMirrored next
apply_holds-holds_example =
    apply_holds-holds empty_db alice
      (add (hash_of 7) ∷ drop_hash (hash_of 7) ∷ add (hash_of 9) ∷ []) alice-IsName
      empty_db-IsMirrored
