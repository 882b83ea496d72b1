-- ===== src/Store/Pages.antt =====
-- store/rocks.rs: `attestation_page`, one page of the fact table in key order.
use narshare.Base.{
  ℕ, ◌+◌, Bool, true, false, not, ◌&&◌, Option, none, some, List, [], ◌∷◌, ◌++◌, ltb, if◌then◌else◌,
  length, take, is_empty,
}
use narshare.Base.Order.{nat_ord, list_ord, cmp_list}
use narshare.Base.Sets.{same}
use narshare.Facts.{Bytes, Attestation}
use narshare.Wire.{Wire}
use narshare.Store.{Db}
use Prim.Native.Nat.Ordering.{lt}

abbrev pub starts_with : Bytes → Bytes → Bool
starts_with prefix k = same (take (length prefix) k) prefix

abbrev is_below : Bytes → Bytes → Bool
is_below k from = elim (cmp_list k from) [ lt ↦ true | _ ↦ false ]

-- The seek of the iterator: the rows from a key on.
unfoldable pub seek : Bytes → List (Bytes × Attestation) → List (Bytes × Attestation)
seek from [] = []
seek from ((k, a) ∷ rows) = elim (is_below k from) [ true ↦ seek from rows | false ↦ (k, a) ∷ rows ]

-- The walk: it stops outside the prefix, skips the cursor, and stops where the page is full. The
-- answer is the page and, if there is more, the key to resume from.
unfoldable pub walk :
    Wire
    → Bytes
    → Bytes
    → ℕ
    → List (Bytes × Attestation)
    → ℕ
    → Bytes
    → List Attestation
    → List Attestation × Option Bytes
walk w prefix cursor max_bytes [] used last_key page = (page, none)
walk w prefix cursor max_bytes ((k, a) ∷ rows) used last_key page = elim (starts_with prefix k) [
  | false ↦ (page, none)
  | true ↦ elim (same k cursor) [
    | true ↦ walk w prefix cursor max_bytes rows used last_key page
    | false ↦
        let len = length (w.encode_attestation a) in
        elim (ltb max_bytes (used + len) && not (is_empty page)) [
          | true ↦ (page, some last_key)
          | false ↦ walk w prefix cursor max_bytes rows (used + len) k (page ++ (a ∷ []))
        ]
  ]
]

unfoldable pub attestation_page : Wire → Db → Bytes → Bytes → ℕ → List Attestation × Option Bytes
attestation_page w db prefix cursor max_bytes =
    let from = if is_empty cursor then prefix else cursor in
    walk w prefix cursor max_bytes (seek from db.facts.att) 0 [] []
