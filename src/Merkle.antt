-- ===== src/Merkle.antt =====
-- store/rocks.rs: the Merkle aggregates over the attestation hashes, and `leaf_of` of store/mod.rs.
-- A `[u8; 16]` is the list of its bytes.
pub mod Cells
pub mod Tree
use Prim.Native.Nat.{bit_xor}
use narshare.Base.{
  ℕ, ◌+◌, ◌*◌, ◌/◌, ◌%◌, Option, none, some, List, [], ◌∷◌, map, arith, get_or, get_elem?, set,
  replicate, length, Result, ok, err, merkle_depth,
}
use narshare.Facts.{Bytes}

abbrev pub merkle_fanout : ℕ
merkle_fanout = 256

abbrev pub zero_hash : Bytes
zero_hash = replicate 16 0

-- `u16::from_be_bytes([h[0], h[1]])`
abbrev pub leaf_of : Bytes → ℕ
leaf_of h = get_or h 0 0 * 256 + get_or h 1 0

-- `dst ^= src`, byte by byte, as far as both go.
unfoldable pub xor_into : Bytes → Bytes → Bytes
xor_into [] src = []
xor_into (a ∷ dst) [] = a ∷ dst
xor_into (a ∷ dst) (b ∷ src) = bit_xor a b ∷ xor_into dst src

pub record Aggregates : Type 0 where
  pub blocks : List (Option (List Bytes))
  pub coarse : List Bytes
  pub root : Bytes

abbrev pub empty_cells : List Bytes
empty_cells = replicate merkle_fanout zero_hash

pub new : Aggregates
new = record {
  blocks = replicate merkle_fanout none;
  coarse = replicate merkle_fanout zero_hash;
  root = zero_hash;
}

-- `get_or_insert_with`: an unmaterialised block becomes one of zeros.
abbrev pub cells_or_new : Option (List Bytes) → List Bytes
cells_or_new none = empty_cells
cells_or_new (some cells) = cells

-- `xor_into(&mut cells[i], h)`; the index is in range for a leaf of 16 bits.
unfoldable pub xor_at : List Bytes → ℕ → Bytes → List Bytes
xor_at cells i h = set cells i (xor_into (get_or cells i zero_hash) h)

unfoldable pub xor : Aggregates → Bytes → Aggregates
xor agg h =
    let leaf = leaf_of h in
    let block = leaf / 256 in
    let slot = leaf % 256 in
    let cells = cells_or_new (get_or agg.blocks block none) in
    record {
      blocks = set agg.blocks block (some (xor_at cells slot h));
      coarse = xor_at agg.coarse block h;
      root = xor_into agg.root h;
    }

-- One block's 256 leaves.
unfoldable pub leaves : Aggregates → ℕ → List Bytes
leaves agg block = cells_or_new (get_or agg.blocks block none)

-- `commit_with_delta` and `rebuild_aggregates` fold their hashes in one by one.
unfoldable pub xor_all : Aggregates → List Bytes → Aggregates
xor_all agg [] = agg
xor_all agg (h ∷ hs) = xor_all (xor agg h) hs

-- `merkle_root` and `merkle_children`: the coarse level, or the leaves of one block.
abbrev pub merkle_root : Aggregates → Bytes
merkle_root agg = agg.root

unfoldable pub merkle_children : Aggregates → Bytes → Result (List Bytes)
merkle_children agg [] = ok agg.coarse
merkle_children agg (b ∷ []) = ok (leaves agg b)
merkle_children agg (b ∷ c ∷ rest) = err (merkle_depth (length (b ∷ c ∷ rest)))
