-- ===== src/Manifest/Build.antt =====
-- manifest.rs: `build_tree` and `build_manifest`, on what the file system answers.
pub mod Agree
use narshare.Base.{
  ℕ, zero, suc, Bool, not, Option, List, [], ◌∷◌, ◌++◌, length, take, drop, Result, ok, err, ◌>>=◌,
  ◌>>◌, bail_if, unsupported_file, non_utf8, out_of_fuel,
}
use narshare.Base.Order.{nat_ord}
use narshare.Facts.{Bytes}
use narshare.Nixbase32.{encode}
use narshare.Nar.Build.{Tree, Files, link, plain, folder, other, no_files, named}
use narshare.Manifest.{
  Node, Entries, Manifest, Layout, dir, symlink, regular, end, entry, synth_layout,
}

-- What is taken from outside: UTF-8, and blake3 with its text in hex and the way back.
pub record Codec : Type 0 where
  pub utf8 : Bytes → Bool
  pub hash : Bytes → Bytes
  pub hex : Bytes → Option Bytes

-- The hashes of a file's segments. Each step of the loop takes `segment_bytes` of the content, or
-- what remains.
unfoldable pub hash_segments : (Bytes → Bytes) → ℕ → ℕ → Bytes → Result (List Bytes)
hash_segments hash segment_bytes fuel [] = ok []
hash_segments hash segment_bytes zero (c ∷ content) = err out_of_fuel
hash_segments hash segment_bytes (suc fuel) (c ∷ content) = do
  rest ← hash_segments hash segment_bytes fuel (drop segment_bytes (c ∷ content))
  ok (hash (take segment_bytes (c ∷ content)) ∷ rest)

unfoldable mutual
  pub build_tree : Codec → ℕ → Tree → Result Node
  build_tree k segment_bytes (link target) = do
    bail_if (not (k.utf8 target)) non_utf8
    ok (symlink target)
  build_tree k segment_bytes (plain executable content) = do
    segments ← hash_segments k.hash segment_bytes (length content) content
    ok (regular executable (length content) segments)
  build_tree k segment_bytes (folder files) = do
    entries ← build_entries k segment_bytes files
    ok (dir entries)
  build_tree k segment_bytes other = err unsupported_file

  pub build_entries : Codec → ℕ → Files → Result Entries
  build_entries k segment_bytes no_files = ok end
  build_entries k segment_bytes (named name child files) = do
    bail_if (not (k.utf8 name)) non_utf8
    node ← build_tree k segment_bytes child
    rest ← build_entries k segment_bytes files
    ok (entry name node rest)

abbrev pub version : ℕ
version = 1

abbrev w_sha256 : Bytes
w_sha256 = b's' ∷ b'h' ∷ b'a' ∷ b'2' ∷ b'5' ∷ b'6' ∷ b':' ∷ []

abbrev pub manifest_with : Bytes → ℕ → ℕ → Node → Manifest
manifest_with nar_hash nar_size segment_bytes root = record {
  version = version;
  nar_hash = w_sha256 ++ encode nar_hash;
  nar_size = nar_size;
  segment_bytes = segment_bytes;
  root = root;
}

abbrev pub checked : Codec → Manifest → Result Manifest
checked k m = synth_layout k.hex m >>= λ layout. ok m

unfoldable pub build_manifest : Codec → Tree → Bytes → ℕ → ℕ → Result Manifest
build_manifest k root nar_hash nar_size segment_bytes = do
  node ← build_tree k segment_bytes root
  checked k (manifest_with nar_hash nar_size segment_bytes node)
