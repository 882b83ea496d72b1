-- ===== src/Facts.antt =====
-- store/mod.rs, the fact half: attestations, their canonical form, their identity and the merge.
-- A Rust string is the list of its bytes; `cmp` on strings and on vectors is lexicographic.
pub mod Join
pub mod Converge
pub mod Table
use Prim.Native.Nat.{Ordering, compare}
use narshare.Base.{
  ℕ, ◌<◌, ◌≡◌, refl, Bool, true, false, ◌&&◌, ◌||◌, Option, none, some, List, [], ◌∷◌, ◌++◌, arith,
  ltb, leb, ◌==◌, if◌then◌else◌, length, take, get_elem?,
}
use narshare.Base.Order.{nat_ord, list_ord, cmp_list, then_with, is_gt}
use narshare.Base.Sets.{same, same_self, eq_of_same, sort, dedup}

abbrev pub Bytes : Type 0
Bytes = List ℕ

-- `proto::Attestation`
pub record Attestation : Type 0 where
  pub store_path : Bytes
  pub nar_hash : Bytes
  pub nar_size : ℕ
  pub references : List Bytes
  pub ca : Bytes
  pub sigs : List Bytes

-- What follows the last slash: `rsplit('/').next()`.
abbrev has_slash : Bytes → Bool
has_slash [] = false
has_slash (c ∷ cs) = c == b'/' || has_slash cs

last_component : Bytes → Bytes
last_component [] = []
last_component (c ∷ cs) = elim (has_slash cs) [
  | true ↦ last_component cs
  | false ↦ if c == b'/' then cs else c ∷ cs
]

-- `str::get(..n)`: fails past the end and inside a character, that is, before a continuation byte.
abbrev is_boundary : Option ℕ → Bool
is_boundary none = true
is_boundary (some b) = ltb b 128 || leb 192 b

get_front : ℕ → Bytes → Option Bytes
get_front n s = if leb n (length s) && is_boundary (get_elem? s n) then some (take n s) else none

abbrev unwrap_or_empty : Option Bytes → Bytes
unwrap_or_empty none = []
unwrap_or_empty (some s) = s

unfoldable pub hash_part_of : Bytes → Bytes
unfolding last_component get_front
hash_part_of store_path = unwrap_or_empty (get_front 32 (last_component store_path))

unfoldable pub canonicalize : Attestation → Attestation
unfolding sort dedup
canonicalize att = record att { sigs = dedup (sort att.sigs) }

unfoldable pub path_key_of : Attestation → Bytes
unfolding hash_part_of
path_key_of att = hash_part_of att.store_path ++ att.nar_hash

unfoldable pub body_cmp : Attestation → Attestation → Ordering
body_cmp a b =
    then_with
      (then_with (then_with (cmp_list a.store_path b.store_path) (compare a.nar_size b.nar_size))
        (cmp_list a.references b.references))
      (cmp_list a.ca b.ca)

-- The derived `PartialEq`.
unfoldable pub attestation_eq : Attestation → Attestation → Bool
attestation_eq a b =
    same a.store_path b.store_path
    && same a.nar_hash b.nar_hash
    && (a.nar_size == b.nar_size)
    && same a.references b.references
    && same a.ca b.ca
    && same a.sigs b.sigs

-- The body of `incoming` replaces that of `cur` where it compares greater.
unfoldable pub take_body : Attestation → Attestation → Attestation
take_body cur incoming =
    if is_gt (body_cmp incoming cur)
    then record cur {
      store_path = incoming.store_path;
      nar_size = incoming.nar_size;
      references = incoming.references;
      ca = incoming.ca;
    }
    else cur

-- Signatures appended, then put in canonical form.
unfoldable pub add_sigs : Attestation → Attestation → Attestation
unfolding canonicalize
add_sigs cur incoming = canonicalize (record cur { sigs = cur.sigs ++ incoming.sigs })

unfoldable pub merge_into : Option Attestation → Attestation → Option Attestation
merge_into none incoming = some (canonicalize incoming)
merge_into (some before) incoming =
    let cur = take_body (add_sigs (canonicalize before) incoming) incoming in
    if attestation_eq cur before then none else some cur

pub attestation_eq_sound : (a b : Attestation) → attestation_eq a b ≡ true → a ≡ b
unfolding attestation_eq
attestation_eq_sound a b h = ground (
  arith,
  eq_of_same a.store_path b.store_path,
  eq_of_same a.nar_hash b.nar_hash,
  eq_of_same a.references b.references,
  eq_of_same a.ca b.ca,
  eq_of_same a.sigs b.sigs,
)
