-- ===== src/Index/Messages.antt =====
-- index.rs and proto/mesh.proto: the configuration, the messages, and `well_formed`.
use narshare.Base.{
  ℕ, Bool, false, not, ◌&&◌, ◌||◌, Option, List, [], ◌∷◌, ◌==◌, length, is_empty, Result, ok, ◌>>=◌,
  context, corrupt_event,
}
use narshare.Base.Order.{nat_ord, list_ord}
use narshare.Base.Sets.{contains, canon}
use narshare.Facts.{Bytes, Attestation, hash_part_of}
use narshare.Wire.{Wire, Event}

-- The configured origin universe: this node and its peers.
pub record Config : Type 0 where
  pub self_name : Bytes
  pub peer_names : List Bytes

unfoldable pub origin_set : Config → List Bytes
origin_set c = canon (c.self_name ∷ c.peer_names)

unfoldable pub is_known_origin : Config → Bytes → Bool
is_known_origin c name = contains name (origin_set c)

-- `proto::OriginClock`
pub record OriginClock : Type 0 where
  pub origin : Bytes
  pub generation : ℕ
  pub seq : ℕ

pub record RangeAsk : Type 0 where
  pub origin : Bytes
  pub generation : ℕ
  pub after : ℕ
  pub until : ℕ

pub record RangeReply : Type 0 where
  pub origin : Bytes
  pub generation : ℕ
  pub after : ℕ
  pub events : List Event
  pub reachable : Bool

pub record MerkleAsk : Type 0 where
  pub prefix : Bytes
  pub expand : Bool
  pub fetch : Bool

pub record MerkleNode : Type 0 where
  pub prefix : Bytes
  pub children : Bytes

pub record SyncRequest : Type 0 where
  pub have : List OriginClock
  pub atts_cursor : Bytes
  pub skip_origins : List Bytes
  pub ranges : List RangeAsk
  pub merkle : List MerkleAsk

-- `proto::origin_update::Body`
pub data Body : Type 0 where
  up_to_date : Body
  suffix : List Event → Body
  snapshot : List Bytes → Body

pub record OriginUpdate : Type 0 where
  pub origin : Bytes
  pub generation : ℕ
  pub seq : ℕ
  pub truncated : Bool
  pub body : Option Body

pub record RespondBundle : Type 0 where
  pub origins : List OriginUpdate
  pub attests : List Attestation
  pub atts_next : Option Bytes
  pub ranges : List RangeReply
  pub fact_root : Option Bytes
  pub merkle : List MerkleNode

pub data Applied : Type 0 where
  applied : ℕ → Applied
  need_snapshot : Applied

abbrev starts_with_slash : Bytes → Bool
starts_with_slash [] = false
starts_with_slash (c ∷ cs) = c == b'/'

-- A real hash, a real store path, and content addressing or a signature.
unfoldable pub well_formed : Attestation → Bool
unfolding hash_part_of
well_formed a =
    (length a.nar_hash == 32)
    && starts_with_slash a.store_path
    && (length (hash_part_of a.store_path) == 32)
    && (not (is_empty a.ca) || not (is_empty a.sigs))

-- Journal rows decoded, in order.
unfoldable pub decode_all : Wire → List Bytes → Result (List Event)
decode_all w [] = ok []
decode_all w (blob ∷ raw) = do
  e ← context (w.decode_event blob) corrupt_event
  events ← decode_all w raw
  ok (e ∷ events)
