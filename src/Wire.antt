-- ===== src/Wire.antt =====
-- proto/mesh.proto and the libraries under it: the messages of the sync protocol, and what the
-- code takes from prost (the encoding) and blake3 (the digest).
use narshare.Base.{ℕ, ◌≡◌, Option, some, ◌++◌, take, length}
use narshare.Facts.{Bytes, Attestation, path_key_of}

pub data Op : Type 0 where
  have drop : Bytes → Op
  attest : Attestation → Op

-- `proto::Event`
pub record Event : Type 0 where
  pub seq : ℕ
  pub op : Option Op

-- prost's encoders and decoder, and blake3 with its 32 bytes of output. Decoding what was encoded
-- gives the event back.
pub record Wire : Type 0 where
  pub encode_event : Event → Bytes
  pub decode_event : Bytes → Option Event
  pub encode_attestation : Attestation → Bytes
  pub blake3 : Bytes → Bytes
  pub length-blake3 : (s : Bytes) → length (blake3 s) ≡ 32
  pub decode-encode : (e : Event) → decode_event (encode_event e) ≡ some e

-- 128 bits over the identity and the body.
unfoldable pub attestation_hash : Wire → Attestation → Bytes
attestation_hash w att = take 16 (w.blake3 (path_key_of att ++ w.encode_attestation att))
