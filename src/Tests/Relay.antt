-- ===== src/Tests/Relay.antt =====
-- A narinfo with a reference and a signature, the key that made it, and two peers that hold the path.
use narshare.Base.{
  ℕ, ◌≡◌, ◌≤◌, ◌↔◌, refl, true, false, some, none, List, [], ◌∷◌, ◌++◌, ltb, All, Among, arith,
  Result, ok, is_empty, replicate,
}
use narshare.Base.Order.{nat_ord, list_ord}
use narshare.Base.Sets.{same}
use narshare.Base.Keys.{get}
use narshare.Facts.{Bytes, Attestation, hash_part_of}
use narshare.Merkle.{new}
use narshare.Store.{Db}
use narshare.Store.Lookup.{lookup_hash_part, lookup_atts, facts_at, scan}
use narshare.Index.Messages.{well_formed}
use narshare.Serve.{split_once}
use narshare.Tests.Data.{empty_db}
use narshare.Nixbase32.{encode, decode}
use narshare.Nixbase32.Put.{AreBytes}
use narshare.Nixbase32.RoundTrip.{decode-encode}
use narshare.Index.Own.{Local, basename, find_hash_part, found, feasible}
use narshare.Narinfo.{
  RemoteNarinfo, PathInfo, att_to_remote, format_narinfo, rewrite_for_client, parse_narinfo, url_of,
  w_dot_nar,
}
use narshare.Narinfo.FieldValues.{IsRelayable}
use narshare.Narinfo.RoundTrip.{remote_of, parse_narinfo-format_narinfo}
use narshare.Sig.{Crypto, TrustedKeys, fingerprint, any_sig_valid, any_of, verifies, read_entry}
use narshare.Sig.Readings.{IsSignedBy}
use narshare.Sig.Trust.{any_sig_valid-IsSignedBy}
use narshare.Health.{fresh, available}
use narshare.Proxy.Trusted.{trusting, index_lookup, IsTrusted, get_narinfo-IsTrusted}
use narshare.Proxy.{
  narinfo, strip_suffix, max_by_key, candidates, idx_of, min_tier, Proxy, Peer, Found, sources_of,
  tier_of, union_sources, get_nar, get_narinfo, w_dot_narinfo, all_alphanumeric,
}
use narshare.Proxy.Sources.{IsCandidate}
use narshare.Proxy.Choice.{sources_of-IsCandidate}
use narshare.Proxy.Answers.{IsFor}
use narshare.Proxy.Replies.{IsOfRow, IsNarinfoFor, get_nar-IsFor, get_narinfo-IsNarinfoFor}

decode-encode_example : decode (encode (255 ∷ 1 ∷ [])) 2 ≡ some (255 ∷ 1 ∷ [])
decode-encode_example = decode-encode (255 ∷ 1 ∷ []) (omega arith)

abbrev sevens : Bytes
sevens = replicate 32 7

abbrev dir : Bytes
dir = b'/' ∷ b's' ∷ []

abbrev registered : PathInfo
registered = record {
  path = dir ++ b'/' ∷ b'p' ∷ [];
  nar_hash = sevens;
  nar_size = 112;
  deriver = none;
  sigs = (b'k' ∷ b':' ∷ b's' ∷ []) ∷ [];
  ca = none;
  references = (dir ++ b'/' ∷ b'r' ∷ []) ∷ [];
}

sevens-AreBytes : AreBytes sevens
sevens-AreBytes = omega arith

registered-IsRelayable : IsRelayable (remote_of registered dir)
unfolding basename
registered-IsRelayable = record {
  path = omega arith;
  hash = omega arith;
  hash_len = refl;
  size = omega arith;
  references = ((refl, (refl, tt)), tt);
  deriver = tt;
  ca = tt;
  sigs = ((refl, omega arith), tt);
}

parse_narinfo-format_narinfo_example :
    (parse_narinfo (format_narinfo registered dir) ≡ ok (remote_of registered dir))
    × (rewrite_for_client (remote_of registered dir) ≡ format_narinfo registered dir)
parse_narinfo-format_narinfo_example =
    parse_narinfo-format_narinfo registered dir registered-IsRelayable

-- A signature that is its own text.
abbrev toy_crypto : Crypto
toy_crypto = record {
  decode64 = λ b. some b;
  public_key = λ b. some b;
  signature = λ b. some b;
  verify = λ pk message sig. same pk sig;
}

abbrev toy_keys : TrustedKeys
toy_keys = record { keys = (b'k' ∷ [], b's' ∷ []) ∷ [] }

abbrev remote : RemoteNarinfo
remote = remote_of registered dir

any_sig_valid-IsSignedBy_example :
    (any_sig_valid toy_crypto toy_keys remote ≡ true)
    ↔ IsSignedBy toy_crypto (fingerprint remote) remote.sigs toy_keys.keys
any_sig_valid-IsSignedBy_example = any_sig_valid-IsSignedBy toy_crypto toy_keys remote

abbrev peer : Bytes → ℕ → Peer
peer name tier = record { name = name; tier = tier; health = fresh }

abbrev proxy : Proxy
proxy = record {
  self_name = b's' ∷ [];
  list = peer (b'a' ∷ []) 2 ∷ peer (b'b' ∷ []) 1 ∷ [];
  now = 5;
  refuses = λ size. ltb 1000 size;
}

abbrev row : Found
row = record { info = remote; holders = (b's' ∷ []) ∷ (b'a' ∷ []) ∷ (b'b' ∷ []) ∷ [] }

sources_of-IsCandidate_example :
    (Among {A = ℕ × Bytes} (1, url_of sevens) (sources_of proxy row) ↔ (
      IsCandidate proxy row.holders 1
      × ((j : ℕ) → IsCandidate proxy row.holders j → tier_of proxy 1 ≤ tier_of proxy j)))
    × (is_empty (sources_of proxy row) ≡ true → ¬ IsCandidate proxy row.holders 1)
sources_of-IsCandidate_example = sources_of-IsCandidate proxy row 1

abbrev answers : Bytes → Result (List Found)
answers key = ok (row ∷ [])

get_nar-IsFor_example :
    IsFor proxy (row ∷ []) (get_nar proxy answers false none (encode sevens ++ w_dot_nar))
    × All (IsOfRow proxy (row ∷ [])) (union_sources proxy [] (row ∷ []))
get_nar-IsFor_example =
    get_nar-IsFor proxy answers false none sevens (row ∷ []) sevens-AreBytes refl refl

abbrev hash_part : Bytes
hash_part = replicate 32 b'a'

letters : all_alphanumeric hash_part ≡ true
unfolding all_alphanumeric
letters = refl

get_narinfo-IsNarinfoFor_example :
    IsNarinfoFor proxy (row ∷ []) (get_narinfo proxy answers (hash_part ++ w_dot_narinfo))
get_narinfo-IsNarinfoFor_example =
    get_narinfo-IsNarinfoFor proxy answers hash_part (row ∷ []) refl letters refl
      (registered-IsRelayable, tt)

-- An index with one signed fact, held by the second peer.
abbrev signed : Attestation
signed = record {
  store_path = b'/' ∷ hash_part;
  nar_hash = sevens;
  nar_size = 112;
  references = [];
  ca = [];
  sigs = (b'k' ∷ b':' ∷ b's' ∷ []) ∷ [];
}

abbrev one_fact : Db
one_fact = record empty_db {
  holdby = λ h. (b'b' ∷ []) ∷ [];
  facts = record {
    att = (1 ∷ (hash_part ++ sevens), signed) ∷ [];
    att_path = (hash_part ++ sevens, 1 ∷ []) ∷ [];
    att_nar = [];
    agg = new;
  };
}

abbrev nobody : Local
nobody = record {
  candidates = [];
  references_of = λ id. ok [];
  store_dir = dir;
  substitutable = λ c. true;
  any_sig_valid = λ a. false;
}

abbrev told : Bytes
told = rewrite_for_client (att_to_remote signed)

signed_is_told :
    get_narinfo proxy
      (index_lookup (trusting toy_crypto toy_keys nobody) one_fact)
      (hash_part ++ w_dot_narinfo)
    ≡ narinfo told
unfolding get_narinfo index_lookup find_hash_part found feasible well_formed lookup_hash_part
    lookup_atts facts_at scan get hash_part_of any_sig_valid any_of verifies read_entry split_once
    strip_suffix all_alphanumeric max_by_key sources_of candidates idx_of min_tier available
    att_to_remote
signed_is_told = refl

get_narinfo-IsTrusted_example : IsTrusted toy_crypto toy_keys told
get_narinfo-IsTrusted_example =
    get_narinfo-IsTrusted proxy toy_crypto toy_keys nobody one_fact hash_part told signed_is_told
