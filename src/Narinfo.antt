-- ===== src/Narinfo.antt =====
-- narinfo.rs: the text of a narinfo, as it is rendered, parsed, and rewritten for the client.
use narshare.Base.{
  ℕ, ◌≡◌, Bool, true, false, not, ◌&&◌, Option, none, some, List, [], ◌∷◌, ◌++◌, map, if◌then◌else◌,
  is_empty, length, replicate, ◌==◌, Result, ok, err, ◌>>=◌, ◌>>◌, bail_if, context, no_colon,
  unsupported_nar_hash, bad_nar_hash, bad_nar_size, missing_url, missing_store_path,
  missing_nar_hash, missing_nar_size,
}
use narshare.Base.Order.{nat_ord, list_ord}
use narshare.Base.Sets.{same}
use narshare.Base.Text.{lines, split_whitespace, join, decimal}
use narshare.Facts.{Bytes, Attestation}
use narshare.Index.Own.{basename}
use narshare.Nixbase32.{encode, decode}
use narshare.Serve.{parse_u64, strip_prefix, split_once}
pub mod FieldLines
pub mod FieldValues
pub mod RoundTrip

pub record RemoteNarinfo : Type 0 where
  pub store_path : Bytes
  pub compression : Bytes
  pub nar_hash : Bytes
  pub nar_size : ℕ
  pub references : List Bytes
  pub deriver : Option Bytes
  pub ca : Option Bytes
  pub sigs : List Bytes

-- `db::PathInfo`: a path of the Nix database.
pub record PathInfo : Type 0 where
  pub path : Bytes
  pub nar_hash : Bytes
  pub nar_size : ℕ
  pub deriver : Option Bytes
  pub sigs : List Bytes
  pub ca : Option Bytes
  pub references : List Bytes

abbrev pub w_store_path : Bytes
w_store_path = b'S' ∷ b't' ∷ b'o' ∷ b'r' ∷ b'e' ∷ b'P' ∷ b'a' ∷ b't' ∷ b'h' ∷ []

abbrev pub w_url : Bytes
w_url = b'U' ∷ b'R' ∷ b'L' ∷ []

abbrev pub w_compression : Bytes
w_compression = b'C' ∷ b'o' ∷ b'm' ∷ b'p' ∷ b'r' ∷ b'e' ∷ b's' ∷ b's' ∷ b'i' ∷ b'o' ∷ b'n' ∷ []

abbrev pub w_file_hash : Bytes
w_file_hash = b'F' ∷ b'i' ∷ b'l' ∷ b'e' ∷ b'H' ∷ b'a' ∷ b's' ∷ b'h' ∷ []

abbrev pub w_file_size : Bytes
w_file_size = b'F' ∷ b'i' ∷ b'l' ∷ b'e' ∷ b'S' ∷ b'i' ∷ b'z' ∷ b'e' ∷ []

abbrev pub w_nar_hash : Bytes
w_nar_hash = b'N' ∷ b'a' ∷ b'r' ∷ b'H' ∷ b'a' ∷ b's' ∷ b'h' ∷ []

abbrev pub w_nar_size : Bytes
w_nar_size = b'N' ∷ b'a' ∷ b'r' ∷ b'S' ∷ b'i' ∷ b'z' ∷ b'e' ∷ []

abbrev pub w_references : Bytes
w_references = b'R' ∷ b'e' ∷ b'f' ∷ b'e' ∷ b'r' ∷ b'e' ∷ b'n' ∷ b'c' ∷ b'e' ∷ b's' ∷ []

abbrev pub w_deriver : Bytes
w_deriver = b'D' ∷ b'e' ∷ b'r' ∷ b'i' ∷ b'v' ∷ b'e' ∷ b'r' ∷ []

abbrev pub w_sig : Bytes
w_sig = b'S' ∷ b'i' ∷ b'g' ∷ []

abbrev pub w_ca : Bytes
w_ca = b'C' ∷ b'A' ∷ []

abbrev pub w_none : Bytes
w_none = b'n' ∷ b'o' ∷ b'n' ∷ b'e' ∷ []

abbrev pub w_bzip2 : Bytes
w_bzip2 = b'b' ∷ b'z' ∷ b'i' ∷ b'p' ∷ b'2' ∷ []

abbrev pub w_sha256 : Bytes
w_sha256 = b's' ∷ b'h' ∷ b'a' ∷ b'2' ∷ b'5' ∷ b'6' ∷ b':' ∷ []

abbrev pub w_nar_slash : Bytes
w_nar_slash = b'n' ∷ b'a' ∷ b'r' ∷ b'/' ∷ []

abbrev pub w_dot_nar : Bytes
w_dot_nar = b'.' ∷ b'n' ∷ b'a' ∷ b'r' ∷ []

-- `writeln!(out, "key: value")`
unfoldable pub line : Bytes → Bytes → Bytes
line key value = key ++ b':' ∷ b' ' ∷ (value ++ 10 ∷ [])

abbrev pub opt_line : Bytes → Option Bytes → Bytes
opt_line key none = []
opt_line key (some value) = line key value

unfoldable pub sig_lines : List Bytes → Bytes
sig_lines [] = []
sig_lines (sig ∷ sigs) = line w_sig sig ++ sig_lines sigs

abbrev pub url_of : Bytes → Bytes
url_of nar_hash = w_nar_slash ++ (encode nar_hash ++ w_dot_nar)

unfoldable pub rewrite_for_client : RemoteNarinfo → Bytes
rewrite_for_client info =
    line w_store_path info.store_path
    ++ (line w_url (url_of info.nar_hash)
        ++ (line w_compression w_none
            ++ (line w_file_hash (w_sha256 ++ encode info.nar_hash)
                ++ (line w_file_size (decimal info.nar_size)
                    ++ (line w_nar_hash (w_sha256 ++ encode info.nar_hash)
                        ++ (line w_nar_size (decimal info.nar_size)
                            ++ (line w_references (join (b' ' ∷ []) info.references)
                                ++ (opt_line w_deriver info.deriver
                                    ++ (sig_lines info.sigs ++ opt_line w_ca info.ca)))))))))

abbrev pub map_option : (Bytes → Bytes) → Option Bytes → Option Bytes
map_option f none = none
map_option f (some a) = some (f a)

-- `format_narinfo`: the references and the deriver are cut to their base names.
unfoldable pub format_narinfo : PathInfo → Bytes → Bytes
format_narinfo info store_dir =
    line w_store_path info.path
    ++ (line w_url (url_of info.nar_hash)
        ++ (line w_compression w_none
            ++ (line w_file_hash (w_sha256 ++ encode info.nar_hash)
                ++ (line w_file_size (decimal info.nar_size)
                    ++ (line w_nar_hash (w_sha256 ++ encode info.nar_hash)
                        ++ (line w_nar_size (decimal info.nar_size)
                            ++ (line w_references (
                                  join (b' ' ∷ [])
                                    (map (λ r. basename r store_dir) info.references))
                                ++ (opt_line w_deriver
                                      (map_option (λ d. basename d store_dir) info.deriver)
                                    ++ (sig_lines info.sigs ++ opt_line w_ca info.ca)))))))))

-- The variables of `parse_narinfo`.
pub record Fields : Type 0 where
  pub store_path : Option Bytes
  pub url_seen : Bool
  pub compression : Bytes
  pub nar_hash : Option Bytes
  pub nar_size : Option ℕ
  pub references : List Bytes
  pub deriver : Option Bytes
  pub ca : Option Bytes
  pub sigs : List Bytes

abbrev pub no_fields : Fields
no_fields = record {
  store_path = none;
  url_seen = false;
  compression = w_bzip2;
  nar_hash = none;
  nar_size = none;
  references = [];
  deriver = none;
  ca = none;
  sigs = [];
}

-- `Some(value).filter(|v| !v.is_empty())`
abbrev pub non_empty : Bytes → Option Bytes
non_empty value = if is_empty value then none else some value

abbrev pub set_nar_hash : Fields → Bytes → Result Fields
set_nar_hash f value = context (strip_prefix w_sha256 value) unsupported_nar_hash >>= λ h.
    context (decode h 32) bad_nar_hash >>= λ bytes. ok (record f { nar_hash = some bytes })

abbrev pub set_nar_size : Fields → Bytes → Result Fields
set_nar_size f value =
    context (parse_u64 value) bad_nar_size >>= λ n. ok (record f { nar_size = some n })

-- The `match` on a line's key.
unfoldable pub parse_field : Bytes → Bytes → Fields → Result Fields
parse_field key value f =
    if same key w_store_path
    then ok (record f { store_path = some value })
    else if same key w_url
    then ok (record f { url_seen = true })
    else if same key w_compression
    then ok (record f { compression = value })
    else if same key w_nar_hash
    then set_nar_hash f value
    else if same key w_nar_size
    then set_nar_size f value
    else if same key w_references
    then ok (record f { references = split_whitespace value })
    else if same key w_deriver
    then ok (record f { deriver = non_empty value })
    else if same key w_ca
    then ok (record f { ca = non_empty value })
    else if same key w_sig && not (is_empty value)
    then ok (record f { sigs = f.sigs ++ value ∷ [] })
    else ok f

-- `value.strip_prefix(' ').unwrap_or(value)`
abbrev pub or_whole : Bytes → Option Bytes → Bytes
or_whole value none = value
or_whole value (some rest) = rest

abbrev pub unspaced : Bytes → Bytes
unspaced value = or_whole value (strip_prefix (b' ' ∷ []) value)

unfoldable pub parse_line : Bytes → Fields → Result Fields
parse_line l f =
    if is_empty l
    then ok f
    else context (split_once b':' l) no_colon >>= λ parts. parse_field parts.0 (unspaced parts.1) f

unfoldable pub parse_lines : List Bytes → Fields → Result Fields
parse_lines [] f = ok f
parse_lines (l ∷ ls) f = parse_line l f >>= parse_lines ls

abbrev pub parsed : Fields → Result RemoteNarinfo
parsed f =
    bail_if (not f.url_seen) missing_url
    >> (context f.store_path missing_store_path >>= λ store_path.
        context f.nar_hash missing_nar_hash >>= λ nar_hash.
        context f.nar_size missing_nar_size >>= λ nar_size. ok (record {
          store_path = store_path;
          compression = f.compression;
          nar_hash = nar_hash;
          nar_size = nar_size;
          references = f.references;
          deriver = f.deriver;
          ca = f.ca;
          sigs = f.sigs;
        }))

unfoldable pub parse_narinfo : Bytes → Result RemoteNarinfo
parse_narinfo text = parse_lines (lines text) no_fields >>= parsed

-- index.rs: an attestation as the narinfo that is served for it.
unfoldable pub att_to_remote : Attestation → RemoteNarinfo
att_to_remote a = record {
  store_path = a.store_path;
  compression = w_none;
  nar_hash = if length a.nar_hash == 32 then a.nar_hash else replicate 32 0;
  nar_size = a.nar_size;
  references = a.references;
  deriver = none;
  ca = non_empty a.ca;
  sigs = a.sigs;
}
