-- ===== src/Sig.antt =====
-- sig.rs: the trusted keys of a node, and whether a narinfo is signed by one of them.
use narshare.Base.{
  ℕ, ◌≡◌, Bool, true, false, ◌&&◌, ◌||◌, Option, none, some, List, [], ◌∷◌, ◌++◌, map, ◌==◌,
  if◌then◌else◌, is_empty,
}
use narshare.Base.Order.{nat_ord, list_ord}
use narshare.Base.Sets.{same, sort}
use narshare.Base.Text.{lines, split_whitespace, join, decimal}
use narshare.Facts.{Bytes}
use narshare.Nixbase32.{encode}
use narshare.Serve.{split_once, trim}
use narshare.Narinfo.{RemoteNarinfo, w_sha256}
pub mod Readings
pub mod Trust

-- The crates base64 and ed25519-compact: the standard decoder, what bytes are a public key or a
-- signature, and the verdict on a message.
pub record Crypto : Type 0 where
  pub decode64 : Bytes → Option Bytes
  pub public_key : Bytes → Option Bytes
  pub signature : Bytes → Option Bytes
  pub verify : Bytes → Bytes → Bytes → Bool

-- The name and the public key of each entry.
pub record TrustedKeys : Type 0 where
  pub keys : List (Bytes × Bytes)

abbrev pub no_keys : TrustedKeys
no_keys = record { keys = [] }

-- "name:base64" of a key or a signature, its bytes read by `from_slice`.
abbrev pub read_raw : (Bytes → Option Bytes) → Bytes → Option Bytes → Option (Bytes × Bytes)
read_raw from_slice name none = none
read_raw from_slice name (some raw) = elim (from_slice raw) [
  | none ↦ none
  | some value ↦ some (name, value)
]

abbrev pub read_parts :
    Crypto → (Bytes → Option Bytes) → Option (Bytes × Bytes) → Option (Bytes × Bytes)
read_parts c from_slice none = none
read_parts c from_slice (some (name, b64)) = read_raw from_slice name (c.decode64 b64)

unfoldable pub read_entry : Crypto → (Bytes → Option Bytes) → Bytes → Option (Bytes × Bytes)
read_entry c from_slice entry = read_parts c from_slice (split_once b':' entry)

-- `TrustedKeys::parse`: malformed entries are skipped.
abbrev cons_entry : Option (Bytes × Bytes) → List (Bytes × Bytes) → List (Bytes × Bytes)
cons_entry none keys = keys
cons_entry (some kv) keys = kv ∷ keys

unfoldable pub parse_entries : Crypto → List Bytes → List (Bytes × Bytes)
parse_entries c [] = []
parse_entries c (e ∷ entries) = cons_entry (read_entry c c.public_key e) (parse_entries c entries)

unfoldable pub parse_keys : Crypto → List Bytes → TrustedKeys
parse_keys c entries = record { keys = parse_entries c entries }

abbrev pub w_trusted : Bytes
w_trusted =
    b't' ∷ b'r' ∷ b'u' ∷ b's' ∷ b't' ∷ b'e' ∷ b'd' ∷ b'-' ∷ b'p' ∷ b'u' ∷ b'b' ∷ b'l' ∷ b'i' ∷ b'c'
    ∷ b'-' ∷ b'k' ∷ b'e' ∷ b'y' ∷ b's' ∷ []

abbrev pub w_binary_cache : Bytes
w_binary_cache =
    b'b' ∷ b'i' ∷ b'n' ∷ b'a' ∷ b'r' ∷ b'y' ∷ b'-' ∷ b'c' ∷ b'a' ∷ b'c' ∷ b'h' ∷ b'e' ∷ b'-' ∷ b'p'
    ∷ b'u' ∷ b'b' ∷ b'l' ∷ b'i' ∷ b'c' ∷ b'-' ∷ b'k' ∷ b'e' ∷ b'y' ∷ b's' ∷ []

abbrev pub w_extra_trusted : Bytes
w_extra_trusted =
    b'e' ∷ b'x' ∷ b't' ∷ b'r' ∷ b'a' ∷ b'-' ∷ b't' ∷ b'r' ∷ b'u' ∷ b's' ∷ b't' ∷ b'e' ∷ b'd' ∷ b'-'
    ∷ b'p' ∷ b'u' ∷ b'b' ∷ b'l' ∷ b'i' ∷ b'c' ∷ b'-' ∷ b'k' ∷ b'e' ∷ b'y' ∷ b's' ∷ []

abbrev pub nix_default_key : Bytes
nix_default_key =
    b'c' ∷ b'a' ∷ b'c' ∷ b'h' ∷ b'e' ∷ b'.' ∷ b'n' ∷ b'i' ∷ b'x' ∷ b'o' ∷ b's' ∷ b'.' ∷ b'o' ∷ b'r'
    ∷ b'g' ∷ b'-' ∷ b'1' ∷ b':' ∷ b'6' ∷ b'N' ∷ b'C' ∷ b'H' ∷ b'd' ∷ b'D' ∷ b'5' ∷ b'9' ∷ b'X'
    ∷ b'4' ∷ b'3' ∷ b'1' ∷ b'o' ∷ b'0' ∷ b'g' ∷ b'W' ∷ b'y' ∷ b'p' ∷ b'b' ∷ b'M' ∷ b'r' ∷ b'A'
    ∷ b'U' ∷ b'R' ∷ b'k' ∷ b'b' ∷ b'J' ∷ b'1' ∷ b'6' ∷ b'Z' ∷ b'P' ∷ b'M' ∷ b'Q' ∷ b'F' ∷ b'G'
    ∷ b's' ∷ b'p' ∷ b'c' ∷ b'D' ∷ b'S' ∷ b'h' ∷ b'j' ∷ b'Y' ∷ b'=' ∷ []

abbrev pub w_nix_store : Bytes
w_nix_store = b'/' ∷ b'n' ∷ b'i' ∷ b'x' ∷ b'/' ∷ b's' ∷ b't' ∷ b'o' ∷ b'r' ∷ b'e' ∷ []

-- `line.split('#').next()`
unfoldable pub before_hash : Bytes → Bytes
before_hash [] = []
before_hash (c ∷ cs) = let rest = before_hash cs in if c == b'#' then [] else c ∷ rest

-- A line of nix.conf: the last assignment replaces the list, the extra ones extend it.
abbrev pub Assigned : Type 0
Assigned = Option (List Bytes) × List Bytes

abbrev pub assign : Option (Bytes × Bytes) → Assigned → Assigned
assign none a = a
assign (some (k, v)) (base, extra) =
    if same (trim k) w_trusted || same (trim k) w_binary_cache
    then (some (split_whitespace v), extra)
    else if same (trim k) w_extra_trusted
    then (base, extra ++ split_whitespace v)
    else (base, extra)

unfoldable pub conf_lines : List Bytes → Assigned → Assigned
conf_lines [] a = a
conf_lines (l ∷ ls) a = conf_lines ls (assign (split_once b'=' (trim (before_hash l))) a)

abbrev pub or_default : Option (List Bytes) → List Bytes
or_default none = nix_default_key ∷ []
or_default (some entries) = entries

-- `from_nix_conf` for the text of the file.
unfoldable pub from_nix_conf : Crypto → Bytes → TrustedKeys
from_nix_conf c text =
    let assigned = conf_lines (lines text) (none, []) in
    parse_keys c (or_default assigned.0 ++ assigned.1)

-- `load`: what is configured, or else nix.conf; nobody where that cannot be read.
unfoldable pub load : Crypto → Option (List Bytes) → Option Bytes → TrustedKeys
load c (some entries) conf = parse_keys c entries
load c none (some text) = from_nix_conf c text
load c none none = no_keys

-- `rsplit_once('/')`, its first part.
abbrev or_here : Option Bytes → Bool → ℕ → Option Bytes
or_here (some dir) slash c = some (c ∷ dir)
or_here none slash c = if slash then some [] else none

unfoldable pub dir_of : Bytes → Option Bytes
dir_of [] = none
dir_of (c ∷ cs) = or_here (dir_of cs) (c == b'/') c

abbrev store_dir_or : Option Bytes → Bytes
store_dir_or none = w_nix_store
store_dir_or (some dir) = dir

-- What a cache signs.
unfoldable pub fingerprint : RemoteNarinfo → Bytes
fingerprint info =
    let store_dir = store_dir_or (dir_of info.store_path) in
    let refs = sort (map (λ r. store_dir ++ b'/' ∷ r) info.references) in
    b'1'
    ∷ b';'
    ∷ (info.store_path
        ++ b';'
          ∷ (w_sha256
              ++ (encode info.nar_hash
                  ++ b';' ∷ (decimal info.nar_size ++ b';' ∷ join (b',' ∷ []) refs))))

-- The loops of `any_sig_valid`.
unfoldable pub verifies : Crypto → Bytes → Bytes → Bytes → List (Bytes × Bytes) → Bool
verifies c fp name sig [] = false
verifies c fp name sig ((kname, pk) ∷ keys) =
    (same kname name && c.verify pk fp sig) || verifies c fp name sig keys

abbrev pub sig_verifies : Crypto → Bytes → Option (Bytes × Bytes) → List (Bytes × Bytes) → Bool
sig_verifies c fp none keys = false
sig_verifies c fp (some (name, sig)) keys = verifies c fp name sig keys

unfoldable pub any_of : Crypto → Bytes → List Bytes → List (Bytes × Bytes) → Bool
any_of c fp [] keys = false
any_of c fp (sig ∷ sigs) keys =
    sig_verifies c fp (read_entry c c.signature sig) keys || any_of c fp sigs keys

unfoldable pub any_sig_valid : Crypto → TrustedKeys → RemoteNarinfo → Bool
any_sig_valid c trusted info =
    if is_empty trusted.keys || is_empty info.sigs
    then false
    else any_of c (fingerprint info) info.sigs trusted.keys
