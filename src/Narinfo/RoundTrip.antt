-- ===== src/Narinfo/RoundTrip.antt =====
-- narinfo.rs: a narinfo that is rendered or rewritten is parsed again.
use narshare.Base.{◌≡◌, refl, sym, ap, ◌∙◌, true, none, some, List, [], ◌∷◌, ◌++◌, map, ok, ◌>>=◌}
use narshare.Base.Order.{nat_ord, list_ord}
use narshare.Base.Text.{join, decimal}
use narshare.Base.Text.Words.{split_whitespace-join}
use narshare.Facts.{Bytes}
use narshare.Nixbase32.{encode}
use narshare.Serve.Decimal.{decimal-IsNumeral}
use narshare.Index.Own.{basename}
use narshare.Narinfo.{
  RemoteNarinfo, PathInfo, Fields, no_fields, w_nar_hash, w_nar_size, w_store_path, w_url,
  w_compression, w_file_hash, w_file_size, w_references, w_deriver, w_ca, w_none, w_sha256, line,
  opt_line, sig_lines, url_of, rewrite_for_client, format_narinfo, map_option, parsed,
  parse_narinfo,
}
use narshare.Narinfo.FieldLines.{
  parse_text, path_line, url_line, compression_line, file_hash_line, file_size_line,
  references_line, field_line, decimal-IsLine, nar_size_field, nar_hash_field, join-IsLine,
}
use narshare.Narinfo.FieldValues.{
  IsRelayable, deriver_lines, sigs_lines, ca_lines, sha-IsLine, url-IsLine, none-IsLine,
}

-- The fields before the references.
abbrev first_fields : RemoteNarinfo → Fields
first_fields info = record no_fields {
  store_path = some info.store_path;
  url_seen = true;
  compression = w_none;
  nar_hash = some info.nar_hash;
  nar_size = some info.nar_size;
}

first_lines :
    (info : RemoteNarinfo) (rest : Bytes)
    → IsRelayable info
    → parse_text
        (line w_store_path info.store_path
          ++ (line w_url (url_of info.nar_hash)
              ++ (line w_compression w_none
                  ++ (line w_file_hash (w_sha256 ++ encode info.nar_hash)
                      ++ (line w_file_size (decimal info.nar_size)
                          ++ (line w_nar_hash (w_sha256 ++ encode info.nar_hash)
                              ++ (line w_nar_size (decimal info.nar_size) ++ rest)))))))
        no_fields
      ≡ parse_text rest (first_fields info)
first_lines info rest h =
    let sha = sha-IsLine info.nar_hash in
    let size = decimal-IsLine (decimal info.nar_size) (decimal-IsNumeral info.nar_size) in
    path_line info.store_path _ no_fields h.path
    ∙ url_line (url_of info.nar_hash) _ _ (url-IsLine info.nar_hash)
    ∙ compression_line w_none _ _ none-IsLine
    ∙ file_hash_line (w_sha256 ++ encode info.nar_hash) _ _ sha
    ∙ file_size_line (decimal info.nar_size) _ _ size
    ∙ field_line w_nar_hash (w_sha256 ++ encode info.nar_hash) _ _ _ refl sha
        (nar_hash_field info.nar_hash _ h.hash h.hash_len)
    ∙ field_line w_nar_size (decimal info.nar_size) rest _ _ refl size
        (nar_size_field info.nar_size _ h.size)

last_lines :
    (info : RemoteNarinfo) (f : Fields)
    → IsRelayable info
    → f.deriver ≡ none
    → f.ca ≡ none
    → f.sigs ≡ []
    → parse_text
        (line w_references (join (b' ' ∷ []) info.references)
          ++ (opt_line w_deriver info.deriver ++ (sig_lines info.sigs ++ opt_line w_ca info.ca)))
        f
      ≡ ok (record f {
        references = info.references;
        deriver = info.deriver;
        sigs = info.sigs;
        ca = info.ca;
      })
last_lines info f h d c s =
    references_line (join (b' ' ∷ []) info.references) _ f
      (join-IsLine info.references h.references)
    ∙ deriver_lines info.deriver _ _ h.deriver d
    ∙ sigs_lines info.sigs (opt_line w_ca info.ca) _ h.sigs
    ∙ ca_lines info.ca _ h.ca c
    ∙ ap
        (λ (x : List Bytes). ok (record f {
          references = x;
          deriver = info.deriver;
          sigs = f.sigs ++ info.sigs;
          ca = info.ca;
        }))
        (split_whitespace-join info.references h.references)
    ∙ ap
        (λ (x : List Bytes). ok (record f {
          references = info.references;
          deriver = info.deriver;
          sigs = x ++ info.sigs;
          ca = info.ca;
        }))
        s

-- What the client is sent is parsed to what was relayed, with no compression.
pub parse_narinfo-rewrite_for_client :
    (info : RemoteNarinfo)
    → IsRelayable info
    → parse_narinfo (rewrite_for_client info) ≡ ok (record info { compression = w_none })
unfolding parse_narinfo rewrite_for_client
parse_narinfo-rewrite_for_client info h =
    ap (λ x. x >>= parsed)
      (first_lines info _ h ∙ last_lines info (first_fields info) h refl refl refl)

-- The narinfo that a server renders is what it would relay, cut to base names.
abbrev pub remote_of : PathInfo → Bytes → RemoteNarinfo
remote_of info store_dir = record {
  store_path = info.path;
  compression = w_none;
  nar_hash = info.nar_hash;
  nar_size = info.nar_size;
  references = map (λ r. basename r store_dir) info.references;
  deriver = map_option (λ d. basename d store_dir) info.deriver;
  ca = info.ca;
  sigs = info.sigs;
}

pub format_narinfo-eq-rewrite :
    (info : PathInfo) (store_dir : Bytes)
    → format_narinfo info store_dir ≡ rewrite_for_client (remote_of info store_dir)
unfolding format_narinfo rewrite_for_client
format_narinfo-eq-rewrite info store_dir = refl

-- A peer that parses the narinfo of a path that Nix has registered reads the path, the hash, the
-- size, the signatures and the CA as they are registered, and the base names of the references and
-- of the deriver; and what it rewrites for its own client is the same text.
pub parse_narinfo-format_narinfo :
    (info : PathInfo) (store_dir : Bytes)
    → IsRelayable (remote_of info store_dir)
    → (parse_narinfo (format_narinfo info store_dir) ≡ ok (remote_of info store_dir))
      × (rewrite_for_client (remote_of info store_dir) ≡ format_narinfo info store_dir)
parse_narinfo-format_narinfo info store_dir h = (
  ap parse_narinfo (format_narinfo-eq-rewrite info store_dir)
      ∙ parse_narinfo-rewrite_for_client (remote_of info store_dir) h,
  sym (format_narinfo-eq-rewrite info store_dir),
)
