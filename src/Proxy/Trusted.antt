-- ===== src/Proxy/Trusted.antt =====
-- proxy.rs over index.rs and sig.rs: what Nix is told of is content-addressed or signed.
use narshare.Base.{
  ◌≡◌, refl, sym, subst, ap, ◌∙◌, inl, inr, ◌⊎◌, true, false, not, ◌||◌, Option, none, some, List,
  [], ◌∷◌, ◌++◌, map, ◌==◌, is_empty, length, Among, Bool-cases, Result, ok, arith,
}
use narshare.Base.Order.{nat_ord, list_ord}
use narshare.Facts.{Bytes, Attestation}
use narshare.Store.{Db}
use narshare.Index.Messages.{well_formed}
use narshare.Index.Own.{Local, feasible, found, find_hash_part}
use narshare.Narinfo.{att_to_remote, rewrite_for_client}
use narshare.Sig.{Crypto, TrustedKeys, any_sig_valid, fingerprint}
use narshare.Sig.Readings.{IsSignedBy}
use narshare.Sig.Trust.{any_sig_valid-IsSignedBy}
use narshare.Proxy.{
  Proxy, Found, narinfo, sources_count, best_row, answer_row, get_narinfo, w_dot_narinfo,
  all_alphanumeric,
}
use narshare.Proxy.Answers.{strip_suffix-append, max_by_key-Among}
use narshare.Proxy.Replies.{Among-kept}

-- `feasible` asks the trusted keys about an attestation's narinfo.
abbrev pub trusting : Crypto → TrustedKeys → Local → Local
trusting c keys l = record l { any_sig_valid = λ a. any_sig_valid c keys (att_to_remote a) }

-- `Index::lookup_hash_part`, with the rows as the proxy sees them.
abbrev pub found_row : Attestation × List Bytes → Found
found_row (a, holders) = record { info = att_to_remote a; holders = holders }

unfoldable pub index_lookup : Local → Db → Bytes → Result (List Found)
index_lookup l db hash_part = ok (map found_row (find_hash_part l db hash_part))

-- An attestation that the index has, that is well formed, and content-addressed or signed.
pub record IsTrusted (c : Crypto) (keys : TrustedKeys) (body : Bytes) : Type 0 where
  pub a : Attestation
  pub formed : well_formed a ≡ true
  pub believed :
      (is_empty a.ca ≡ false)
      ⊎ IsSignedBy c (fingerprint (att_to_remote a)) (att_to_remote a).sigs keys.keys
  pub told : body ≡ rewrite_for_client (att_to_remote a)

feasible-IsTrusted :
    (c : Crypto) (keys : TrustedKeys) (l : Local) (a : Attestation)
    → feasible (trusting c keys l) a ≡ true
    → IsTrusted c keys (rewrite_for_client (att_to_remote a))
unfolding feasible
feasible-IsTrusted c keys l a h = elim (Bool-cases (is_empty a.ca)) [
  | inr addressed ↦ record {
    a = a;
    formed = ground (arith, h);
    believed = inl addressed;
    told = refl;
  }
  | inl plain ↦ record {
    a = a;
    formed = ground (arith, h);
    believed =
        inr ((any_sig_valid-IsSignedBy c keys (att_to_remote a)).0 (ground (arith, h, plain)));
    told = refl;
  }
]

found-feasible :
    (l : Local) (rows : List (Attestation × List Bytes)) (row : Found)
    → Among row (map found_row (found l rows))
    → (a : Attestation) × (feasible l a ≡ true) × (row.info ≡ att_to_remote a)
unfolding found
found-feasible l [] row m = elim m [ ]
found-feasible l ((a, holders) ∷ rows) row m = elim (Bool-cases (feasible l a)) [
  | inl y ↦
      let n : (row ≡ found_row (a, holders)) ⊎ Among row (map found_row (found l rows)) =
        rw (found, y) at m in
      elim n [
        | inl e ↦ (a, y, ap (λ (r : Found). r.info) e)
        | inr later ↦ found-feasible l rows row later
      ]
  | inr n ↦ found-feasible l rows row (rw (found, n) at m)
]

row-of :
    (g : Proxy) (rows : List Found) (best : Option Found) (body : Bytes)
    → best_row g rows ≡ best
    → answer_row g best ≡ narinfo body
    → (row : Found) × Among row rows × (body ≡ rewrite_for_client row.info)
row-of g rows none body e h = cc h
row-of g rows (some row) body e h = elim (Bool-cases (g.refuses row.info.nar_size)) [
  | inl roaming ↦ cc (rw roaming at h)
  | inr free ↦
      let k : narinfo (rewrite_for_client row.info) ≡ narinfo body = rw free at h in
      let n : rewrite_for_client row.info ≡ body = cc k in
      let kept = max_by_key-Among (sources_count g) _ row e in
      (row, (Among-kept g row rows kept.0).0, sym n)
]

-- A narinfo that Nix is answered from the index is that of an attestation that is well formed, and
-- content-addressed or signed by a trusted key.
pub get_narinfo-IsTrusted :
    (g : Proxy) (c : Crypto) (keys : TrustedKeys) (l : Local) (db : Db) (hash_part body : Bytes)
    → get_narinfo g (index_lookup (trusting c keys l) db) (hash_part ++ w_dot_narinfo)
      ≡ narinfo body
    → IsTrusted c keys body
unfolding get_narinfo index_lookup find_hash_part
get_narinfo-IsTrusted g c keys l db hash_part body e =
    let rows = map found_row (find_hash_part (trusting c keys l) db hash_part) in
    let stem = strip_suffix-append w_dot_narinfo hash_part in
    elim (Bool-cases (not (length hash_part == 32) || not (all_alphanumeric hash_part))) [
      | inl bad ↦ cc (rw (stem, bad) at e)
      | inr good ↦
          let r = row-of g rows (best_row g rows) body refl (rw (stem, good) at e) in
          let f = found-feasible (trusting c keys l) _ r.0 r.1 in
          let told : rewrite_for_client (att_to_remote f.0) ≡ body =
            ap rewrite_for_client (sym f.2) ∙ sym r.2 in
          subst (IsTrusted c keys) told (feasible-IsTrusted c keys l f.0 f.1)
    ]
