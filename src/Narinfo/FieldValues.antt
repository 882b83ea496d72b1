-- ===== src/Narinfo/FieldValues.antt =====
-- narinfo.rs: the fields of a narinfo as values and as lines.
use mathlib.Core.List.{append_assoc, append-nil}
use narshare.Base.{
  ◌<◌, ◌^◌, ◌≡◌, refl, sym, ap, ◌∙◌, Bool, true, false, not, ◌&&◌, ◌==◌, Option, none, some, List,
  [], ◌∷◌, ◌++◌, is_empty, length, All, arith, ok,
}
use narshare.Base.Order.{nat_ord, list_ord}
use narshare.Base.Text.{lines}
use narshare.Base.Text.Lines.{IsLine, append-IsLine}
use narshare.Base.Text.Words.{IsWord}
use narshare.Facts.{Bytes}
use narshare.Nixbase32.{encode}
use narshare.Nixbase32.Put.{AreBytes}
use narshare.Narinfo.{
  RemoteNarinfo, Fields, w_deriver, w_sig, w_ca, w_none, w_sha256, w_nar_slash, w_dot_nar, line,
  opt_line, sig_lines, url_of, non_empty, parse_field, parse_lines,
}
use narshare.Narinfo.FieldLines.{parse_text, field_line, encode-IsLine}

-- A value that is not empty and within a line.
abbrev pub IsText : Bytes → Type 0
IsText s = (is_empty s ≡ false) × IsLine s

abbrev pub IsOptText : Option Bytes → Type 0
IsOptText none = Unit {0}
IsOptText (some s) = IsText s

-- A narinfo as Nix has it: texts within a line, references without white space, a hash of 32 bytes,
-- a size of 64 bits.
pub record IsRelayable (info : RemoteNarinfo) : Type 0 where
  pub path : IsLine info.store_path
  pub hash : AreBytes info.nar_hash
  pub hash_len : length info.nar_hash ≡ 32
  pub size : info.nar_size < 2 ^ 64
  pub references : All IsWord info.references
  pub deriver : IsOptText info.deriver
  pub ca : IsOptText info.ca
  pub sigs : All IsText info.sigs

pub text-non_empty : (s : Bytes) → IsText s → non_empty s ≡ some s
text-non_empty s h = rw h.0 refl

pub deriver_field :
    (d : Bytes) (f : Fields)
    → IsText d
    → parse_field w_deriver d f ≡ ok (record f { deriver = some d })
unfolding parse_field
deriver_field d f h = ap (λ (x : Option Bytes). ok (record f { deriver = x })) (text-non_empty d h)

pub ca_field :
    (c : Bytes) (f : Fields) → IsText c → parse_field w_ca c f ≡ ok (record f { ca = some c })
unfolding parse_field
ca_field c f h = ap (λ (x : Option Bytes). ok (record f { ca = x })) (text-non_empty c h)

pub sig_field :
    (sig : Bytes) (f : Fields)
    → IsText sig
    → parse_field w_sig sig f ≡ ok (record f { sigs = f.sigs ++ sig ∷ [] })
unfolding parse_field
sig_field sig f h = rw h.0 refl

pub deriver_lines :
    (d : Option Bytes) (rest : Bytes) (f : Fields)
    → IsOptText d
    → f.deriver ≡ none
    → parse_text (opt_line w_deriver d ++ rest) f ≡ parse_text rest (record f { deriver = d })
deriver_lines none rest f h e = ap (λ x. parse_text rest (record f { deriver = x })) e
deriver_lines (some d) rest f h e =
    field_line w_deriver d rest f (record f { deriver = some d }) refl h.1 (deriver_field d f h)

pub sigs_lines :
    (sigs : List Bytes) (rest : Bytes) (f : Fields)
    → All IsText sigs
    → parse_text (sig_lines sigs ++ rest) f ≡ parse_text rest (record f { sigs = f.sigs ++ sigs })
unfolding sig_lines
sigs_lines [] rest f h = ap (λ x. parse_text rest (record f { sigs = x })) (sym (append-nil f.sigs))
sigs_lines (sig ∷ sigs) rest f h =
    ap (λ x. parse_text x f) (append_assoc (line w_sig sig) (sig_lines sigs) rest)
    ∙ field_line w_sig sig (sig_lines sigs ++ rest) f (record f { sigs = f.sigs ++ sig ∷ [] }) refl
        h.0.1 (sig_field sig f h.0)
    ∙ sigs_lines sigs rest (record f { sigs = f.sigs ++ sig ∷ [] }) h.1
    ∙ ap (λ x. parse_text rest (record f { sigs = x })) (append_assoc f.sigs (sig ∷ []) sigs)

pub ca_lines :
    (c : Option Bytes) (f : Fields)
    → IsOptText c
    → f.ca ≡ none
    → parse_text (opt_line w_ca c) f ≡ ok (record f { ca = c })
unfolding lines parse_lines
ca_lines none f h e = ap (λ x. ok (record f { ca = x })) e
ca_lines (some c) f h e =
    ap (λ x. parse_text x f) (sym (append-nil (line w_ca c)))
    ∙ field_line w_ca c [] f (record f { ca = some c }) refl h.1 (ca_field c f h)

pub is_clean : Bytes → Bool
is_clean [] = true
is_clean (c ∷ cs) = not (c == 10) && (not (c == 13) && is_clean cs)

pub is_clean-IsLine : (k : Bytes) → is_clean k ≡ true → IsLine k
unfolding is_clean
is_clean-IsLine [] h = tt
is_clean-IsLine (c ∷ k) h =
    ((λ e. ground (arith, e, h), λ e. ground (arith, e, h)), is_clean-IsLine k (ground (arith, h)))

pub sha-IsLine : (hash : Bytes) → IsLine (w_sha256 ++ encode hash)
unfolding is_clean
sha-IsLine hash =
    append-IsLine w_sha256 (encode hash) (is_clean-IsLine w_sha256 refl) (encode-IsLine hash)

pub url-IsLine : (hash : Bytes) → IsLine (url_of hash)
unfolding is_clean
url-IsLine hash =
    append-IsLine w_nar_slash (encode hash ++ w_dot_nar) (is_clean-IsLine w_nar_slash refl)
      (append-IsLine (encode hash) w_dot_nar (encode-IsLine hash) (is_clean-IsLine w_dot_nar refl))

pub none-IsLine : IsLine w_none
unfolding is_clean
none-IsLine = is_clean-IsLine w_none refl
