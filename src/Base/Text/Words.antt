-- ===== src/Base/Text/Words.antt =====
-- Words that are joined by a space are split again.
use narshare.Base.{ℕ, ◌≡◌, refl, ap, true, false, List, [], ◌∷◌, ◌++◌, All, is_empty, ◌∙◌}
use narshare.Base.Text.{split_whitespace, cons_char, starts_word, is_white, join}

-- A word is not empty and has no white space.
abbrev pub IsWord : List ℕ → Type 0
IsWord w = (is_empty w ≡ false) × All (λ c. is_white c ≡ false) w

split-inside :
    (c : ℕ) (cs : List ℕ)
    → is_white c ≡ false
    → starts_word cs ≡ true
    → split_whitespace (c ∷ cs) ≡ cons_char c (split_whitespace cs)
unfolding split_whitespace
split-inside c cs hc hs = rw (hc, hs) refl

split-end :
    (c : ℕ) (cs : List ℕ)
    → is_white c ≡ false
    → starts_word cs ≡ false
    → split_whitespace (c ∷ cs) ≡ (c ∷ []) ∷ split_whitespace cs
unfolding split_whitespace
split-end c cs hc hs = rw (hc, hs) refl

split-space : (rest : List ℕ) → split_whitespace (32 ∷ rest) ≡ split_whitespace rest
unfolding split_whitespace
split-space rest = refl

-- A word before a space is the first.
word_first :
    (c : ℕ) (w rest : List ℕ)
    → is_white c ≡ false
    → All (λ c. is_white c ≡ false) w
    → split_whitespace (c ∷ w ++ 32 ∷ rest) ≡ (c ∷ w) ∷ split_whitespace rest
word_first c [] rest hc h =
    split-end c (32 ∷ rest) hc refl ∙ ap (λ x. (c ∷ []) ∷ x) (split-space rest)
word_first c (d ∷ w) rest hc h =
    split-inside c (d ∷ w ++ 32 ∷ rest) hc (rw h.0 refl)
    ∙ ap (cons_char c) (word_first d w rest h.0 h.1)

word_last :
    (c : ℕ) (w : List ℕ)
    → is_white c ≡ false
    → All (λ c. is_white c ≡ false) w
    → split_whitespace (c ∷ w) ≡ (c ∷ w) ∷ []
unfolding split_whitespace
word_last c [] hc h = rw hc refl
word_last c (d ∷ w) hc h =
    split-inside c (d ∷ w) hc (rw h.0 refl) ∙ ap (cons_char c) (word_last d w h.0 h.1)

-- Words that are joined by a space are split again.
pub split_whitespace-join :
    (ws : List (List ℕ)) → All IsWord ws → split_whitespace (join (32 ∷ []) ws) ≡ ws
unfolding join
split_whitespace-join [] h = unfold split_whitespace in refl
split_whitespace-join ([] ∷ ws) h = cc h.0.0
split_whitespace-join ((c ∷ w) ∷ []) h = word_last c w h.0.1.0 h.0.1.1
split_whitespace-join ((c ∷ w) ∷ v ∷ ws) h =
    word_first c w (join (32 ∷ []) (v ∷ ws)) h.0.1.0 h.0.1.1
    ∙ ap (λ x. (c ∷ w) ∷ x) (split_whitespace-join (v ∷ ws) h.1)
