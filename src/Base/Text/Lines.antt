-- ===== src/Base/Text/Lines.antt =====
-- The first line of a text.
use narshare.Base.{ℕ, ◌≡◌, ◌≢◌, refl, List, [], ◌∷◌, ◌++◌, All, arith}
use narshare.Base.Text.{lines}

-- A text within one line.
abbrev pub IsLine : List ℕ → Type 0
IsLine l = All (λ c. (c ≢ 10) × (c ≢ 13)) l

-- A text that stands before a newline is the first line.
pub lines-line : (l rest : List ℕ) → IsLine l → lines (l ++ 10 ∷ rest) ≡ l ∷ lines rest
unfolding lines
lines-line [] rest h = refl
lines-line (c ∷ l) rest h = ground (arith, lines-line l rest h.1, h.0)

pub append-IsLine : (a b : List ℕ) → IsLine a → IsLine b → IsLine (a ++ b)
append-IsLine [] b ha hb = hb
append-IsLine (c ∷ a) b ha hb = (ha.0, append-IsLine a b ha.1 hb)
