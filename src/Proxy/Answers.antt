-- ===== src/Proxy/Answers.antt =====
-- proxy.rs: what Nix is answered.
use narshare.Base.{
  ℕ, ◌≤◌, ◌<◌, ◌≡◌, refl, sym, subst, ap, inl, inr, ◌⊎◌, Bool, true, false, Option, none, some,
  List, [], ◌∷◌, ◌++◌, ltb, is_empty, length, All, Among, Bool-cases, Option-cases, arith,
  length-append,
}
use narshare.Base.Order.{nat_ord, list_ord}
use narshare.Base.Sets.{same, same_self, eq_of_same}
use narshare.Facts.{Bytes}
use narshare.Serve.{RangeSpec, full, partial, unsatisfiable, parse_range}
use narshare.Serve.Range.{IsWithin, parse_range-IsWithin}
use narshare.Narinfo.{RemoteNarinfo}
use narshare.Proxy.{
  Proxy, Found, Answer, not_found, narinfo, not_satisfiable, headers, nar, strip_suffix, max_by_key,
  answer_range, answer_best, union_sources,
}

pub strip_suffix-append : (suffix stem : Bytes) → strip_suffix suffix (stem ++ suffix) ≡ some stem
unfolding strip_suffix
strip_suffix-append suffix [] = whole suffix
  where
    whole : (s : Bytes) → strip_suffix s s ≡ some []
    whole [] = refl
    whole (c ∷ cs) = rw (same_self (c ∷ cs)) refl
strip_suffix-append suffix (c ∷ stem) = elim (Bool-cases (same (c ∷ stem ++ suffix) suffix)) [
  | inl y ↦
      let e = ap length (eq_of_same (c ∷ stem ++ suffix) suffix y) in
      absurd (omega (arith, e, length-append stem suffix))
  | inr n ↦ rw (n, strip_suffix-append suffix stem) refl
]

-- What an answer to a request for an archive is.
abbrev pub IsProper : List (ℕ × Bytes) → ℕ → Answer → Type 0
IsProper sources size not_found = Unit
IsProper sources size (narinfo body) = ⊥
IsProper sources size (not_satisfiable n) = n ≡ size
IsProper sources size (headers start end whole) =
    (is_empty sources ≡ false)
    × (((whole ≡ true) × (start ≡ 0) × (end ≡ size))
        ⊎ ((whole ≡ false) × (start < end) × (end ≤ size)))
IsProper sources size (nar info from start end whole) =
    (is_empty sources ≡ false)
    × (((whole ≡ true) × (start ≡ 0) × (end ≡ size))
        ⊎ ((whole ≡ false) × (start < end) × (end ≤ size)))
    × (from ≡ sources)
    × (info.nar_size ≡ size)

answer_range-IsProper :
    (is_head : Bool) (info : RemoteNarinfo) (sources : List (ℕ × Bytes)) (r : RangeSpec)
    → is_empty sources ≡ false
    → IsWithin info.nar_size r
    → IsProper sources info.nar_size (answer_range is_head info sources r)
answer_range-IsProper true info sources full some_left h = (some_left, inl (refl, refl, refl))
answer_range-IsProper false info sources full some_left h =
    (some_left, inl (refl, refl, refl), refl, refl)
answer_range-IsProper true info sources (partial start end) some_left h =
    (some_left, inr (refl, h.0, h.1))
answer_range-IsProper false info sources (partial start end) some_left h =
    (some_left, inr (refl, h.0, h.1), refl, refl)
answer_range-IsProper is_head info sources unsatisfiable some_left h = refl

pub max_by_key-Among :
    (key : Found → ℕ) (rows : List Found) (row : Found)
    → max_by_key key rows ≡ some row
    → Among row rows × All (λ r. key r ≤ key row) rows
unfolding max_by_key
max_by_key-Among key [] row e = cc
max_by_key-Among key (r ∷ rows) row e = elim (Option-cases (max_by_key key rows)) [
  | inl f ↦
      let g : some r ≡ some row = rw (f, max_by_key) at e in
      let h : r ≡ row = cc g in
      (inl (sym h), (subst (λ x. key r ≤ key x) h (omega arith), no_rows rows f))
  | inr (best, f) ↦
      let ih = max_by_key-Among key rows best f in
      elim (Bool-cases (ltb (key best) (key r))) [
        | inl more ↦
            let g : some r ≡ some row = rw (f, more, max_by_key) at e in
            let h : r ≡ row = cc g in
            (
              inl (sym h),
              subst (λ x. All (λ z. key z ≤ key x) (r ∷ rows)) h
                  (omega arith, All-below (key best) (key r) rows (ground (arith, more)) ih.1),
            )
        | inr less ↦
            let g : some best ≡ some row = rw (f, less, max_by_key) at e in
            let h : best ≡ row = cc g in
            (
              inr (subst (λ x. Among x rows) h ih.0),
              subst (λ x. All (λ z. key z ≤ key x) (r ∷ rows)) h (ground (arith, less), ih.1),
            )
      ]
]
  where
    All-below :
        (a b : ℕ) (rows : List Found)
        → a ≤ b
        → All (λ r. key r ≤ a) rows
        → All (λ r. key r ≤ b) rows
    All-below a b [] le h = tt
    All-below a b (x ∷ rows) le h = (omega (arith, le, h.0), All-below a b rows le h.1)

    no_rows : (rows : List Found) → max_by_key key rows ≡ none → All (λ r. key r ≤ key row) rows
    no_rows [] f = tt
    no_rows (x ∷ rows) f = elim (Option-cases (max_by_key key rows)) [
      | inl g ↦ cc (rw (g, max_by_key) at f)
      | inr (best, g) ↦ elim (Bool-cases (ltb (key best) (key x))) [
        | inl more ↦ cc (rw (g, more, max_by_key) at f)
        | inr less ↦ cc (rw (g, less, max_by_key) at f)
      ]
    ]

-- What is answered for the rows of a hash.
abbrev pub IsFor : Proxy → List Found → Answer → Type 0
IsFor g rows not_found =
    (is_empty (union_sources g [] rows) ≡ true)
    ⊎ ((row : Found) × Among row rows × (g.refuses row.info.nar_size ≡ true))
IsFor g rows answer =
    (row : Found) × Among row rows
    × (g.refuses row.info.nar_size ≡ false)
    × IsProper (union_sources g [] rows) row.info.nar_size answer

range-IsFor :
    (g : Proxy) (rows : List Found) (row : Found) (is_head : Bool) (r : RangeSpec)
    → Among row rows
    → g.refuses row.info.nar_size ≡ false
    → is_empty (union_sources g [] rows) ≡ false
    → IsWithin row.info.nar_size r
    → IsFor g rows (answer_range is_head row.info (union_sources g [] rows) r)
range-IsFor g rows row true full a free some_left h =
    (row, a, free, answer_range-IsProper true row.info (union_sources g [] rows) full some_left h)
range-IsFor g rows row false full a free some_left h =
    (row, a, free, answer_range-IsProper false row.info (union_sources g [] rows) full some_left h)
range-IsFor g rows row true (partial start end) a free some_left h = (
  row,
  a,
  free,
  answer_range-IsProper true row.info (union_sources g [] rows) (partial start end) some_left h,
)
range-IsFor g rows row false (partial start end) a free some_left h = (
  row,
  a,
  free,
  answer_range-IsProper false row.info (union_sources g [] rows) (partial start end) some_left h,
)
range-IsFor g rows row is_head unsatisfiable a free some_left h = (row, a, free, refl)

pub best-IsFor :
    (g : Proxy) (rows : List Found) (is_head : Bool) (range : Option Bytes) (best : Option Found)
    → max_by_key (λ row. length row.holders) rows ≡ best
    → IsFor g rows (answer_best g is_head range (union_sources g [] rows) best)
unfolding max_by_key union_sources
best-IsFor g [] is_head range none e = inl refl
best-IsFor g (row ∷ rows) is_head range none e = absurd (no_row row rows e)
  where
    no_row :
        (row : Found) (rows : List Found)
        → max_by_key (λ row. length row.holders) (row ∷ rows) ≡ none
        → ⊥
    no_row row rows e = elim (Option-cases (max_by_key (λ row. length row.holders) rows)) [
      | inl f ↦ cc (rw (f, max_by_key) at e)
      | inr (b, f) ↦ elim (Bool-cases (ltb (length b.holders) (length row.holders))) [
        | inl more ↦ cc (rw (f, more, max_by_key) at e)
        | inr less ↦ cc (rw (f, less, max_by_key) at e)
      ]
    ]
best-IsFor g rows is_head range (some row) e =
    let a = (max_by_key-Among (λ row. length row.holders) rows row e).0 in
    elim (Bool-cases (is_empty (union_sources g [] rows))) [
      | inl nobody ↦ rw nobody (inl nobody)
      | inr some_left ↦ elim (Bool-cases (g.refuses row.info.nar_size)) [
        | inl roaming ↦ rw (some_left, roaming) (inr (row, a, roaming))
        | inr free ↦
            rw (some_left, free)
              (range-IsFor g rows row is_head (parse_range range row.info.nar_size) a free some_left
                (parse_range-IsWithin row.info.nar_size range))
      ]
    ]
