-- ===== src/Store/Journal.antt =====
-- store/rocks.rs: a journal is an unbroken run of sequence numbers, and stays one.
use narshare.Base.{
  ℕ, suc, ◌+◌, ◌≤◌, ◌<◌, ◌≡◌, ◌≢◌, refl, sym, ap, ◌∙◌, inl, inr, Bool, false, not, ◌&&◌, List, [],
  ◌∷◌, ◌++◌, map, arith, ltb, leb, length, is_empty, Bool-cases, ltb→lt,
}
use narshare.Base.Order.{nat_ord}
use narshare.Base.Keys.{put}
use narshare.Facts.{Bytes}
use narshare.Store.{put_rows, rows_from, take_rows, drop_rows}
use mathlib.Core.List.{append-nil, append_assoc}

abbrev pub Row : Type 0
Row = ℕ × Bytes

-- The keys are `a + 1`, `a + 2`, … up to `b`.
abbrev pub IsRun : ℕ → List Row → ℕ → Type 0
IsRun a [] b = a ≡ b
IsRun a ((s, v) ∷ rows) b = (s ≡ suc a) × IsRun s rows b

pub IsRun-le : (a b : ℕ) (rows : List Row) → IsRun a rows b → a ≤ b
IsRun-le a b [] h = omega arith
IsRun-le a b ((s, v) ∷ rows) h = omega (arith, IsRun-le s b rows h.1)

pub IsRun-append :
    (a b c : ℕ) (xs ys : List Row) → IsRun a xs b → IsRun b ys c → IsRun a (xs ++ ys) c
IsRun-append a b c [] ys h k = rw h k
IsRun-append a b c ((s, v) ∷ xs) ys h k = (h.0, IsRun-append s b c xs ys h.1 k)

put_after :
    (a b : ℕ) (rows : List Row) (v : Bytes)
    → IsRun a rows b
    → put (suc b) v rows ≡ rows ++ ((suc b, v) ∷ [])
unfolding put
put_after a b [] v h = refl
put_after a b ((s, w) ∷ rows) v h = ground (arith, put_after s b rows v h.1, IsRun-le s b rows h.1)

put_next :
    (a b s : ℕ) (rows : List Row) (v : Bytes)
    → IsRun a rows b
    → s ≡ suc b
    → put s v rows ≡ rows ++ ((s, v) ∷ [])
put_next a b s rows v h e = rw e (put_after a b rows v h)

-- Rows that continue the run are appended.
pub put_rows_run :
    (a b c : ℕ) (rows new : List Row)
    → IsRun a rows b
    → IsRun b new c
    → put_rows rows new ≡ rows ++ new
unfolding put_rows
put_rows_run a b c rows [] h k = sym (append-nil rows)
put_rows_run a b c rows ((s, v) ∷ new) h (e, k) =
    ap (λ r. put_rows r new) (put_next a b s rows v h e)
    ∙ put_rows_run a s c (rows ++ ((s, v) ∷ [])) new
        (IsRun-append a b s rows ((s, v) ∷ []) h (e, refl)) k
    ∙ append_assoc rows ((s, v) ∷ []) new

-- What a reader that has seen everything up to `after` still lacks.
pub rows_from-IsRun :
    (a b after : ℕ) (rows : List Row)
    → IsRun a rows b
    → a ≤ after
    → after ≤ b
    → IsRun after (rows_from (suc after) rows) b
unfolding rows_from
rows_from-IsRun a b after [] h lo hi = omega arith
rows_from-IsRun a b after ((s, v) ∷ rows) h lo hi = elim (Bool-cases (leb (suc after) s)) [
  | inl e ↦ rw (e, rows_from) (ground arith)
  | inr e ↦ rw (e, rows_from) (rows_from-IsRun s b after rows h.1 (ground arith) hi)
]

drop_rows_above :
    (tail floor t : ℕ) (v : Bytes) (rows : List Row)
    → floor < t
    → drop_rows tail floor ((t, v) ∷ rows) ≡ (t, v) ∷ drop_rows tail floor rows
unfolding drop_rows
drop_rows_above tail floor t v rows h = ground arith

drop_rows_between :
    (tail floor t : ℕ) (v : Bytes) (rows : List Row)
    → tail < t
    → t ≤ floor
    → drop_rows tail floor ((t, v) ∷ rows) ≡ drop_rows tail floor rows
unfolding drop_rows
drop_rows_between tail floor t v rows h k = ground arith

drop_rows_keep :
    (s b tail floor : ℕ) (rows : List Row)
    → IsRun s rows b
    → floor ≤ s
    → drop_rows tail floor rows ≡ rows
drop_rows_keep s b tail floor [] h q = unfold drop_rows in refl
drop_rows_keep s b tail floor ((t, v) ∷ rows) h q =
    drop_rows_above tail floor t v rows (omega arith)
    ∙ ap (◌∷◌ (t, v)) (drop_rows_keep t b tail floor rows h.1 (omega arith))

-- Compaction keeps exactly the run above the floor.
pub drop_rows-IsRun :
    (s b tail floor : ℕ) (rows : List Row)
    → IsRun s rows b
    → tail ≤ s
    → s ≤ floor
    → floor ≤ b
    → IsRun floor (drop_rows tail floor rows) b
drop_rows-IsRun s b tail floor [] h p q r = unfold drop_rows in omega arith
drop_rows-IsRun s b tail floor ((t, v) ∷ rows) h p q r = elim (Bool-cases (ltb floor t)) [
  | inl e ↦
      rw
        (drop_rows_above tail floor t v rows (ground arith)
          ∙ ap (◌∷◌ (t, v)) (drop_rows_keep t b tail floor rows h.1 (ground arith)))
        (omega (arith, ltb→lt floor t e), h.1)
  | inr e ↦
      rw (drop_rows_between tail floor t v rows (omega arith) (ground arith))
        (drop_rows-IsRun t b tail floor rows h.1 (omega arith) (ground arith) r)
]

-- The values of the rows.
abbrev pub values : List Row → List Bytes
values = map (λ (r : Row). r.1)

-- A cut-off page is a proper prefix of what is there, and an answer that is not cut off is all.
pub record IsPage (rows : List Row) (events : List Bytes) (truncated : Bool) : Type 0 where
  pub front : List Row
  pub back : List Row
  pub split : rows ≡ front ++ back
  pub page : events ≡ values front
  pub whole : truncated ≡ false → back ≡ []

page_from :
    (max_bytes : ℕ) (rows : List Row) (bytes : ℕ) (events : List Bytes)
    → (front : List Row) × (back : List Row) × (rows ≡ front ++ back)
      × ((take_rows max_bytes rows bytes events).0 ≡ events ++ values front)
      × ((take_rows max_bytes rows bytes events).1 ≡ false → back ≡ [])
unfolding take_rows
page_from max_bytes [] bytes events = ([], [], refl, sym (append-nil events), λ _. refl)
page_from max_bytes ((s, v) ∷ rows) bytes events =
    elim (Bool-cases (ltb max_bytes (bytes + length v) && not (is_empty events))) [
      | inl e ↦ rw (e, take_rows) ([], (s, v) ∷ rows, refl, sym (append-nil events), λ h. cc)
      | inr e ↦
          let (front, back, split, page, whole) =
            page_from max_bytes rows (bytes + length v) (events ++ (v ∷ [])) in
          rw (e, take_rows)
            (
              (s, v) ∷ front,
              back,
              ap (◌∷◌ (s, v)) split,
              page ∙ append_assoc events (v ∷ []) (values front),
              whole,
            )
    ]

-- The page is a front part of the rows that are there, and all of them where it is not cut off.
pub take_rows-IsPage :
    (max_bytes : ℕ) (rows : List Row)
    → IsPage rows (take_rows max_bytes rows 0 []).0 (take_rows max_bytes rows 0 []).1
take_rows-IsPage max_bytes rows =
    let (front, back, split, page, whole) = page_from max_bytes rows 0 [] in
    record { front = front; back = back; split = split; page = page; whole = whole }

-- Never cut down to nothing: if there is a row, it is in the page, however large.
pub take_rows-ne-nil :
    (max_bytes : ℕ) (row : Row) (rows : List Row) → (take_rows max_bytes (row ∷ rows) 0 []).0 ≢ []
unfolding take_rows
take_rows-ne-nil max_bytes (s, v) rows h =
    let (front, back, split, page, whole) = page_from max_bytes rows (length v) (v ∷ []) in
    ground (arith, page)
