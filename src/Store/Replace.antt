-- ===== src/Store/Replace.antt =====
-- store/rocks.rs: `replace_holdings`, the snapshot path, and `retain_origins`.
use narshare.Base.{
  ℕ, zero, suc, ◌≤◌, ◌<◌, ◌≡◌, refl, ap, ◌∙◌, inl, inr, Bool, true, false, not, ◌&&◌, ◌||◌, Option,
  List, [], ◌∷◌, ◌++◌, map, arith, ◌==◌, ltb, if◌then◌else◌, Bool-cases, ok, length, length-drop,
  take, drop, take-append-drop, keep_if,
}
use narshare.Base.Order.{nat_ord, list_ord}
use narshare.Base.Sets.{same, eq_of_same, contains, canon, contains-canon}
use narshare.Facts.{Bytes}
use narshare.Store.{
  Db, Clock, HoldOp, add, drop_hash, clock, put_clock, apply_chunks, chunks, batch_ops,
  difference_ops, replace_holdings, retain_origins, is_departed,
}
use narshare.Store.Holdings.{
  IsName, IsMirrored, held_after, held_by_ops, apply_holds_lem, hold-held_by_ops, held_by_ops-frame,
  held_by_ops-IsMirrored,
}
use narshare.Store.Apply.{clock_at, HasRuns}
use narshare.Store.Journal.{Row}

pub held_after-append :
    (was : Bool) (h : Bytes) (xs ys : List HoldOp)
    → held_after was h (xs ++ ys) ≡ held_after (held_after was h xs) h ys
held_after-append was h [] ys = refl
held_after-append was h (add k ∷ xs) ys = held_after-append (same h k || was) h xs ys
held_after-append was h (drop_hash k ∷ xs) ys = held_after-append (not (same h k) && was) h xs ys

contains_nil : (h : Bytes) → contains h [] ≡ false
unfolding contains
contains_nil h = refl

pub contains-keep_if :
    (p : Bytes → Bool) (h : Bytes) (hs : List Bytes)
    → contains h (keep_if p hs) ≡ (p h && contains h hs)
unfolding contains
contains-keep_if p h [] = ground arith
contains-keep_if p h (k ∷ hs) = elim (Bool-cases (p k)) [
  | inl e ↦ rw (e, keep_if) (ground (arith, eq_of_same h k, contains-keep_if p h hs))
  | inr e ↦ rw (e, keep_if) (ground (arith, eq_of_same h k, contains-keep_if p h hs))
]

pub held_after-drops :
    (was : Bool) (h : Bytes) (hs : List Bytes)
    → held_after was h (map drop_hash hs) ≡ (not (contains h hs) && was)
unfolding contains
held_after-drops was h [] = ground arith
held_after-drops was h (k ∷ hs) = held_after-drops (not (same h k) && was) h hs ∙ ground arith

pub held_after-adds :
    (was : Bool) (h : Bytes) (hs : List Bytes)
    → held_after was h (map add hs) ≡ (contains h hs || was)
unfolding contains
held_after-adds was h [] = ground arith
held_after-adds was h (k ∷ hs) = held_after-adds (same h k || was) h hs ∙ ground arith

-- The drops and adds turn the old set into the new one.
difference_ops-held :
    (h : Bytes) (old new : List Bytes)
    → held_after (contains h old) h (difference_ops old new) ≡ contains h new
unfolding difference_ops
difference_ops-held h old new =
    let gone = keep_if (λ k. not (contains k new)) old in
    let come = keep_if (λ k. not (contains k old)) (canon new) in
    held_after-append (contains h old) h (map drop_hash gone) (map add come)
    ∙ held_after-adds (held_after (contains h old) h (map drop_hash gone)) h come
    ∙ ground (
      arith,
      held_after-drops (contains h old) h gone,
      contains-keep_if (λ k. not (contains k new)) h old,
      contains-keep_if (λ k. not (contains k old)) h (canon new),
      contains-canon h new,
    )

abbrev pub concat {ℓ} : {A : Type ℓ} → List (List A) → List A
concat [] = []
concat (c ∷ cs) = c ++ concat cs

pub concat-chunks {ℓ} :
    {A : Type ℓ} (fuel n : ℕ) (xs : List A)
    → 0 < n
    → length xs ≤ fuel
    → concat (chunks fuel n xs) ≡ xs
unfolding chunks
concat-chunks zero n [] p h = refl
concat-chunks zero n (x ∷ xs) p h = absurd (omega arith)
concat-chunks (suc fuel) n [] p h = refl
concat-chunks (suc fuel) zero (x ∷ xs) p h = absurd (omega arith)
concat-chunks (suc fuel) (suc n) (x ∷ xs) p h =
    ap (λ r. x ∷ (take n xs ++ r))
      (concat-chunks fuel (suc n) (drop n xs) p (omega (arith, length-drop n xs)))
    ∙ ap (◌∷◌ x) (take-append-drop n xs)

-- The chunks applied one after the other.
chunked : Db → Bytes → List (List HoldOp) → Db
chunked db origin [] = db
chunked db origin (c ∷ cs) = chunked (held_by_ops db origin c) origin cs

apply_chunks-chunked :
    (db : Db) (origin : Bytes) (cs : List (List HoldOp))
    → IsName origin
    → apply_chunks db origin cs ≡ ok (chunked db origin cs)
unfolding apply_chunks chunked
apply_chunks-chunked db origin [] n = refl
apply_chunks-chunked db origin (c ∷ cs) n =
    rw (apply_holds_lem db origin c n) (apply_chunks-chunked (held_by_ops db origin c) origin cs n)

hold-chunked :
    (db : Db) (origin : Bytes) (cs : List (List HoldOp)) (o h : Bytes)
    → contains h ((chunked db origin cs).hold o) ≡ (
        if same o origin
        then held_after (contains h (db.hold o)) h (concat cs)
        else contains h (db.hold o))
unfolding chunked
hold-chunked db origin [] o h = ground arith
hold-chunked db origin (c ∷ cs) o h = ground (
  arith,
  hold-chunked (held_by_ops db origin c) origin cs o h,
  hold-held_by_ops db origin c o h,
  held_after-append (contains h (db.hold o)) h c (concat cs),
)

chunked-IsMirrored :
    (db : Db) (origin : Bytes) (cs : List (List HoldOp))
    → IsMirrored db
    → IsMirrored (chunked db origin cs)
unfolding chunked
chunked-IsMirrored db origin [] m = m
chunked-IsMirrored db origin (c ∷ cs) m =
    chunked-IsMirrored (held_by_ops db origin c) origin cs (held_by_ops-IsMirrored db origin c m)

-- Chunks change neither clocks nor journals.
chunked-frame :
    (db : Db) (origin : Bytes) (cs : List (List HoldOp))
    → ((chunked db origin cs).clocks ≡ db.clocks) × ((chunked db origin cs).journal ≡ db.journal)
unfolding chunked
chunked-frame db origin [] = (refl, refl)
chunked-frame db origin (c ∷ cs) =
    let (p, q) = chunked-frame (held_by_ops db origin c) origin cs in
    (
      p ∙ ap (λ (d : Db). d.clocks) (held_by_ops-frame db origin c),
      q ∙ ap (λ (d : Db). d.journal) (held_by_ops-frame db origin c),
    )

-- The snapshot is stale: an older generation, or an older sequence number of the same one.
abbrev pub is_stale : Clock → ℕ → ℕ → Bool
is_stale c generation seq =
    ltb generation c.generation || ((generation == c.generation) && ltb seq c.seq)

unfoldable pub replaced : Db → Bytes → ℕ → ℕ → List Bytes → Db
unfolding chunked
replaced db origin generation seq held =
    let ops = difference_ops (db.hold origin) held in
    let next = chunked db origin (chunks (length ops) batch_ops ops) in
    put_clock (record next { journal = λ o. if same o origin then [] else next.journal o }) origin
      (record { generation = generation; seq = seq; tail_seq = seq })

module _ (db : Db) (origin : Bytes) (generation seq : ℕ) (held : List Bytes) where
  pub replace_holdings_lem :
      IsName origin
      → replace_holdings db origin generation seq held
        ≡ ok (
            if is_stale (clock_at db origin) generation seq
            then (db, false)
            else (replaced db origin generation seq held, true))
  unfolding replace_holdings clock replaced
  replace_holdings_lem n =
      let ops = difference_ops (db.hold origin) held in
      rw (n, apply_chunks-chunked db origin (chunks (length ops) batch_ops ops) n) (ground arith)

  -- The origin holds exactly what the snapshot lists; the others are untouched.
  pub hold-replaced :
      (o h : Bytes)
      → contains h ((replaced db origin generation seq held).hold o)
        ≡ (if same o origin then contains h held else contains h (db.hold o))
  unfolding replaced put_clock
  hold-replaced o h =
      let ops = difference_ops (db.hold origin) held in
      ground (
        arith,
        hold-chunked db origin (chunks (length ops) batch_ops ops) o h,
        concat-chunks (length ops) batch_ops ops (omega arith) (omega arith),
        eq_of_same o origin,
        difference_ops-held h (db.hold origin) held,
      )

  pub replaced-IsMirrored : IsMirrored db → IsMirrored (replaced db origin generation seq held)
  unfolding replaced put_clock
  replaced-IsMirrored m =
      let ops = difference_ops (db.hold origin) held in
      chunked-IsMirrored db origin (chunks (length ops) batch_ops ops) m

  pub replaced-clock :
      (o : Bytes)
      → clock_at (replaced db origin generation seq held) o ≡ (
          if same o origin
          then record { generation = generation; seq = seq; tail_seq = seq }
          else clock_at db o)
  unfolding replaced put_clock
  replaced-clock o =
      let ops = difference_ops (db.hold origin) held in
      ground (
        arith,
        ap (λ (f : Bytes → Option Clock). f o)
            (chunked-frame db origin (chunks (length ops) batch_ops ops)).0,
      )

  pub replaced-journal :
      (o : Bytes)
      → (replaced db origin generation seq held).journal o
        ≡ (if same o origin then [] else db.journal o)
  unfolding replaced put_clock
  replaced-journal o =
      let ops = difference_ops (db.hold origin) held in
      let frame = (chunked-frame db origin (chunks (length ops) batch_ops ops)).1 in
      ap (λ (f : Bytes → List Row). if same o origin then [] else f o) frame

  -- The journal restarts, empty, at the snapshot's sequence number.
  pub replaced-HasRuns : HasRuns db → HasRuns (replaced db origin generation seq held)
  replaced-HasRuns runs o = elim (Bool-cases (same o origin)) [
    | inl e ↦ rw (replaced-clock o, replaced-journal o, e) refl
    | inr e ↦ rw (replaced-clock o, replaced-journal o, e) (runs o)
  ]

-- Retiring origins keeps the possession tables mirrored and the journals whole.
pub retain_origins-IsMirrored :
    (db : Db) (keep : List Bytes) → IsMirrored db → IsMirrored (retain_origins db keep)
unfolding retain_origins
retain_origins-IsMirrored db keep m o h = elim (Bool-cases (is_departed db keep o)) [
  | inl e ↦ ground (
    arith,
    m o h,
    e,
    contains-keep_if (λ k. not (is_departed db keep k && contains h (db.hold k))) o (db.holdby h),
    contains_nil h,
  )
  | inr e ↦ ground (
    arith,
    m o h,
    e,
    contains-keep_if (λ k. not (is_departed db keep k && contains h (db.hold k))) o (db.holdby h),
  )
]

pub retain_origins-HasRuns :
    (db : Db) (keep : List Bytes) → HasRuns db → HasRuns (retain_origins db keep)
unfolding retain_origins
retain_origins-HasRuns db keep runs o = elim (Bool-cases (is_departed db keep o)) [
  | inl e ↦ rw e refl
  | inr e ↦ rw e (runs o)
]
