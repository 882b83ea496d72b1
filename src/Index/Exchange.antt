-- ===== src/Index/Exchange.antt =====
-- index.rs: one node's `respond` and the other's `apply_suffix` together.
use narshare.Base.{
  ℕ, suc, ◌+◌, ◌≤◌, ◌<◌, ◌≡◌, ◌≢◌, refl, sym, ap, subst, ◌∙◌, inl, inr, Bool, false, some, List, [],
  ◌∷◌, ◌++◌, arith, leb, length, min, Bool-cases, All, ok,
}
use narshare.Base.Order.{nat_ord, list_ord}
use narshare.Base.Sets.{contains}
use narshare.Facts.{Bytes}
use narshare.Wire.{Wire, Event}
use narshare.Store.{Db, Clock, clock, journal_suffix, rows_from, take_rows, u64_max}
use narshare.Store.Holdings.{IsName}
use narshare.Store.Journal.{Row, IsRun, rows_from-IsRun, values, take_rows-IsPage, take_rows-ne-nil}
use narshare.Store.Apply.{clock_at}
use narshare.Index.Messages.{Config, applied, SyncRequest, suffix, decode_all}
use narshare.Index.Apply.{apply_suffix, is_unexpected}
use narshare.Index.Apply.Collect.{EventRun}
use narshare.Index.Apply.Connect.{arrived, apply_suffix_connects}
use narshare.Index.Respond.{
  Answer, respond_origin, answer_behind, answer_suffix, theirs, update_of, total_length,
  suffix_bytes_cap,
}

-- A journal row is the encoding of an event with the row's sequence number.
abbrev pub IsEncodedRow : Wire → Row → Type 0
IsEncodedRow w (s, v) = (e : Event) × (w.decode_event v ≡ some e) × (e.seq ≡ s)

abbrev pub IsEncoded : Wire → List Row → Type 0
IsEncoded w rows = All (IsEncodedRow w) rows

IsEncoded-front : (w : Wire) (xs ys : List Row) → IsEncoded w (xs ++ ys) → IsEncoded w xs
IsEncoded-front w [] ys h = tt
IsEncoded-front w (x ∷ xs) ys (h, hs) = (h, IsEncoded-front w xs ys hs)

IsEncoded-rows_from :
    (w : Wire) (start : ℕ) (rows : List Row) → IsEncoded w rows → IsEncoded w (rows_from start rows)
unfolding rows_from
IsEncoded-rows_from w start [] h = tt
IsEncoded-rows_from w start ((s, v) ∷ rows) (h, hs) = elim (Bool-cases (leb start s)) [
  | inl e ↦ rw (e, rows_from) (h, hs)
  | inr e ↦ rw (e, rows_from) (IsEncoded-rows_from w start rows hs)
]

IsRun-split :
    (a b : ℕ) (front back : List Row)
    → IsRun a (front ++ back) b
    → (m : ℕ) × IsRun a front m × IsRun m back b
IsRun-split a b [] back h = (a, refl, h)
IsRun-split a b ((s, v) ∷ front) back (e, h) =
    let (m, h0, h1) = IsRun-split s b front back h in (m, (e, h0), h1)

-- An encoded run decodes to a run of events.
decode_all_run :
    (w : Wire) (a b : ℕ) (rows : List Row)
    → IsRun a rows b
    → IsEncoded w rows
    → (events : List Event) × (decode_all w (values rows) ≡ ok events)
      × EventRun a events b
      × (length events ≡ length rows)
unfolding decode_all
decode_all_run w a b [] h k = ([], refl, h, refl)
decode_all_run w a b ((s, v) ∷ rows) (h, hs) ((e, d, es), ks) =
    let (events, ds, run, len) = decode_all_run w s b rows hs ks in
    (e ∷ events, rw (d, ds) refl, (es ∙ h, rw (sym es) at run), ap suc len)

min-suc : (a b : ℕ) → a < b → min (a + 1) b ≡ suc a
min-suc a b h = omega arith

-- The journal after `after`, as `journal_suffix` reads it.
journal_suffix_lem :
    (db : Db) (name : Bytes) (after max_bytes : ℕ)
    → IsName name
    → after < u64_max
    → journal_suffix db name after max_bytes
      ≡ ok (take_rows max_bytes (rows_from (suc after) (db.journal name)) 0 [])
unfolding journal_suffix
journal_suffix_lem db name after max_bytes n h = rw n (
    ap (λ k. ok (take_rows max_bytes (rows_from k (db.journal name)) 0 []))
      (min-suc after u64_max h))

EventRun-length : (a b : ℕ) (events : List Event) → EventRun a events b → b ≡ a + length events
EventRun-length a b [] h = omega arith
EventRun-length a b (e ∷ events) h = omega (arith, EventRun-length e.seq b events h.1)

-- What a page of the journal after `after` decodes to.
record Page (w : Wire) (db : Db) (name : Bytes) (after seq max_bytes : ℕ) : Type 0 where
  raw : List Bytes
  truncated : Bool
  first : Event
  rest : List Event
  last : ℕ
  reads : journal_suffix db name after max_bytes ≡ ok (raw, truncated)
  decodes : decode_all w raw ≡ ok (first ∷ rest)
  runs : EventRun after (first ∷ rest) last
  whole : truncated ≡ false → last ≡ seq

zero_ne : (n : ℕ) → 0 ≢ suc n
zero_ne n e = omega arith

some_of :
    (events : List Event) (raw : List Bytes) (rows : List Row)
    → length events ≡ length rows
    → raw ≡ values rows
    → raw ≢ []
    → (e : Event) × (rest : List Event) × (events ≡ e ∷ rest)
some_of [] raw [] l v n = elim (n v) [ ]
some_of [] raw (r ∷ rows) l v n = elim (zero_ne (length rows) l) [ ]
some_of (e ∷ rest) raw rows l v n = (e, rest, refl)

take_rows-ne :
    (max_bytes after seq : ℕ) (rows : List Row)
    → IsRun after rows seq
    → after < seq
    → (take_rows max_bytes rows 0 []).0 ≢ []
take_rows-ne max_bytes after seq [] run lt = omega arith
take_rows-ne max_bytes after seq (r ∷ rows) run lt = take_rows-ne-nil max_bytes r rows

Page-of :
    (w : Wire) (db : Db) (name : Bytes) (after max_bytes : ℕ)
    → IsName name
    → IsRun (clock_at db name).tail_seq (db.journal name) (clock_at db name).seq
    → IsEncoded w (db.journal name)
    → (clock_at db name).tail_seq ≤ after
    → after < (clock_at db name).seq
    → after < u64_max
    → Page w db name after (clock_at db name).seq max_bytes
Page-of w db name after max_bytes n run enc lo hi top =
    let seq = (clock_at db name).seq in
    let rows = rows_from (suc after) (db.journal name) in
    let run2 : IsRun after rows seq =
      rows_from-IsRun _ seq after (db.journal name) run lo (omega arith) in
    let enc2 : IsEncoded w rows = IsEncoded-rows_from w (suc after) (db.journal name) enc in
    let page = take_rows-IsPage max_bytes rows in
    let (m, front, back) = IsRun-split after seq page.front page.back (rw page.split at run2) in
    let (events, ds, er, len) =
      decode_all_run w after m page.front front
        (IsEncoded-front w page.front page.back (rw page.split at enc2)) in
    let (e, rest, split) =
      some_of events _ page.front len page.page (take_rows-ne max_bytes after seq rows run2 hi) in
    record {
      raw = (take_rows max_bytes rows 0 []).0;
      truncated = (take_rows max_bytes rows 0 []).1;
      first = e;
      rest = rest;
      last = m;
      reads = journal_suffix_lem db name after max_bytes n top;
      decodes = ap (decode_all w) page.page ∙ ds ∙ ap ok split;
      runs = rw split at er;
      whole = λ t. rw (page.whole t) at back;
    }

abbrev pub behind_update : Bytes → Db → Bool → List Event → Answer → ℕ → Answer
behind_update name db truncated events acc used = record acc {
  origins =
      acc.origins
      ++ (update_of name (clock_at db name).generation (clock_at db name).seq truncated
            (some (suffix events))
          ∷ []);
  used = acc.used + used;
}

module _ (w : Wire) (db : Db) (req : SyncRequest) (budget after : ℕ) (name : Bytes) (acc : Answer)
    (n : IsName name) (line : theirs req.have name (0, 0) ≡ ((clock_at db name).generation, after))
    (known : 0 < (clock_at db name).generation) (lo : (clock_at db name).tail_seq ≤ after)
    (hi : after < (clock_at db name).seq) (room : acc.used < budget)
    (ask : contains name req.skip_origins ≡ false) where
  answer_behind_lem :
      answer_behind w db req budget name
        (clock_at db name)
        ((clock_at db name).generation, after)
        acc
      ≡ answer_suffix w db name (clock_at db name).generation (clock_at db name).seq after acc
  unfolding answer_behind
  answer_behind_lem = rw ask (ground arith)

  respond_origin_lem :
      respond_origin w db req budget name acc
      ≡ answer_suffix w db name (clock_at db name).generation (clock_at db name).seq after acc
  unfolding respond_origin clock
  respond_origin_lem = rw (n, line) (ground (arith, answer_behind_lem))

  -- The peer's line is at our generation, behind, and not before the tail; it does not skip the
  -- origin, and there is budget left. Where the journal is an unbroken run of encoded events within 64
  -- bits, the answer is a suffix of at least one event. A store with that clock, which expects the
  -- origin, applies all of it, and has caught up unless the suffix was cut short.
  pub respond-apply_suffix :
      IsRun (clock_at db name).tail_seq (db.journal name) (clock_at db name).seq
      → IsEncoded w (db.journal name)
      → (clock_at db name).seq ≤ u64_max
      → (c : Config) (peer : Db) → is_unexpected c name ≡ false
      → (clock_at peer name).generation ≡ (clock_at db name).generation
      → (clock_at peer name).seq ≡ after
      → (events : List Event) × (truncated : Bool) × (used : ℕ) × (next : Db) × (respond_origin w db
            req budget name acc
          ≡ ok (behind_update name db truncated events acc used))
        × (apply_suffix c w peer name (clock_at db name).generation events
            ≡ ok (next, applied (length events)))
        × (0 < length events)
        × ((clock_at next name).generation ≡ (clock_at db name).generation)
        × ((clock_at next name).seq ≡ after + length events)
        × (truncated ≡ false → (clock_at next name).seq ≡ (clock_at db name).seq)
  unfolding answer_suffix
  respond-apply_suffix run enc top c peer u g s =
      let p = Page-of w db name after suffix_bytes_cap n run enc lo hi (omega arith) in
      let er = subst (λ a. EventRun a (p.first ∷ p.rest) p.last) (sym s) p.runs in
      let next = arrived w peer name p.last p.first p.rest er in
      let (ap_ok, clk, _, _) = apply_suffix_connects w peer name p.last p.first p.rest er c n u in
      (
        p.first ∷ p.rest,
        p.truncated,
        total_length p.raw,
        next,
        respond_origin_lem ∙ rw (p.reads, p.decodes) refl,
        rw (sym g) ap_ok,
        omega arith,
        ap (λ (k : Clock). k.generation) clk ∙ g,
        ap (λ (k : Clock). k.seq) clk ∙ EventRun-length after p.last (p.first ∷ p.rest) p.runs,
        λ t. ap (λ (k : Clock). k.seq) clk ∙ p.whole t,
      )
