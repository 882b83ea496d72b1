-- ===== src/Index/Maintain.antt =====
-- index.rs: `compact`, the dump cursors, and the generation of this node's own origin.
pub mod Compact
pub mod Remint
use narshare.Base.{
  ℕ, ◌+◌, ◌-◌, ◌^◌, ◌≡◌, Bool, true, false, Option, none, some, List, [], ◌∷◌, ◌++◌, ltb,
  if◌then◌else◌, min, max, Result, ok, err, ◌>>=◌,
}
use narshare.Facts.{Bytes}
use narshare.Store.{
  Db, clock, meta_get, meta_put, set_generation, compact_journal, retain_origins, seq_or_zero,
  u64_max,
}
use narshare.Index.Messages.{Config, origin_set}

abbrev pub journal_backstop : ℕ
journal_backstop = 50000

-- The minimum of the peers' watermarks for an origin, a missing one being 0.
unfoldable pub min_mark : Db → Bytes → List Bytes → ℕ → ℕ
min_mark db origin [] floor = floor
min_mark db origin (peer ∷ peers) floor =
    min_mark db origin peers (min floor (seq_or_zero (db.wm peer origin)))

unfoldable pub compact_floor : Config → Db → Bytes → ℕ → ℕ
compact_floor c db origin seq = max (min_mark db origin c.peer_names seq) (seq - journal_backstop)

-- One origin's turn; the watermarks are those read before the loop, `marks`.
unfoldable pub compact_origin : Config → Db → Db → Bytes → Result Db
compact_origin c marks db origin = do
  cur ← clock db origin
  let floor = compact_floor c marks origin cur.seq
  if ltb cur.tail_seq floor then compact_journal db origin floor else ok db

unfoldable pub compact_origins : Config → Db → Db → List Bytes → Result Db
compact_origins c marks db [] = ok db
compact_origins c marks db (origin ∷ names) = do
  next ← compact_origin c marks db origin
  compact_origins c marks next names

-- The set of origins is walked in its sorted order; the order is of no effect, since each turn
-- reads and writes the rows of one origin.
unfoldable pub compact : Config → Db → Result Db
compact c db = compact_origins c db db (origin_set c)

-- What the code takes from the standard library and the hex crate: decimal numbers and hex text.
pub record Text : Type 0 where
  pub to_string : ℕ → Bytes
  pub parse : Bytes → Option ℕ
  pub hex_encode : Bytes → Bytes
  pub hex_decode : Bytes → Option Bytes
  pub parse-to_string : (n : ℕ) → parse (to_string n) ≡ some n
  pub hex_decode-encode : (s : Bytes) → hex_decode (hex_encode s) ≡ some s

-- "self_generation"
abbrev pub self_generation_key : Bytes
self_generation_key =
    b's' ∷ b'e' ∷ b'l' ∷ b'f' ∷ b'_' ∷ b'g' ∷ b'e' ∷ b'n' ∷ b'e' ∷ b'r' ∷ b'a' ∷ b't' ∷ b'i' ∷ b'o'
    ∷ b'n' ∷ []

-- "atts_resume:" and the peer's name.
abbrev pub cursor_key : Bytes → Bytes
cursor_key peer =
    b'a' ∷ b't' ∷ b't' ∷ b's' ∷ b'_' ∷ b'r' ∷ b'e' ∷ b's' ∷ b'u' ∷ b'm' ∷ b'e' ∷ b':' ∷ peer

unfoldable pub decode_or_empty : Text → Option Bytes → Bytes
decode_or_empty t none = []
decode_or_empty t (some h) = elim (t.hex_decode h) [ none ↦ [] | some cursor ↦ cursor ]

unfoldable pub dump_cursor : Text → Db → Bytes → Bytes
dump_cursor t db peer = decode_or_empty t (meta_get db (cursor_key peer))

unfoldable pub set_dump_cursor : Text → Db → Bytes → Bytes → Db
set_dump_cursor t db peer cursor = meta_put db (cursor_key peer) (t.hex_encode cursor)

-- The cursor below every key.
abbrev pub dump_restart : Bytes
dump_restart = 0 ∷ []

unfoldable pub restart_dumps : Text → Db → List Bytes → Db
restart_dumps t db [] = db
restart_dumps t db (peer ∷ peers) = restart_dumps t (set_dump_cursor t db peer dump_restart) peers

unfoldable pub restart_all_dumps : Config → Text → Db → Db
restart_all_dumps c t db = restart_dumps t db c.peer_names

-- A generation above the floor and not before the clock's `nanos`; `floor + 1` stops at the top.
abbrev pub remint : ℕ → ℕ → ℕ
remint nanos floor = max nanos (min (floor + 1) u64_max)

unfoldable pub bump_self_generation : Config → Text → Db → ℕ → ℕ → Result (Db × ℕ)
bump_self_generation c t db nanos floor = do
  let g = remint nanos floor
  next ← set_generation (meta_put db self_generation_key (t.to_string g)) c.self_name g
  ok (restart_all_dumps c t next, g)
