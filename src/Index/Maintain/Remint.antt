-- ===== src/Index/Maintain/Remint.antt =====
-- index.rs: `bump_self_generation` and the dump cursors it restarts.
use narshare.Base.{
  ℕ, ◌≤◌, ◌<◌, ◌≡◌, refl, ◌∙◌, inl, inr, true, some, List, [], ◌∷◌, arith, if◌then◌else◌,
  Bool-cases, ok, max,
}
use narshare.Base.Order.{nat_ord, list_ord}
use narshare.Base.Sets.{same, same_self, contains}
use narshare.Base.Keys.{get-put}
use narshare.Facts.{Bytes}
use narshare.Store.{Db, clock, put_clock, meta_get, meta_put, set_generation, u64_max}
use narshare.Store.Holdings.{IsName}
use narshare.Store.Apply.{clock_at}
use narshare.Index.Messages.{Config}
use narshare.Index.Maintain.{
  Text, self_generation_key, cursor_key, decode_or_empty, dump_cursor, set_dump_cursor,
  dump_restart, restart_dumps, restart_all_dumps, remint, bump_self_generation,
}

-- A cursor that was stored is read back, and the other peers' cursors stay.
pub dump_cursor-set_dump_cursor :
    (t : Text) (db : Db) (peer q cursor : Bytes)
    → dump_cursor t (set_dump_cursor t db peer cursor) q
      ≡ (if same q peer then cursor else dump_cursor t db q)
unfolding dump_cursor set_dump_cursor meta_get meta_put decode_or_empty
dump_cursor-set_dump_cursor t db peer q cursor =
    rw (get-put (cursor_key peer) (cursor_key q) (t.hex_encode cursor) db.meta)
      (elim (Bool-cases (same q peer)) [
        | inl e ↦ rw (e, t.hex_decode-encode cursor) refl
        | inr e ↦ rw e refl
      ])

dump_cursor-restart_dumps :
    (t : Text) (db : Db) (peers : List Bytes) (q : Bytes)
    → dump_cursor t (restart_dumps t db peers) q
      ≡ (if contains q peers then dump_restart else dump_cursor t db q)
unfolding restart_dumps contains
dump_cursor-restart_dumps t db [] q = refl
dump_cursor-restart_dumps t db (peer ∷ peers) q = ground (
  arith,
  dump_cursor-restart_dumps t (set_dump_cursor t db peer dump_restart) peers q,
  dump_cursor-set_dump_cursor t db peer q dump_restart,
)

restart_dumps-clocks :
    (t : Text) (db : Db) (peers : List Bytes) → (restart_dumps t db peers).clocks ≡ db.clocks
unfolding restart_dumps set_dump_cursor meta_put
restart_dumps-clocks t db [] = refl
restart_dumps-clocks t db (peer ∷ peers) =
    restart_dumps-clocks t (set_dump_cursor t db peer dump_restart) peers

restart_dumps-generation :
    (t : Text) (db : Db) (peers : List Bytes)
    → meta_get (restart_dumps t db peers) self_generation_key ≡ meta_get db self_generation_key
unfolding restart_dumps set_dump_cursor meta_put meta_get
restart_dumps-generation t db [] = refl
restart_dumps-generation t db (peer ∷ peers) =
    restart_dumps-generation t (set_dump_cursor t db peer dump_restart) peers
    ∙ get-put (cursor_key peer) self_generation_key (t.hex_encode dump_restart) db.meta

abbrev stamped : Config → Text → Db → ℕ → Db
stamped c t db g =
    put_clock (meta_put db self_generation_key (t.to_string g)) c.self_name
      (record (clock_at db c.self_name) { generation = g })

set_generation_lem :
    (c : Config) (t : Text) (db : Db) (g : ℕ)
    → IsName c.self_name
    → set_generation (meta_put db self_generation_key (t.to_string g)) c.self_name g
      ≡ ok (stamped c t db g)
unfolding set_generation clock meta_put
set_generation_lem c t db g n = rw n refl

stamped-clock :
    (c : Config) (t : Text) (db : Db) (g : ℕ)
    → (stamped c t db g).clocks c.self_name
      ≡ some (record (clock_at db c.self_name) { generation = g })
unfolding put_clock
stamped-clock c t db g = rw (same_self c.self_name) refl

stamped-generation :
    (c : Config) (t : Text) (db : Db) (g : ℕ)
    → meta_get (stamped c t db g) self_generation_key ≡ some (t.to_string g)
unfolding put_clock meta_put meta_get
stamped-generation c t db g =
    get-put self_generation_key self_generation_key (t.to_string g) db.meta

-- The new generation is at least the time and above the floor, unless the floor is the last number
-- of 64 bits or beyond: then it is the greater of the time and that last number, which need not be
-- above the floor. The clock has it and keeps its sequence number and tail, its text is stored in the metadata, and every configured
-- peer's fact dump starts anew.
pub bump_self_generation-restarts :
    (c : Config) (t : Text) (db : Db) (nanos floor : ℕ)
    → IsName c.self_name
    → (next : Db) × (g : ℕ) × (bump_self_generation c t db nanos floor ≡ ok (next, g))
      × (floor < u64_max → floor < g)
      × (u64_max ≤ floor → g ≡ max nanos u64_max)
      × (nanos ≤ g)
      × (clock_at next c.self_name ≡ record (clock_at db c.self_name) { generation = g })
      × (meta_get next self_generation_key ≡ some (t.to_string g))
      × ((peer : Bytes)
          → contains peer c.peer_names ≡ true
          → dump_cursor t next peer ≡ dump_restart)
unfolding bump_self_generation restart_all_dumps
bump_self_generation-restarts c t db nanos floor n =
    let g = remint nanos floor in
    let mid = stamped c t db g in
    (
      restart_dumps t mid c.peer_names,
      g,
      rw (set_generation_lem c t db g n) refl,
      λ lt. omega arith,
      λ top. omega arith,
      omega arith,
      rw (restart_dumps-clocks t mid c.peer_names, stamped-clock c t db g) refl,
      restart_dumps-generation t mid c.peer_names ∙ stamped-generation c t db g,
      λ peer h. dump_cursor-restart_dumps t mid c.peer_names peer ∙ rw h refl,
    )
