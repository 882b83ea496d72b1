-- ===== src/Sync/Drain.antt =====
-- sync.rs: `drain_applies`, which applies the chunks at the head of the buffer to the store.
pub mod Overlap
pub mod Settles
pub mod Ends
use narshare.Base.{
  ℕ, zero, suc, Bool, true, false, ◌||◌, Option, none, some, List, ltb, if◌then◌else◌, Result, ok,
  err,
}
use narshare.Base.Order.{nat_ord, list_ord}
use narshare.Facts.{Bytes}
use narshare.Wire.{Wire, Event}
use narshare.Store.{Db}
use narshare.Index.Messages.{Config, Applied, applied, need_snapshot}
use narshare.Index.Apply.{apply_suffix}
use narshare.Sync.Catchup.{Catchup, take_ready, applied as advance, finished, drop_origin, last_seq}
use narshare.Sync.Leases.{Leases, unenroll}

-- The store, the planner and the leases, and whether events were applied: the peers get a hint.
pub record Drained : Type 0 where
  pub db : Db
  pub plan : Catchup
  pub leases : Leases
  pub applied_any : Bool

-- The store and the count of an applied suffix; `none` is a gap or an error.
abbrev pub done : Result (Db × Applied) → Option (Db × ℕ)
done (ok (db, applied n)) = some (db, n)
done (ok (db, need_snapshot)) = none
done (err e) = none

abbrev pub gave_up : Bytes → Drained → Drained
gave_up o s = record s { plan = drop_origin s.plan o; leases = unenroll s.leases o }

abbrev pub advanced_by : Bytes → Drained → Catchup → List Event → Db × ℕ → Drained
advanced_by o s plan events (db, n) = record s {
  db = db;
  plan = advance plan o (last_seq 0 events);
  applied_any = s.applied_any || ltb 0 n;
}

-- The loop; without fuel it is `none`.
unfoldable pub drain_loop : ℕ → Config → Wire → Bytes → Drained → Option Drained
drain_loop zero c w o s = none
drain_loop (suc fuel) c w o s =
    let (plan, chunk) = take_ready s.plan o in
    elim chunk [
      | none ↦ some (record s { plan = plan })
      | some (generation, events) ↦ elim (done (apply_suffix c w s.db o generation events)) [
        | none ↦ some (gave_up o (record s { plan = plan }))
        | some r ↦ drain_loop fuel c w o (advanced_by o s plan events r)
      ]
    ]

abbrev pub close : Bytes → Drained → Drained
close o s = if finished s.plan o then gave_up o s else s

abbrev closed : Bytes → Option Drained → Option Drained
closed o none = none
closed o (some s) = some (close o s)

unfoldable pub drain_applies : ℕ → Config → Wire → Bytes → Drained → Option Drained
drain_applies fuel c w o s = closed o (drain_loop fuel c w o s)
