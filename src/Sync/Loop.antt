-- ===== src/Sync/Loop.antt =====
-- sync.rs: what `engine_loop` does with an enrolment and with a reply.
pub mod Sound
use narshare.Base.{
  ℕ, Bool, true, false, not, ◌&&◌, Option, none, some, List, ltb, ◌==◌, if◌then◌else◌, is_empty,
  is_some, Result, ok, err,
}
use narshare.Base.Order.{nat_ord, list_ord}
use narshare.Base.Keys.{get}
use narshare.Facts.{Bytes}
use narshare.Wire.{Wire}
use narshare.Store.{Clock, clock}
use narshare.Index.Messages.{Config, RangeAsk, RangeReply}
use narshare.Sync.Catchup.{Catchup, enroll, complete, strike}
use narshare.Sync.Leases.{Enroll, unenroll}
use narshare.Sync.Drain.{Drained, drain_applies, gave_up}

-- The plan is cancelled or never begun: the engine's lease goes, unless the origin still has a plan.
abbrev pub not_enrolled : Drained → Enroll → Drained
not_enrolled s e =
    if is_some (get e.origin s.plan.origins)
    then s
    else record s { leases = unenroll s.leases e.origin }

abbrev pub enrolled : Drained → Enroll → Catchup × Bool → Drained
enrolled s e (plan, kept) = record s {
  plan = plan;
  leases = if kept then s.leases else unenroll s.leases e.origin;
}

abbrev pub enroll_at : Drained → Enroll → Clock → Drained
enroll_at s e k =
    if (k.generation == e.generation) && ltb k.seq e.target
    then enrolled s e (enroll s.plan e.origin e.generation k.seq e.target)
    else not_enrolled s e

unfoldable pub on_enroll : Drained → Enroll → Drained
on_enroll s e = elim (clock s.db e.origin) [ ok k ↦ enroll_at s e k | err x ↦ not_enrolled s e ]

abbrev pub is_good : RangeAsk → RangeReply → Bool
is_good ask r = r.reachable && (r.generation == ask.generation) && not (is_empty r.events)

abbrev pub struck_out : Bytes → Drained → Catchup × Bool → Drained
struck_out o s (plan, kept) =
    if kept then record s { plan = plan } else gave_up o (record s { plan = plan })

abbrev pub on_failure : Drained → RangeAsk → Drained
on_failure s ask = struck_out ask.origin s (strike s.plan ask.origin ask.after ask.until)

abbrev pub with_reply : Drained → RangeAsk → RangeReply → Drained
with_reply s ask r = record s { plan = complete s.plan ask.origin ask.after ask.until r.events }

-- A reply over the channel, `none` for a failed request.
unfoldable pub on_done : ℕ → Config → Wire → Drained → RangeAsk → Option RangeReply → Option Drained
on_done fuel c w s ask none = some (on_failure s ask)
on_done fuel c w s ask (some r) =
    if is_good ask r
    then drain_applies fuel c w ask.origin (with_reply s ask r)
    else some (on_failure s ask)
