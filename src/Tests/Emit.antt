-- ===== src/Tests/Emit.antt =====
-- Transfers of three bytes.
use narshare.Base.{
  ℕ, zero, suc, ◌+◌, ◌≡◌, ◌≢◌, ◌⊎◌, refl, Bool, true, some, none, [], ◌∷◌, arith, length, Option,
}
use narshare.Base.Order.{nat_ord, list_ord}
use narshare.Base.Keys.{put, get, delete}
use narshare.Facts.{Bytes}
use narshare.Narinfo.{RemoteNarinfo}
use narshare.Fetch.{Plan, lit_exec, fetch_exec, replay_exec, fallback_plan}
use narshare.Tests.Fetch.{bare}
use narshare.Fetch.Buffer.{last_at, take_prefix, covering, cut_keys, take_span}
use narshare.Fetch.Buffer.Reading.{At}
use narshare.Fetch.Emit.{
  finished, panicked, new_emitter, transfer_plan, concat, drop_passed, send, deliver, emit,
  emit_all, pump_lit, pump_replay, pump_stream, pump_retained, pump_span, pump_spans, pump,
  land_all, transfer_with, transfer,
}
use narshare.Fetch.Emit.Checked.{received}
use narshare.Fetch.Emit.Gate.{transfer-gated}
use narshare.Fetch.Emit.Transfer.{transfer_with-sends}

-- A digest that keeps its text, a client that stays, and a decoder that knows nothing.
abbrev digest : Bytes → Bytes
digest b = 1 ∷ b

abbrev stays : ℕ → Bool
stays n = true

abbrev no_hex : Bytes → Option Bytes
no_hex b = none

abbrev three : RemoteNarinfo
three = bare (1 ∷ 7 ∷ 8 ∷ 9 ∷ []) 3

three_arrive :
    length (
      received
        (transfer digest stays no_hex none three 0 3 0 9
          ((1, 8 ∷ 9 ∷ []) ∷ (0, 7 ∷ []) ∷ [])).0.out)
    ≡ 3
unfolding transfer transfer_plan fallback_plan new_emitter drop_passed send deliver emit pump_stream
    pump_span pump_spans pump land_all last_at take_prefix get put delete
three_arrive = refl

transfer-gated_example :
    digest (
      received
        (transfer digest stays no_hex none three 0 3 0 9
          ((1, 8 ∷ 9 ∷ []) ∷ (0, 7 ∷ []) ∷ [])).0.out)
    ≡ 1 ∷ 7 ∷ 8 ∷ 9 ∷ []
transfer-gated_example =
    transfer-gated digest stays no_hex none three 0 9 ((1, 8 ∷ 9 ∷ []) ∷ (0, 7 ∷ []) ∷ [])
      (omega arith) three_arrive

-- A literal, a span that is fetched and retained, and its replay.
abbrev twice : Plan
twice = record {
  spans = (0, lit_exec 0 1) ∷ (1, fetch_exec 2 (some (0, 1))) ∷ (3, replay_exec 0 2) ∷ [];
  lits = 4 ∷ [];
  ranges = (1, 2) ∷ [];
}

abbrev archive : Bytes
archive = 4 ∷ 5 ∷ 6 ∷ 5 ∷ 6 ∷ []

abbrev segment_bytes : ℕ → Bytes
segment_bytes unique = 5 ∷ 6 ∷ []

abbrev five : RemoteNarinfo
five = bare (1 ∷ archive) 5

lit-At : At archive 0 (4 ∷ [])
lit-At zero lt = refl
lit-At (suc i) lt = absurd (omega (arith, lt))

fetched-At : At archive 1 (5 ∷ 6 ∷ [])
fetched-At zero lt = refl
fetched-At (suc zero) lt = refl
fetched-At (suc (suc i)) lt = absurd (omega (arith, lt))

replayed-At : At archive 3 (5 ∷ 6 ∷ [])
replayed-At zero lt = refl
replayed-At (suc zero) lt = refl
replayed-At (suc (suc i)) lt = absurd (omega (arith, lt))

twice_arrives : (transfer_with digest stays twice five 0 5 true ((1, 5 ∷ 6 ∷ []) ∷ [])).1 ≡ finished
unfolding transfer_with new_emitter drop_passed send deliver emit emit_all pump_lit pump_replay
    pump_retained pump_span pump_spans pump land_all last_at covering cut_keys take_span concat get
    put delete
twice_arrives = refl

transfer_with-sends_example :
    At archive 0
      (received (transfer_with digest stays twice five 0 5 true ((1, 5 ∷ 6 ∷ []) ∷ [])).0.out)
    × (((transfer_with digest stays twice five 0 5 true ((1, 5 ∷ 6 ∷ []) ∷ [])).1 ≢ finished)
        ⊎ (0
              + length (
                  received
                    (transfer_with digest stays twice five 0 5 true ((1, 5 ∷ 6 ∷ []) ∷ [])).0.out)
            ≡ 5))
    × ((transfer_with digest stays twice five 0 5 true ((1, 5 ∷ 6 ∷ []) ∷ [])).1 ≢ panicked)
transfer_with-sends_example =
    transfer_with-sends digest stays archive segment_bytes twice five 0 5 true
      ((1, 5 ∷ 6 ∷ []) ∷ []) (refl, (refl, (refl, refl)))
      ((omega arith, lit-At), ((refl, fetched-At), ((refl, replayed-At), tt)))
      (fetched-At, omega arith, tt, tt)
