-- ===== src/Tests/Sessions.antt =====
-- The registry and the connection at small inputs.
use kalandra.Prelude.{ℕ, ◌-◌, ◌<◌, ◌≡◌, ◌≢◌, ◌↔◌, refl, some, List, [], ◌∷◌, arith}
use kalandra.Registry
use kalandra.Registry.{
  ConnectionRegistry, session_info, is_subscribed, sessions_in_room, rooms_for_session, unsubscribe,
}
use kalandra.Registry.Consistency.{
  IsConsistent, Command, register, join, leave, unregister, apply, run-IsConsistent,
}
use kalandra.Registry.Consistency
use kalandra.Registry.Effects.{subscribed_after, apply-is_subscribed}
use kalandra.Connection
use kalandra.Connection.{
  Connection, ConnectionConfig, default_config, init, pending, authenticated, closed, tick,
  timeout_of,
}
use kalandra.Connection.Lifecycle.{Move}
use kalandra.Connection.Runs
use kalandra.Connection.Runs.{
  step, step-Move, run-closed, authenticated-session_id, receive, hear_hello, tick_at,
}
use kalandra.Connection.Timeouts.{
  tick-closes_iff, IsBeating, heartbeats_defeat_idle_timeout, tick_on,
}
use kalandra.Proto.Payload
use kalandra.Tests.Data.{toy_cbor, farewell_frame, greeting}

-- Session 1 is registered and joins rooms 7 and 8, of which it leaves one.
abbrev commands : List Command
commands = register 1 session_info ∷ join 1 7 ∷ join 1 8 ∷ leave 1 7 ∷ []

run-IsConsistent_example : IsConsistent (Consistency.run Registry.new commands)
run-IsConsistent_example = run-IsConsistent commands

abbrev busy : ConnectionRegistry
busy = Consistency.run Registry.new commands

busy-IsConsistent : IsConsistent busy
busy-IsConsistent = run-IsConsistent commands

apply-is_subscribed_example :
    is_subscribed (apply busy (unregister 1)) 1 8 ≡ subscribed_after busy (unregister 1) 1 8
apply-is_subscribed_example = apply-is_subscribed busy (unregister 1) 1 8 busy-IsConsistent

-- An authenticated connection, whose last heartbeat was at 100.
abbrev beating : Connection
beating = record {
  state = authenticated;
  config = default_config;
  last_activity = 100;
  last_heartbeat = some 100;
  session_id = some 5;
}

step-Move_example : Move beating (step toy_cbor (receive farewell_frame 101) beating)
step-Move_example = step-Move toy_cbor (receive farewell_frame 101) beating

run-closed_example :
    (Runs.run toy_cbor (receive farewell_frame 101 ∷ []) (Connection.close beating)).state ≡ closed
run-closed_example =
    run-closed toy_cbor (receive farewell_frame 101 ∷ []) (Connection.close beating) refl

beating-not_closed : beating.state ≢ closed
beating-not_closed e = cc

tick-closes_iff_example : ((tick 161 beating).1.state ≡ closed) ↔ (
    (limit : ℕ) × (timeout_of beating.config beating.state ≡ some limit)
    × (limit < 161 - beating.last_activity))
tick-closes_iff_example = tick-closes_iff 161 beating beating-not_closed

beating-IsBeating : IsBeating default_config 100 beating
beating-IsBeating = record {
  config_is = refl;
  authenticated = refl;
  beat = 100;
  last = refl;
  active = omega arith;
  recent = omega arith;
}

heartbeats_defeat_idle_timeout_example :
    (tick_on 100 (30 ∷ 40 ∷ 40 ∷ []) beating).state ≡ authenticated
heartbeats_defeat_idle_timeout_example =
    heartbeats_defeat_idle_timeout default_config 100 (30 ∷ 40 ∷ 40 ∷ []) beating
      (omega arith, (omega arith, (omega arith, tt))) beating-IsBeating

-- The goodbye codec writes; a hello cannot be framed, but it authenticates.
greeted :
    (Runs.run toy_cbor
      (hear_hello greeting 5 1 ∷ tick_at 2 ∷ [])
      (Connection.new 0 default_config)).state
    ≡ authenticated
unfolding Connection.handle_hello tick Connection.check_timeout Payload.into_frame Payload.encode
greeted = refl

authenticated-session_id_example :
    (id : ℕ) × ((Runs.run toy_cbor
        (hear_hello greeting 5 1 ∷ tick_at 2 ∷ [])
        (Connection.new 0 default_config)).session_id
      ≡ some id)
authenticated-session_id_example =
    authenticated-session_id toy_cbor (hear_hello greeting 5 1 ∷ tick_at 2 ∷ []) 0 default_config
      greeted
