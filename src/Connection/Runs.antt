-- ===== src/Connection/Runs.antt =====
-- crates/lockframe-core/src/connection.rs: runs of operations on a connection.
use kalandra.Prelude.{ℕ, ◌≡◌, refl, sym, ◌∙◌, some, List, [], ◌∷◌}
use kalandra.Proto.Frame.{Frame}
use kalandra.Proto.Payload.{Ciborium}
use kalandra.Proto.Payload.Types.{Hello}
use kalandra.Connection.{
  Connection, authenticated, closed, tick, close, update_activity, set_session_id, send_hello,
  handle_hello, handle_frame, new, ConnectionConfig,
}
use kalandra.Connection.Lifecycle.{
  Move, stays, named, greets, admits_client, admitted, closes, send_hello-Move, handle_hello-Move,
  handle_frame-Move, tick-Move,
}

-- What can happen to a connection.
pub data Event : Type 0 where
  say_hello tick_at active : (now : ℕ) → Event
  hear_hello : Hello → (random now : ℕ) → Event
  receive : Frame → (now : ℕ) → Event
  assign_id : ℕ → Event
  end : Event

module _ (cbor : Ciborium) where
  abbrev pub step : Event → Connection → Connection
  step (say_hello now) c = (send_hello cbor now c).1
  step (tick_at now) c = (tick now c).1
  step (active now) c = update_activity now c
  step (hear_hello greeting random now) c = (handle_hello cbor greeting random now c).1
  step (receive frame now) c = (handle_frame cbor frame now c).1
  step (assign_id id) c = set_session_id id c
  step end c = close c

  abbrev pub run : List Event → Connection → Connection
  run [] c = c
  run (e ∷ es) c = run es (step e c)

  from_active : (now : ℕ) (c c' : Connection) → Move (update_activity now c) c' → Move c c'
  from_active now c c' (stays e f) = stays e f
  from_active now c c' (named id e f) = named id e f
  from_active now c c' (greets e f) = greets e f
  from_active now c c' (admits_client id e f g) = admits_client id e f g
  from_active now c c' (admitted id e f g) = admitted id e f g
  from_active now c c' (closes e) = closes e

  -- Every operation makes one of the moves: it keeps the state (and the session id, but for the
  -- assignment of one), goes from the initial state to the pending one, goes to the authenticated
  -- state from the initial or the pending one with a session id set, or closes.
  pub step-Move : (e : Event) (c : Connection) → Move c (step e c)
  step-Move (say_hello now) c = send_hello-Move cbor now c
  step-Move (tick_at now) c = tick-Move now c
  step-Move (active now) c = stays refl refl
  step-Move (hear_hello greeting random now) c = handle_hello-Move cbor greeting random now c
  step-Move (receive frame now) c = from_active now c _ (handle_frame-Move cbor frame now c)
  step-Move (assign_id id) c = named id refl refl
  step-Move end c = closes refl

  Move-closed : (c c' : Connection) → Move c c' → c.state ≡ closed → c'.state ≡ closed
  Move-closed c c' (stays e f) h = e ∙ h
  Move-closed c c' (named id e f) h = e ∙ h
  Move-closed c c' (greets e f) h = cc
  Move-closed c c' (admits_client id e f g) h = cc
  Move-closed c c' (admitted id e f g) h = cc
  Move-closed c c' (closes e) h = e

  -- A closed connection stays closed.
  pub run-closed : (es : List Event) (c : Connection) → c.state ≡ closed → (run es c).state ≡ closed
  run-closed [] c h = h
  run-closed (e ∷ es) c h = run-closed es (step e c) (Move-closed c (step e c) (step-Move e c) h)

  -- A connection that is authenticated has a session id.
  abbrev pub HasSession : Connection → Type 0
  HasSession c = c.state ≡ authenticated → (id : ℕ) × (c.session_id ≡ some id)

  Move-HasSession : (c c' : Connection) → Move c c' → HasSession c → HasSession c'
  Move-HasSession c c' (stays e f) h now_in =
      let (id, known) = h (sym e ∙ now_in) in (id, f ∙ known)
  Move-HasSession c c' (named id e f) h now_in = (id, f)
  Move-HasSession c c' (greets e f) h now_in = cc
  Move-HasSession c c' (admits_client id e f g) h now_in = (id, g)
  Move-HasSession c c' (admitted id e f g) h now_in = (id, g)
  Move-HasSession c c' (closes e) h now_in = cc

  run-HasSession : (es : List Event) (c : Connection) → HasSession c → HasSession (run es c)
  run-HasSession [] c h = h
  run-HasSession (e ∷ es) c h =
      run-HasSession es (step e c) (Move-HasSession c (step e c) (step-Move e c) h)

  -- A connection that any run of operations has brought to the authenticated state has a session id.
  pub authenticated-session_id :
      (es : List Event) (now : ℕ) (config : ConnectionConfig)
      → (run es (new now config)).state ≡ authenticated
      → (id : ℕ) × ((run es (new now config)).session_id ≡ some id)
  authenticated-session_id es now config = run-HasSession es (new now config) (λ e. cc)
