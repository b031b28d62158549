-- ===== src/Connection/Lifecycle.antt =====
-- crates/lockframe-core/src/connection.rs: how the operations move the state of a connection.
use kalandra.Prelude.{
  ℕ, ◌==◌, ◌≡◌, ◌⊎◌, refl, ap, true, false, some, List, Result, ok, err, map_err, Option-cases,
  Bool-cases, inl, inr,
}
use kalandra.Proto.Opcode.{Opcode}
use kalandra.Proto.Header
use kalandra.Proto.Frame.{Frame}
use kalandra.Proto.Payload.{Payload, Ciborium, from_frame}
use kalandra.Proto.Payload.Types.{Hello}
use kalandra.Connection.{
  Connection, ConnectionState, init, pending, authenticated, closed, tick, check_timeout, close,
  update_activity, heartbeat, heartbeat_due, send_hello, handle_hello, handle_frame, dispatch,
  in_any_state, on_hello, on_hello_reply, on_goodbye, set_state, is_init, ConnectionError,
  ConnectionAction, protocol,
}
use kalandra.Prelude.Exec.{Exec, after, pure}
use kalandra.Proto.Errors.{ProtocolError}

-- The moves of a connection.
pub data Move (c : Connection) (c' : Connection) : Type 0 where
  stays : c'.state ≡ c.state → c'.session_id ≡ c.session_id → Move c c'
  named : (id : ℕ) → c'.state ≡ c.state → c'.session_id ≡ some id → Move c c'
  greets : c.state ≡ init → c'.state ≡ pending → Move c c'
  admits_client :
      (id : ℕ) → c.state ≡ init → c'.state ≡ authenticated → c'.session_id ≡ some id → Move c c'
  admitted :
      (id : ℕ) → c.state ≡ pending → c'.state ≡ authenticated → c'.session_id ≡ some id → Move c c'
  closes : c'.state ≡ closed → Move c c'

-- Framing a reply and sending it leaves the connection alone.
sent-Move :
    {A : Type 0}
    → (c d : Connection) (framed : Result ConnectionError A) (actions : A → List ConnectionAction)
    → Move c d
    → Move c (after (λ f. pure (actions f)) (framed, d)).1
sent-Move c d (ok f) actions m = m
sent-Move c d (err x) actions m = m

-- A state is the initial one or not.
state-cases : (s : ConnectionState) → (s ≡ init) ⊎ (is_init s ≡ false)
state-cases init = inl refl
state-cases pending = inr refl
state-cases authenticated = inr refl
state-cases closed = inr refl

heartbeat-Move : (s : ConnectionState) (now : ℕ) (c : Connection) → Move c (heartbeat s now c).1
heartbeat-Move authenticated now c = elim (Bool-cases (heartbeat_due c now c.last_heartbeat)) [
  | inl due ↦ rw due (stays refl refl)
  | inr early ↦ rw early (stays refl refl)
]
heartbeat-Move _ now c = stays refl refl

module _ (cbor : Ciborium) where
  on_hello-Move : (p : Payload) (c : Connection) → c.state ≡ init → Move c (on_hello cbor p c).1
  on_hello-Move (Payload.hello greeting) c e = elim (Bool-cases (greeting.version == 1)) [
    | inr other ↦ rw other (stays refl refl)
    | inl one ↦ elim (Option-cases c.session_id) [
      | inl unnamed ↦ rw (one, unnamed) (stays refl refl)
      | inr (id, id_set) ↦
          rw (one, id_set)
            (let named_c : Connection = record c { session_id = some id } in
              sent-Move named_c (set_state authenticated named_c) _ _
                (admits_client id e refl refl))
    ]
  ]
  on_hello-Move _ c e = stays refl refl

  on_hello_reply-Move :
      (p : Payload) (c : Connection) → c.state ≡ pending → Move c (on_hello_reply cbor p c).1
  on_hello_reply-Move (Payload.hello_reply reply) c e = admitted reply.session_id e refl refl
  on_hello_reply-Move _ c e = stays refl refl

  on_goodbye-Move : (p : Payload) (c : Connection) → Move c (on_goodbye cbor p c).1
  on_goodbye-Move (Payload.goodbye farewell) c = sent-Move c (close c) _ _ (closes refl)
  on_goodbye-Move _ c = stays refl refl

  -- A payload that cannot be read leaves the connection alone.
  read-Move :
      (c : Connection) (read : Result ProtocolError Payload)
      (arm : Payload → Exec Connection ConnectionError (List ConnectionAction))
      → ((p : Payload) → Move c (arm p c).1)
      → Move c (after arm (map_err protocol read, c)).1
  read-Move c (ok p) arm m = m p
  read-Move c (err x) arm m = stays refl refl

  in_any_state-Move :
      (s : ConnectionState) (code : Opcode) (frame : Frame) (c : Connection)
      → Move c (in_any_state cbor s code frame c).1
  in_any_state-Move closed Opcode.goodbye frame c = stays refl refl
  in_any_state-Move init Opcode.goodbye frame c =
      read-Move c (from_frame cbor frame) _ (λ p. on_goodbye-Move p c)
  in_any_state-Move pending Opcode.goodbye frame c =
      read-Move c (from_frame cbor frame) _ (λ p. on_goodbye-Move p c)
  in_any_state-Move authenticated Opcode.goodbye frame c =
      read-Move c (from_frame cbor frame) _ (λ p. on_goodbye-Move p c)
  in_any_state-Move s Opcode.error frame c = closes refl
  in_any_state-Move s _ frame c = stays refl refl

  dispatch-Move :
      (s : ConnectionState) (code : Opcode) (frame : Frame) (c : Connection)
      → c.state ≡ s
      → Move c (dispatch cbor s code frame c).1
  dispatch-Move init Opcode.hello frame c e =
      read-Move c (from_frame cbor frame) _ (λ p. on_hello-Move p c e)
  dispatch-Move pending Opcode.hello_reply frame c e =
      read-Move c (from_frame cbor frame) _ (λ p. on_hello_reply-Move p c e)
  dispatch-Move authenticated Opcode.ping frame c e = stays refl refl
  dispatch-Move authenticated Opcode.pong frame c e = stays refl refl
  dispatch-Move s code frame c e = in_any_state-Move s code frame c

  pub handle_frame-Move :
      (frame : Frame) (now : ℕ) (c : Connection)
      → Move (update_activity now c) (handle_frame cbor frame now c).1
  unfolding handle_frame
  handle_frame-Move frame now c = elim (Option-cases (Header.opcode_enum frame.header)) [
    | inl unknown ↦ rw unknown (stays refl refl)
    | inr (code, known) ↦ rw known (dispatch-Move c.state code frame (update_activity now c) refl)
  ]

  pub send_hello-Move : (now : ℕ) (c : Connection) → Move c (send_hello cbor now c).1
  unfolding send_hello
  send_hello-Move now c = elim (state-cases c.state) [
    | inl at_init ↦
        let hit : is_init c.state ≡ true = ap is_init at_init in
        rw hit (
          sent-Move c (record c { state = pending; last_activity = now }) _ _ (greets at_init refl))
    | inr other ↦ rw other (stays refl refl)
  ]

  pub handle_hello-Move :
      (greeting : Hello) (random now : ℕ) (c : Connection)
      → Move c (handle_hello cbor greeting random now c).1
  unfolding handle_hello
  handle_hello-Move greeting random now c = elim (state-cases c.state) [
    | inr other ↦ rw other (stays refl refl)
    | inl at_init ↦
        let hit : is_init c.state ≡ true = ap is_init at_init in
        elim (Bool-cases (greeting.version == 1)) [
          | inr wrong ↦ rw (hit, wrong) (stays refl refl)
          | inl one ↦
              rw (hit, one)
                (sent-Move c
                  (record c {
                    session_id = some random;
                    state = authenticated;
                    last_activity = now;
                  })
                  _ _ (admits_client random at_init refl refl))
        ]
  ]

pub tick-Move : (now : ℕ) (c : Connection) → Move c (tick now c).1
unfolding tick
tick-Move now c = elim (Option-cases (check_timeout c now)) [
  | inr (elapsed, late) ↦ rw late (closes refl)
  | inl early ↦ rw early (heartbeat-Move c.state now c)
]
