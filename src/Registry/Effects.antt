-- ===== src/Registry/Effects.antt =====
-- crates/lockframe-server/src/registry.rs: what each operation does to the subscriptions.
use kalandra.Prelude.{
  ℕ, Bool, false, ◌&&◌, ◌||◌, not, ◌≡◌, refl, sym, ◌∙◌, ◌==◌, Bool-cases, Option-cases, inl, inr,
  arith, get, contains_key, contains_key-get, contains,
}
use kalandra.Registry.{
  ConnectionRegistry, or_default, has_session, is_subscribed, register_session, unregister_session,
  subscribe, unsubscribe, rooms_for_session, sessions_in_room, take_out,
}
use kalandra.Registry.Subscriptions.{
  at, member-or_default, member-entry_add, member-take_out, take_out-answer, member-drop_empty,
  member-leave_rooms,
}
use kalandra.Registry.Consistency.{
  IsConsistent, Command, register, unregister, join, leave, apply, member-untracked,
}

-- The subscriptions as a relation, and what a command makes of it.
abbrev pub subscribed_after : ConnectionRegistry → Command → ℕ → ℕ → Bool
subscribed_after g (register session info) session' room' = is_subscribed g session' room'
subscribed_after g (unregister session) session' room' =
    not (session == session') && is_subscribed g session' room'
subscribed_after g (join session room) session' room' =
    (has_session g session && at session room session' room') || is_subscribed g session' room'
subscribed_after g (leave session room) session' room' =
    not (at session room session' room') && is_subscribed g session' room'

-- A session that is not registered is in no room.
unregistered :
    (g : ConnectionRegistry) (session room : ℕ)
    → IsConsistent g
    → has_session g session ≡ false
    → is_subscribed g session room ≡ false
unregistered g session room v h =
    v.mirrored session room ∙ member-untracked g.session_rooms session room (v.tracked session ∙ h)

-- In a consistent registry, registering changes no subscription, unregistering ends those of the
-- session and no other, subscribing adds the one asked for if the session is registered, and
-- unsubscribing ends just that one.
pub apply-is_subscribed :
    (g : ConnectionRegistry) (c : Command) (session room : ℕ)
    → IsConsistent g
    → is_subscribed (apply g c) session room ≡ subscribed_after g c session room
unfolding is_subscribed register_session unregister_session subscribe unsubscribe has_session
apply-is_subscribed g (register session info) session' room' v =
    elim (Bool-cases (contains_key g.sessions session)) [
      | inl known ↦ rw (apply, known) refl
      | inr fresh ↦ rw (apply, fresh) refl
    ]
apply-is_subscribed g (join session room) session' room' v =
    ground (arith, member-entry_add g.room_subscriptions room session room' session')
apply-is_subscribed g (leave session room) session' room' v = ground (
  arith,
  member-drop_empty (take_out g.room_subscriptions room session).1 room room' session',
  member-take_out g.room_subscriptions room session room' session',
)
apply-is_subscribed g (unregister session) session' room' v =
    elim (Option-cases (get g.sessions session)) [
      | inl unknown ↦
          rw (apply, unknown)
            (ground (
              arith,
              unregistered g session' room' v,
              contains_key-get g.sessions session',
              unknown,
            ))
      | inr (info, known) ↦
          rw (apply, known)
            (ground (
              arith,
              v.mirrored session' room',
              member-leave_rooms (or_default (get g.session_rooms session)) session
                  g.room_subscriptions room' session',
              member-or_default g.session_rooms session room',
            ))
    ]

-- In a consistent registry, unsubscribing answers whether the session was in the room.
pub unsubscribe-answer :
    (g : ConnectionRegistry) (session room : ℕ)
    → IsConsistent g
    → (unsubscribe g session room).0 ≡ is_subscribed g session room
unfolding unsubscribe is_subscribed
unsubscribe-answer g session room v = ground (
  arith,
  take_out-answer g.room_subscriptions room session,
  take_out-answer g.session_rooms session room,
  v.mirrored session room,
)

-- In a consistent registry, `sessions_in_room` lists a session, and `rooms_for_session` a room,
-- exactly when `is_subscribed` says so.
pub listings_agree :
    (g : ConnectionRegistry) (session room : ℕ)
    → IsConsistent g
    → (contains (sessions_in_room g room) session ≡ is_subscribed g session room)
      × (contains (rooms_for_session g session) room ≡ is_subscribed g session room)
unfolding is_subscribed sessions_in_room rooms_for_session
listings_agree g session room v = (
  member-or_default g.room_subscriptions room session,
  member-or_default g.session_rooms session room ∙ sym (v.mirrored session room),
)
