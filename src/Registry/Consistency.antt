-- ===== src/Registry/Consistency.antt =====
-- crates/lockframe-server/src/registry.rs: the two maps of subscriptions agree, and what each
-- operation does to the subscriptions.
use kalandra.Prelude.{
  ℕ, false, ◌≡◌, refl, ◌∙◌, List, [], ◌∷◌, Bool-cases, Option-cases, inl, inr, arith, HashMap, get,
  contains_key, HashSet, get-insert, get-remove, contains-nil,
}
use kalandra.Registry
use kalandra.Registry.{
  ConnectionRegistry, SessionInfo, or_default, has_session, is_subscribed, register_session,
  unregister_session, subscribe, unsubscribe, rooms_for_session, sessions_in_room, leave_rooms,
  take_out,
}
use kalandra.Registry.Subscriptions.{
  member, member-or_default, HasNoEmpty, member-entry_add, member-take_out, member-drop_empty,
  member-leave_rooms, entry_add-HasNoEmpty, drop_empty-HasNoEmpty, leave_rooms-HasNoEmpty,
  contains_key-entry_add, contains_key-take_out,
}

-- The two maps list the same subscriptions, the sessions with a set of rooms are the registered
-- ones, and no room has an empty set.
pub record IsConsistent (g : ConnectionRegistry) : Type 0 where
  pub mirrored :
      (session room : ℕ) → is_subscribed g session room ≡ member g.session_rooms session room
  pub tracked : (session : ℕ) → contains_key g.session_rooms session ≡ has_session g session
  pub no_empty : HasNoEmpty g.room_subscriptions

-- The operations that change the registry.
pub data Command : Type 0 where
  register : ℕ → SessionInfo → Command
  unregister : ℕ → Command
  join leave : (session room : ℕ) → Command

abbrev pub apply : ConnectionRegistry → Command → ConnectionRegistry
apply g (register session info) = (register_session g session info).1
apply g (unregister session) = (unregister_session g session).1
apply g (join session room) = (subscribe g session room).1
apply g (leave session room) = (unsubscribe g session room).1

abbrev pub run : ConnectionRegistry → List Command → ConnectionRegistry
run g [] = g
run g (c ∷ cs) = run (apply g c) cs

-- A session without an entry is in no room.
pub member-untracked :
    (m : HashMap HashSet) (session room : ℕ)
    → contains_key m session ≡ false
    → member m session room ≡ false
unfolding contains_key
member-untracked m session room h = ground (arith)

pub new-IsConsistent : IsConsistent Registry.new
unfolding is_subscribed has_session get contains_key
new-IsConsistent = record {
  mirrored = λ session room. refl;
  tracked = λ session. refl;
  no_empty = λ room e. cc;
}

register-IsConsistent :
    (g : ConnectionRegistry) (session : ℕ) (info : SessionInfo)
    → IsConsistent g
    → IsConsistent (register_session g session info).1
unfolding register_session is_subscribed has_session contains_key
register-IsConsistent g session info v = elim (Bool-cases (contains_key g.sessions session)) [
  | inl known ↦ rw known v
  | inr fresh ↦ rw fresh (record {
    mirrored = λ session' room. ground (
      arith,
      v.mirrored session' room,
      v.tracked session',
      fresh,
      get-insert g.session_rooms session [] session',
      contains-nil room,
      member-untracked g.session_rooms session' room,
    );
    tracked = λ session'. ground (
      arith,
      v.tracked session',
      get-insert g.session_rooms session [] session',
      get-insert g.sessions session info session',
    );
    no_empty = v.no_empty;
  })
]

subscribe-IsConsistent :
    (g : ConnectionRegistry) (session room : ℕ)
    → IsConsistent g
    → IsConsistent (subscribe g session room).1
unfolding subscribe is_subscribed has_session
subscribe-IsConsistent g session room v = elim (Bool-cases (contains_key g.sessions session)) [
  | inl known ↦ rw known (record {
    mirrored = λ session' room'. ground (
      arith,
      v.mirrored session' room',
      member-entry_add g.room_subscriptions room session room' session',
      member-entry_add g.session_rooms session room session' room',
    );
    tracked = λ session'.
        contains_key-entry_add g.session_rooms session room session' (v.tracked session ∙ known)
        ∙ v.tracked session';
    no_empty = entry_add-HasNoEmpty _ _ _ v.no_empty;
  })
  | inr unknown ↦ rw unknown v
]

unsubscribe-IsConsistent :
    (g : ConnectionRegistry) (session room : ℕ)
    → IsConsistent g
    → IsConsistent (unsubscribe g session room).1
unfolding unsubscribe is_subscribed has_session
unsubscribe-IsConsistent g session room v = record {
  mirrored = λ session' room'. ground (
    arith,
    v.mirrored session' room',
    member-drop_empty (take_out g.room_subscriptions room session).1 room room' session',
    member-take_out g.room_subscriptions room session room' session',
    member-take_out g.session_rooms session room session' room',
  );
  tracked =
      λ session'. contains_key-take_out g.session_rooms session room session' ∙ v.tracked session';
  no_empty = drop_empty-HasNoEmpty g.room_subscriptions room session v.no_empty;
}

unregister-IsConsistent :
    (g : ConnectionRegistry) (session : ℕ)
    → IsConsistent g
    → IsConsistent (unregister_session g session).1
unfolding unregister_session is_subscribed has_session contains_key
unregister-IsConsistent g session v = elim (Option-cases (get g.sessions session)) [
  | inl unknown ↦ rw unknown v
  | inr (info, known) ↦ rw known (record {
    mirrored = λ session' room. ground (
      arith,
      v.mirrored session' room,
      member-leave_rooms (or_default (get g.session_rooms session)) session g.room_subscriptions
          room session',
      member-or_default g.session_rooms session room,
      get-remove g.session_rooms session session',
    );
    tracked = λ session'. ground (
      arith,
      v.tracked session',
      get-remove g.session_rooms session session',
      get-remove g.sessions session session',
    );
    no_empty = leave_rooms-HasNoEmpty _ session _ v.no_empty;
  })
]

pub apply-IsConsistent :
    (g : ConnectionRegistry) (c : Command) → IsConsistent g → IsConsistent (apply g c)
apply-IsConsistent g (register session info) v = register-IsConsistent g session info v
apply-IsConsistent g (unregister session) v = unregister-IsConsistent g session v
apply-IsConsistent g (join session room) v = subscribe-IsConsistent g session room v
apply-IsConsistent g (leave session room) v = unsubscribe-IsConsistent g session room v

run-keeps : (g : ConnectionRegistry) (cs : List Command) → IsConsistent g → IsConsistent (run g cs)
run-keeps g [] v = v
run-keeps g (c ∷ cs) v = run-keeps (apply g c) cs (apply-IsConsistent g c v)

-- After any operations on the empty registry, the room's map and the session's map list the same
-- subscriptions, the sessions with rooms are the registered ones, and no room has an empty set.
pub run-IsConsistent : (cs : List Command) → IsConsistent (run Registry.new cs)
run-IsConsistent cs = run-keeps Registry.new cs new-IsConsistent
