-- ===== src/Registry.antt =====
-- crates/lockframe-server/src/registry.rs: sessions and their subscriptions, both ways round.
mod Subscriptions
pub mod Consistency
pub mod Effects
use kalandra.Prelude.{
  ℕ, Bool, true, false, ◌&&◌, if◌then◌else◌, Option, none, some, List, [], ◌∷◌, length, is_some_and,
  map_or, HashMap, get, insert, remove, contains_key, entry_count, HashSet, contains, add, discard,
}

pub record SessionInfo : Type 0 where
  pub user_id : Option ℕ
  pub authenticated : Bool

-- `SessionInfo::new`
abbrev pub session_info : SessionInfo
session_info = record { user_id = none; authenticated = false }

pub record ConnectionRegistry : Type 0 where
  pub sessions : HashMap SessionInfo
  pub room_subscriptions : HashMap HashSet
  pub session_rooms : HashMap HashSet

abbrev pub new : ConnectionRegistry
new = record { sessions = []; room_subscriptions = []; session_rooms = [] }

abbrev pub is_empty : HashSet → Bool
is_empty [] = true
is_empty (a ∷ s) = false

-- `unwrap_or_default` and `or_default`
abbrev pub or_default : Option HashSet → HashSet
or_default none = []
or_default (some s) = s

-- `entry(key).or_default().insert(a)`
unfoldable pub entry_add : HashMap HashSet → ℕ → ℕ → HashMap HashSet
entry_add m key a = insert m key (add (or_default (get m key)) a)

-- `get_mut(key).is_some_and(|s| s.remove(&a))`
abbrev take_from : HashMap HashSet → ℕ → ℕ → Option HashSet → Bool × HashMap HashSet
take_from m key a none = (false, m)
take_from m key a (some s) = (contains s a, insert m key (discard s a))

unfoldable pub take_out : HashMap HashSet → ℕ → ℕ → Bool × HashMap HashSet
take_out m key a = take_from m key a (get m key)

-- A set that has become empty is removed.
unfoldable pub drop_empty : HashMap HashSet → ℕ → HashMap HashSet
drop_empty m key = if is_some_and (get m key) is_empty then remove m key else m

-- The loop of `unregister_session`.
unfoldable pub leave_rooms : HashSet → ℕ → HashMap HashSet → HashMap HashSet
unfolding take_out drop_empty
leave_rooms [] session_id m = m
leave_rooms (room_id ∷ rooms) session_id m =
    leave_rooms rooms session_id (drop_empty (take_out m room_id session_id).1 room_id)

unfoldable pub has_session : ConnectionRegistry → ℕ → Bool
has_session g session_id = contains_key g.sessions session_id

unfoldable pub register_session : ConnectionRegistry → ℕ → SessionInfo → Bool × ConnectionRegistry
register_session g session_id info = if contains_key g.sessions session_id then (false, g) else (
  true,
  record g {
    sessions = insert g.sessions session_id info;
    session_rooms = insert g.session_rooms session_id [];
  },
)

abbrev unregister_known :
    ConnectionRegistry
    → ℕ
    → Option SessionInfo
    → Option (SessionInfo × HashSet) × ConnectionRegistry
unregister_known g session_id none = (none, g)
unregister_known g session_id (some info) =
    let rooms = or_default (get g.session_rooms session_id) in
    (
      some (info, rooms),
      record {
        sessions = remove g.sessions session_id;
        session_rooms = remove g.session_rooms session_id;
        room_subscriptions = leave_rooms rooms session_id g.room_subscriptions;
      },
    )

unfoldable pub unregister_session :
    ConnectionRegistry → ℕ → Option (SessionInfo × HashSet) × ConnectionRegistry
unregister_session g session_id = unregister_known g session_id (get g.sessions session_id)

unfoldable pub subscribe : ConnectionRegistry → ℕ → ℕ → Bool × ConnectionRegistry
subscribe g session_id room_id =
    if contains_key g.sessions session_id
    then (
      true,
      record g {
        room_subscriptions = entry_add g.room_subscriptions room_id session_id;
        session_rooms = entry_add g.session_rooms session_id room_id;
      },
    )
    else (false, g)

unfoldable pub unsubscribe : ConnectionRegistry → ℕ → ℕ → Bool × ConnectionRegistry
unsubscribe g session_id room_id =
    let (removed_from_room, rooms) = take_out g.room_subscriptions room_id session_id in
    let (removed_from_session, sessions) = take_out g.session_rooms session_id room_id in
    (
      removed_from_room && removed_from_session,
      record g { room_subscriptions = drop_empty rooms room_id; session_rooms = sessions },
    )

unfoldable pub is_subscribed : ConnectionRegistry → ℕ → ℕ → Bool
is_subscribed g session_id room_id =
    is_some_and (get g.room_subscriptions room_id) (λ s. contains s session_id)

-- The iterators, as the sets that they walk.
unfoldable pub sessions_in_room : ConnectionRegistry → ℕ → HashSet
sessions_in_room g room_id = or_default (get g.room_subscriptions room_id)

unfoldable pub rooms_for_session : ConnectionRegistry → ℕ → HashSet
rooms_for_session g session_id = or_default (get g.session_rooms session_id)

unfoldable pub session_count : ConnectionRegistry → ℕ
session_count g = entry_count g.sessions

unfoldable pub room_session_count : ConnectionRegistry → ℕ → ℕ
room_session_count g room_id = map_or (get g.room_subscriptions room_id) 0 length
