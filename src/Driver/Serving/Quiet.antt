-- ===== src/Driver/Serving/Quiet.antt =====
-- crates/lockframe-server/src/driver.rs: the actions that leave the storage alone, and those that a
-- room's actions become.
use kalandra.Prelude.{
  ℕ, ◌≡◌, refl, ap, ◌∙◌, Option, none, some, List, [], ◌∷◌, ◌++◌, map, Result, ok, err,
  Option-cases, inl, inr, get,
}
use kalandra.Prelude.Exec.{Exec, after}
use kalandra.Proto.Errors.{ProtocolError}
use kalandra.Proto.Frame.{Frame}
use kalandra.Connection.{ConnectionAction, send_frame, close_with}
use kalandra.Storage.{StorageError}
use kalandra.Rooms.{RoomAction, RoomError}
use kalandra.Rooms.Sync.{respond, with_frames, with_group, handle_sync_request, encode_all}
use kalandra.Driver.{
  Libraries, ServerDriver, ServerAction, ServerError, LogLevel, Message, send_to_session, log,
}
use kalandra.Driver.Actions.{
  from_connection, error_frame, sync_actions, make_error_response, convert_room_action,
}
use kalandra.Driver.Events.{synced}
use kalandra.Driver.Serving.{Shared, execute_action, execute_actions}

module _ (L : Libraries) where
  -- The storage is as it was.
  abbrev pub IsQuiet : List ServerAction → Type 0
  IsQuiet actions = (s : Shared L) → (execute_actions L actions s).1.1 ≡ s.1

  -- The storage after the rest of the actions, if an error does not end them.
  pub after-quiet :
      (done : Result ServerError (Unit {0}) × Shared L)
      (rest : Exec (Shared L) ServerError (Unit {0}))
      → ((s : Shared L) → (rest s).1.1 ≡ s.1)
      → (after (λ _. rest) done).1.1 ≡ done.1.1
  after-quiet (ok _, s) rest quiet = quiet s
  after-quiet (err e, s) rest quiet = refl

  after-after :
      (first rest whole : Exec (Shared L) ServerError (Unit {0}))
      → ((s : Shared L) → whole s ≡ after (λ _. rest) (first s))
      → (done : Result ServerError (Unit {0}) × Shared L)
      → after (λ _. whole) done ≡ after (λ _. rest) (after (λ _. first) done)
  after-after first rest whole split (ok _, s) = split s
  after-after first rest whole split (err e, s) = refl

  pub execute_actions-append :
      (before rest : List ServerAction) (s : Shared L)
      → execute_actions L (before ++ rest) s
        ≡ after (λ _. execute_actions L rest) (execute_actions L before s)
  unfolding execute_actions
  execute_actions-append [] rest s = refl
  execute_actions-append (action ∷ before) rest s =
      after-after (execute_actions L before) (execute_actions L rest)
        (execute_actions L (before ++ rest)) (execute_actions-append before rest)
        (execute_action L action s)

  pub append-IsQuiet :
      (before rest : List ServerAction) → IsQuiet before → IsQuiet rest → IsQuiet (before ++ rest)
  append-IsQuiet before rest quiet quiet' s =
      ap (λ (done : Result ServerError (Unit {0}) × Shared L). done.1.1)
        (execute_actions-append before rest s)
      ∙ after-quiet (execute_actions L before s) (execute_actions L rest) quiet'
      ∙ quiet s

  -- An action that is not a write leaves the storage alone, wherever it stands.
  cons-IsQuiet :
      (action : ServerAction) (rest : List ServerAction)
      → ((s : Shared L) → (execute_action L action s).1.1 ≡ s.1)
      → IsQuiet rest
      → IsQuiet (action ∷ rest)
  unfolding execute_actions
  cons-IsQuiet action rest here quiet s =
      after-quiet (execute_action L action s) (execute_actions L rest) quiet ∙ here s

  pub nil-IsQuiet : IsQuiet []
  unfolding execute_actions
  nil-IsQuiet s = refl

  pub from_connection-IsQuiet :
      (id : ℕ) (actions : List ConnectionAction) → IsQuiet (map (from_connection id) actions)
  from_connection-IsQuiet id [] = nil-IsQuiet
  from_connection-IsQuiet id (send_frame frame ∷ actions) =
      cons-IsQuiet _ _ (λ s. refl) (from_connection-IsQuiet id actions)
  from_connection-IsQuiet id (close_with reason ∷ actions) =
      cons-IsQuiet _ _ (λ s. refl) (from_connection-IsQuiet id actions)

  -- One message to a session, and a line of the log.
  sent-IsQuiet :
      (id : ℕ) (frame : Frame) (rest : List ServerAction)
      → IsQuiet rest
      → IsQuiet (send_to_session id frame ∷ rest)
  sent-IsQuiet id frame rest quiet = cons-IsQuiet _ _ (λ s. refl) quiet

  pub log-IsQuiet :
      (level : LogLevel) (text : Message) (now : ℕ) (rest : List ServerAction)
      → IsQuiet rest
      → IsQuiet (log level text now ∷ rest)
  log-IsQuiet level text now rest quiet = cons-IsQuiet _ _ (λ s. refl) quiet

  error_frame-IsQuiet :
      (id room_id now : ℕ) (text : List ℕ) (r : Result ProtocolError Frame)
      → IsQuiet (error_frame L id room_id now text r)
  error_frame-IsQuiet id room_id now text (ok frame) =
      sent-IsQuiet _ _ _ (log-IsQuiet _ _ _ _ nil-IsQuiet)
  error_frame-IsQuiet id room_id now text (err e) = log-IsQuiet _ _ _ _ nil-IsQuiet

  pub make_error_response-IsQuiet :
      (id room_id now : ℕ) (e : ServerError) → IsQuiet (make_error_response L id room_id now e)
  unfolding make_error_response
  make_error_response-IsQuiet id room_id now e = error_frame-IsQuiet id room_id now _ _

  sync_actions-IsQuiet :
      (id room_id now : ℕ) (r : Result ProtocolError Frame)
      → IsQuiet (sync_actions L id room_id now r)
  sync_actions-IsQuiet id room_id now (ok frame) = sent-IsQuiet _ _ _ nil-IsQuiet
  sync_actions-IsQuiet id room_id now (err e) = log-IsQuiet _ _ _ _ nil-IsQuiet

  -- What a sync request is answered leaves the storage alone.
  abbrev pub IsQuietReply : ℕ → ℕ → ℕ → Option (Result RoomError RoomAction) → Type 0
  IsQuietReply id room_id now none = Unit
  IsQuietReply id room_id now (some result) = IsQuiet (synced L id room_id now result)

  respond-IsQuiet :
      (id room_id from epoch now : ℕ) (frames : List Frame) (bytes : List (List ℕ))
      (latest : Result StorageError (Option ℕ))
      → IsQuiet (
          synced L id room_id now
            (respond L.storage L.groups L.dalek id room_id from epoch now frames bytes latest))
  unfolding convert_room_action
  respond-IsQuiet id room_id from epoch now frames bytes (err e) =
      make_error_response-IsQuiet id room_id now _
  respond-IsQuiet id room_id from epoch now frames bytes (ok latest) =
      sync_actions-IsQuiet id room_id now _

  with_frames-IsQuietReply :
      (store : L.storage.Store) (id room_id from epoch now : ℕ)
      (loaded : Result StorageError (List Frame))
      → IsQuietReply id room_id now
          (with_frames L.storage L.groups L.dalek store id room_id from epoch now loaded)
  with_frames-IsQuietReply store id room_id from epoch now (err e) =
      make_error_response-IsQuiet id room_id now _
  with_frames-IsQuietReply store id room_id from epoch now (ok frames) =
      elim (Option-cases (encode_all frames)) [
        | inl panicked ↦ rw (IsQuietReply, panicked) tt
        | inr (bytes, encoded) ↦
            rw (IsQuietReply, encoded) (respond-IsQuiet id room_id from epoch now frames bytes _)
      ]

  pub with_group-IsQuietReply :
      (store : L.storage.Store) (id room_id from limit now : ℕ) (group : Option L.groups.Group)
      → IsQuietReply id room_id now
          (with_group L.storage L.groups L.dalek store id room_id from limit now group)
  with_group-IsQuietReply store id room_id from limit now none =
      make_error_response-IsQuiet id room_id now _
  with_group-IsQuietReply store id room_id from limit now (some group) =
      elim (Option-cases (L.storage.load_frames store room_id from limit)) [
        | inl panicked ↦ rw (IsQuietReply, panicked) tt
        | inr (loaded, found) ↦
            rw (IsQuietReply, found) (with_frames-IsQuietReply store id room_id from _ now loaded)
      ]

  pub handle_sync_request-IsQuietReply :
      (d : ServerDriver L) (id room_id from limit now : ℕ)
      → IsQuietReply id room_id now (
          handle_sync_request L.storage L.groups L.dalek d.room_manager room_id id from limit now
            d.storage)
  unfolding handle_sync_request
  handle_sync_request-IsQuietReply d id room_id from limit now =
      with_group-IsQuietReply d.storage id room_id from limit now
        (get d.room_manager.groups room_id)
