-- ===== src/Rooms/Serve.antt =====
-- crates/lockframe-server/src/lib.rs: `handle_stream` hands each frame to the room manager and has
-- the actions executed; a frame that fails is dropped, and the next one is read. An error in the
-- execution ends the stream: the frames that arrive after it are those of other streams.
use kalandra.Prelude.{ℕ, List, [], ◌∷◌, Result, ok, err}
use kalandra.Proto.Frame.{Frame}
use kalandra.Mls.State.{Ed25519}
use kalandra.Mls.Group.{MlsGroups}
use kalandra.Storage.{Storage}
use kalandra.Rooms.{RoomAction, RoomError}
use kalandra.Rooms.Manager.{RoomManager, process_frame}
use kalandra.Rooms.Persist.{persist}

module _ (S : Storage) (G : MlsGroups) (dalek : Ed25519) where
  pub record Server : Type 0 where
    pub manager : RoomManager S G dalek
    pub store : S.Store

  abbrev pub finish : Result RoomError (List RoomAction) × RoomManager S G dalek → S.Store → Server
  finish (ok actions, m) store = record { manager = m; store = persist S actions store }
  finish (err _, m) store = record { manager = m; store = store }

  -- One frame, at a time.
  unfoldable pub serve_frame : Server → ℕ × Frame → Server
  serve_frame s (now, frame) = finish (process_frame S G dalek frame now s.store s.manager) s.store

  unfoldable pub serve : Server → List (ℕ × Frame) → Server
  unfolding serve_frame
  serve s [] = s
  serve s (arrival ∷ rest) = serve (serve_frame s arrival) rest
