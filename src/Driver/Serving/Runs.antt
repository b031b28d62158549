-- ===== src/Driver/Serving/Runs.antt =====
-- crates/lockframe-server/src/lib.rs: a run of the turns of `handle_stream`, and of the other events.
use kalandra.Prelude.{
  ℕ, HashSet, ◌≡◌, refl, sym, subst, ap, ◌∙◌, Option, none, some, List, [], ◌∷◌, ◌++◌, Option-cases,
  inl, inr,
}
use kalandra.Proto.Frame.{Frame}
use kalandra.Storage.{Contract}
use kalandra.Rooms.Serve.{Server, serve, serve_frame}
use kalandra.Rooms.Order.Invariant.{IsOrdered, serve-IsOrdered}
use kalandra.Driver.{Libraries, ServerDriver, ServerEvent}
use kalandra.Driver.Serving.{take_turn, rooms_of, arrival}
use kalandra.Driver.Serving.Refinement.{take_turn-serve}

module _ (L : Libraries) where
  abbrev pub proceed : {A : Type 0} → Option (ServerDriver L) → (ServerDriver L → A) → A → A
  proceed none rest stop = stop
  proceed (some d) rest stop = rest d

  -- The turns, one after the other; `none` is a panic.
  unfoldable pub take_turns :
      ServerDriver L → List (HashSet × (ℕ × ServerEvent)) → Option (ServerDriver L)
  unfolding take_turn
  take_turns d [] = some d
  take_turns d (turn ∷ turns) = proceed (take_turn L d turn) (λ d'. take_turns d' turns) none

  -- The frames that reach the room manager.
  unfoldable pub arrivals : ServerDriver L → List (HashSet × (ℕ × ServerEvent)) → List (ℕ × Frame)
  unfolding take_turn arrival
  arrivals d [] = []
  arrivals d (turn ∷ turns) =
      arrival L d turn.1 ++ proceed (take_turn L d turn) (λ d'. arrivals d' turns) []

  serve-append :
      (s : Server L.storage L.groups L.dalek) (before after : List (ℕ × Frame))
      → serve L.storage L.groups L.dalek s (before ++ after)
        ≡ serve L.storage L.groups L.dalek (serve L.storage L.groups L.dalek s before) after
  unfolding serve
  serve-append s [] after = refl
  serve-append s (a ∷ before) after =
      serve-append (serve_frame L.storage L.groups L.dalek s a) before after

  -- After events that cause no panic, the rooms and the storage of the driver are those of a server
  -- that was handed, in turn, the room-level frames of the connections that were there, whichever
  -- sessions can be reached when the actions of an event are executed.
  pub take_turns-serve :
      (d d' : ServerDriver L) (turns : List (HashSet × (ℕ × ServerEvent)))
      → take_turns d turns ≡ some d'
      → rooms_of L d' ≡ serve L.storage L.groups L.dalek (rooms_of L d) (arrivals d turns)
  unfolding take_turns arrivals serve
  take_turns-serve d d' [] returned = let same : d ≡ d' = cc in ap (rooms_of L) (sym same)
  take_turns-serve d d' (turn ∷ turns) returned = elim (Option-cases (take_turn L d turn)) [
    | inl panicked ↦
        let never : none ≡ some d' =
          subst (λ o. proceed o (λ d''. take_turns d'' turns) none ≡ some d') panicked returned in
        cc
    | inr (next, went) ↦
        let rest : take_turns next turns ≡ some d' =
          subst (λ o. proceed o (λ d''. take_turns d'' turns) none ≡ some d') went returned in
        take_turns-serve next d' turns rest
        ∙ ap (λ s. serve L.storage L.groups L.dalek s (arrivals next turns))
            (take_turn-serve L d next turn went)
        ∙ sym (serve-append (rooms_of L d) (arrival L d turn.1) (arrivals next turns))
        ∙ rw went refl
  ]

  -- Events that cause no panic keep the logs in order, whatever the frames are: every stored frame
  -- carries its place in its room's log, no log is longer than the room's next index, and the next
  -- indices fit 64 bits, if that was so before.
  pub take_turns-IsOrdered :
      (c : Contract L.storage) (d d' : ServerDriver L) (turns : List (HashSet × (ℕ × ServerEvent)))
      → take_turns d turns ≡ some d'
      → IsOrdered L.storage c L.groups L.dalek (rooms_of L d)
      → IsOrdered L.storage c L.groups L.dalek (rooms_of L d')
  take_turns-IsOrdered c d d' turns returned v =
      rw (take_turns-serve d d' turns returned)
        (serve-IsOrdered L.storage c L.groups L.dalek (rooms_of L d) (arrivals d turns) v)
