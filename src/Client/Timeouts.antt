-- ===== src/Client/Timeouts.antt =====
-- crates/lockframe-client/src/client.rs: pending commits and the client's tick.
use kalandra.Prelude.{
  ℕ, ◌≡◌, refl, sym, ap, ◌∙◌, ◌==◌, false, Bool-cases, inl, inr, Option, some, [], ◌∷◌, HashMap,
  get,
}
use kalandra.Mls.Member.{OpenMls, clear_pending_commit, is_commit_timeout}
use kalandra.Client.{ClientLibraries, ClientGroups, RoomState, Client, commit_timeout}
use kalandra.Client.Groups.{member_groups}
use kalandra.Client.Membership.{tick_room, tick_rooms, handle_tick}

-- A group that gave its pending commit up waits for none.
abbrev pub IsClearing : ClientGroups → Type 0
IsClearing G =
    (g : G.Group) (now timeout : ℕ)
    → G.is_commit_timeout (G.clear_pending_commit g) now timeout ≡ false

module _ (C : ClientLibraries) where
  open C use {groups}

  tick_room-settles :
      (id now : ℕ) (room : RoomState C)
      → IsClearing groups
      → groups.is_commit_timeout (tick_room C id now room).1.mls_group now commit_timeout ≡ false
  tick_room-settles id now room clears =
      elim (Bool-cases (groups.is_commit_timeout room.mls_group now commit_timeout)) [
        | inl late ↦ rw (tick_room, late) (clears room.mls_group now commit_timeout)
        | inr waiting ↦ rw (tick_room, waiting) waiting
      ]

  tick_rooms-settles :
      (now id : ℕ) (rooms : HashMap (RoomState C)) (room : RoomState C)
      → IsClearing groups
      → get (tick_rooms C now rooms).1 id ≡ some room
      → groups.is_commit_timeout room.mls_group now commit_timeout ≡ false
  unfolding tick_rooms get
  tick_rooms-settles now id [] room clears e = cc
  tick_rooms-settles now id ((j, first) ∷ rooms) room clears e = elim (Bool-cases (j == id)) [
    | inr other ↦ tick_rooms-settles now id rooms room clears (rw other at e)
    | inl hit ↦
        let same : ◌≡◌ {A = Option (RoomState C)} (some (tick_room C j now first).1) (some room) =
          rw hit at e in
        let found : (tick_room C j now first).1 ≡ room = cc in
        ap (λ (r : RoomState C). groups.is_commit_timeout r.mls_group now commit_timeout)
          (sym found)
        ∙ tick_room-settles j now first clears
  ]

  -- After a tick, no room waits for a commit that has timed out by then, if a group that gives its
  -- pending commit up waits for none.
  pub handle_tick-settles :
      (now id : ℕ) (c : Client C) (room : RoomState C)
      → IsClearing groups
      → get (handle_tick C now c).1.rooms id ≡ some room
      → groups.is_commit_timeout room.mls_group now commit_timeout ≡ false
  unfolding handle_tick
  handle_tick-settles now id c room clears found =
      tick_rooms-settles now id c.rooms room clears found

-- The groups of OpenMLS do.
pub member_groups-IsClearing : (M : OpenMls) → IsClearing (member_groups M)
unfolding member_groups is_commit_timeout clear_pending_commit
member_groups-IsClearing M g now timeout = refl
