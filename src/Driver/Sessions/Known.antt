-- ===== src/Driver/Sessions/Known.antt =====
-- crates/lockframe-server/src/driver.rs and registry.rs: which sessions are known after an operation.
use kalandra.Prelude.{
  ℕ, suc, ◌≡◌, refl, sym, ap, ◌∙◌, ◌==◌, ==_iff, if◌then◌else◌, true, false, Bool-cases,
  Option-cases, inl, inr, [], ◌∷◌, HashMap, get, contains_key, entry_count, contains_key-insert,
  contains_key-remove, contains_key-reinsert, arith,
}
use kalandra.Connection.{Connection}
use kalandra.Registry.{
  ConnectionRegistry, SessionInfo, has_session, register_session, unregister_session, is_subscribed,
  subscribe,
}
use kalandra.Registry.Consistency.{IsConsistent}
use kalandra.Driver.Events.{set_user, tick_all}

-- A tick changes no key.
pub contains_key-tick_all :
    (now : ℕ) (m : HashMap Connection) (j : ℕ)
    → contains_key (tick_all now m).1 j ≡ contains_key m j
unfolding contains_key get tick_all
contains_key-tick_all now [] j = refl
contains_key-tick_all now ((i, c) ∷ m) j = ground (arith, contains_key-tick_all now m j)

pub entry_count-tick_all :
    (now : ℕ) (m : HashMap Connection) → entry_count (tick_all now m).1 ≡ entry_count m
unfolding entry_count tick_all
entry_count-tick_all now [] = refl
entry_count-tick_all now ((i, c) ∷ m) = ap suc (entry_count-tick_all now m)

pub register-has_session :
    (g : ConnectionRegistry) (id : ℕ) (info : SessionInfo) (j : ℕ)
    → has_session (register_session g id info).1 j ≡ (if id == j then true else has_session g j)
unfolding has_session register_session
register-has_session g id info j = elim (Bool-cases (contains_key g.sessions id)) [
  | inl known ↦ rw known (elim (Bool-cases (id == j)) [
    | inl same ↦ rw (same, sym ((==_iff id j).0 same)) known
    | inr other ↦ rw other refl
  ])
  | inr fresh ↦ rw fresh (contains_key-insert g.sessions id info j)
]

pub unregister-has_session :
    (g : ConnectionRegistry) (id j : ℕ)
    → has_session (unregister_session g id).1 j ≡ (if id == j then false else has_session g j)
unfolding has_session unregister_session contains_key
unregister-has_session g id j = elim (Option-cases (get g.sessions id)) [
  | inl unknown ↦ rw unknown (elim (Bool-cases (id == j)) [
    | inl same ↦ rw (same, sym ((==_iff id j).0 same), unknown) refl
    | inr other ↦ rw other refl
  ])
  | inr (known, found) ↦ rw found (contains_key-remove g.sessions id j)
]

pub set_user-has_session :
    (g : ConnectionRegistry) (id : ℕ) (conn : Connection) (j : ℕ)
    → has_session (set_user id conn g) j ≡ has_session g j
unfolding has_session set_user
set_user-has_session g id conn j = elim (Option-cases (get g.sessions id)) [
  | inl unknown ↦ rw unknown refl
  | inr (known, found) ↦ rw found (contains_key-reinsert g.sessions id _ known j found)
]

pub set_user-IsConsistent :
    (g : ConnectionRegistry) (id : ℕ) (conn : Connection)
    → IsConsistent g
    → IsConsistent (set_user id conn g)
unfolding set_user has_session is_subscribed
set_user-IsConsistent g id conn v = elim (Option-cases (get g.sessions id)) [
  | inl unknown ↦ rw unknown v
  | inr (known, found) ↦ rw found (record {
    mirrored = v.mirrored;
    tracked = λ j. v.tracked j ∙ sym (contains_key-reinsert g.sessions id _ known j found);
    no_empty = v.no_empty;
  })
]

pub subscribe-has_session :
    (g : ConnectionRegistry) (id room j : ℕ)
    → has_session (subscribe g id room).1 j ≡ has_session g j
unfolding has_session subscribe
subscribe-has_session g id room j = elim (Bool-cases (contains_key g.sessions id)) [
  | inl known ↦ rw known refl
  | inr unknown ↦ rw unknown refl
]
