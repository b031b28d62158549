-- ===== src/Registry/Subscriptions.antt =====
-- crates/lockframe-server/src/registry.rs: the steps on one of the two maps of sets.
use kalandra.Prelude.{
  ℕ, Bool, true, false, ◌&&◌, ◌≡◌, ◌≢◌, refl, if◌then◌else◌, some, [], ◌∷◌, is_some_and, ◌==◌,
  Bool-cases, Option-cases, inl, inr, arith, HashMap, get, contains_key, HashSet, contains, add,
  discard, get-insert, get-remove, contains-add, contains-discard, contains-nil,
}
use kalandra.Registry.{or_default, entry_add, take_out, drop_empty, leave_rooms}

-- Whether the set under a key has an element.
abbrev pub member : HashMap HashSet → ℕ → ℕ → Bool
member m key a = is_some_and (get m key) (λ s. contains s a)

pub member-or_default :
    (m : HashMap HashSet) (key a : ℕ) → contains (or_default (get m key)) a ≡ member m key a
member-or_default m key a = elim (Option-cases (get m key)) [
  | inl e ↦ rw e (contains-nil a)
  | inr (s, e) ↦ rw e refl
]

-- Keys and elements, compared.
abbrev pub at : ℕ → ℕ → ℕ → ℕ → Bool
at key a key' a' = (key == key') && (a == a')

pub member-entry_add :
    (m : HashMap HashSet) (key a key' a' : ℕ)
    → member (entry_add m key a) key' a' ≡ (if at key a key' a' then true else member m key' a')
unfolding entry_add
member-entry_add m key a key' a' = ground (
  arith,
  get-insert m key (add (or_default (get m key)) a) key',
  contains-add (or_default (get m key)) a a',
  member-or_default m key a',
)

pub member-take_out :
    (m : HashMap HashSet) (key a key' a' : ℕ)
    → member (take_out m key a).1 key' a' ≡ (if at key a key' a' then false else member m key' a')
unfolding take_out
member-take_out m key a key' a' = elim (Option-cases (get m key)) [
  | inl e ↦ rw e (ground (arith, e))
  | inr (s, e) ↦
      rw e (ground (arith, e, get-insert m key (discard s a) key', contains-discard s a a'))
]

pub take_out-answer : (m : HashMap HashSet) (key a : ℕ) → (take_out m key a).0 ≡ member m key a
unfolding take_out
take_out-answer m key a = elim (Option-cases (get m key)) [
  | inl e ↦ rw e refl
  | inr (s, e) ↦ rw e refl
]

pub member-drop_empty :
    (m : HashMap HashSet) (key key' a' : ℕ) → member (drop_empty m key) key' a' ≡ member m key' a'
unfolding drop_empty
member-drop_empty m key key' a' = elim (Option-cases (get m key)) [
  | inl e ↦ rw e refl
  | inr ([], e) ↦ rw e (ground (arith, e, get-remove m key key', contains-nil a'))
  | inr (x ∷ s, e) ↦ rw e refl
]

pub member-leave_rooms :
    (rooms : HashSet) (session : ℕ) (m : HashMap HashSet) (room session' : ℕ)
    → member (leave_rooms rooms session m) room session'
      ≡ (if contains rooms room && (session == session') then false else member m room session')
unfolding leave_rooms contains
member-leave_rooms [] session m room session' = refl
member-leave_rooms (r ∷ rooms) session m room session' =
    let left : HashMap HashSet = (take_out m r session).1 in
    ground (
      arith,
      member-leave_rooms rooms session (drop_empty left r) room session',
      member-drop_empty left r room session',
      member-take_out m r session room session',
    )

-- No key has an empty set.
abbrev pub HasNoEmpty : HashMap HashSet → Type 0
HasNoEmpty m = (key : ℕ) → get m key ≢ some []

add-nonempty : (s : HashSet) (a : ℕ) → add s a ≢ []
unfolding add contains
add-nonempty [] a e = cc
add-nonempty (x ∷ s) a e = elim (Bool-cases (contains (x ∷ s) a)) [
  | inl hit ↦ ground (arith)
  | inr miss ↦ ground (arith)
]

pub entry_add-HasNoEmpty :
    (m : HashMap HashSet) (key a : ℕ) → HasNoEmpty m → HasNoEmpty (entry_add m key a)
unfolding entry_add
entry_add-HasNoEmpty m key a h key' e = ground (
  arith,
  e,
  h key',
  get-insert m key (add (or_default (get m key)) a) key',
  add-nonempty (or_default (get m key)) a,
)

-- Only the key that was touched can have an empty set.
drop_empty-elsewhere :
    (m : HashMap HashSet) (key : ℕ)
    → ((key' : ℕ) → key ≢ key' → get m key' ≢ some [])
    → HasNoEmpty (drop_empty m key)
unfolding drop_empty
drop_empty-elsewhere m key h key' e = elim (Option-cases (get m key)) [
  | inl none_here ↦ ground (arith, h key', none_here, e)
  | inr ([], here) ↦ ground (arith, h key', here, e, get-remove m key key')
  | inr (x ∷ s, here) ↦ ground (arith, h key', here, e)
]

pub drop_empty-HasNoEmpty :
    (m : HashMap HashSet) (key a : ℕ)
    → HasNoEmpty m
    → HasNoEmpty (drop_empty (take_out m key a).1 key)
unfolding take_out
drop_empty-HasNoEmpty m key a h = drop_empty-elsewhere (take_out m key a).1 key (λ key' ne e.
    elim (Option-cases (get m key)) [
      | inl none_here ↦ ground (arith, h key', none_here, e)
      | inr (s, here) ↦ ground (arith, h key', here, e, ne, get-insert m key (discard s a) key')
    ])

pub leave_rooms-HasNoEmpty :
    (rooms : HashSet) (session : ℕ) (m : HashMap HashSet)
    → HasNoEmpty m
    → HasNoEmpty (leave_rooms rooms session m)
unfolding leave_rooms
leave_rooms-HasNoEmpty [] session m h = h
leave_rooms-HasNoEmpty (r ∷ rooms) session m h =
    leave_rooms-HasNoEmpty rooms session (drop_empty (take_out m r session).1 r)
      (drop_empty-HasNoEmpty m r session h)

-- Which keys there are.
pub contains_key-entry_add :
    (m : HashMap HashSet) (key a key' : ℕ)
    → contains_key m key ≡ true
    → contains_key (entry_add m key a) key' ≡ contains_key m key'
unfolding entry_add contains_key
contains_key-entry_add m key a key' h =
    ground (arith, get-insert m key (add (or_default (get m key)) a) key')

pub contains_key-take_out :
    (m : HashMap HashSet) (key a key' : ℕ)
    → contains_key (take_out m key a).1 key' ≡ contains_key m key'
unfolding take_out contains_key
contains_key-take_out m key a key' = elim (Option-cases (get m key)) [
  | inl e ↦ rw e refl
  | inr (s, e) ↦ rw e (ground (arith, e, get-insert m key (discard s a) key'))
]
