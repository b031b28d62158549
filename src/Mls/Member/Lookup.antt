-- ===== src/Mls/Member/Lookup.antt =====
-- crates/lockframe-core/src/mls/group.rs: the leaves and the members of a group.
use kalandra.Prelude.{
  ℕ, ◌≡◌, ◌≢◌, refl, sym, ap, ◌∙◌, true, Bool-cases, Option-cases, Result-cases, inl, inr, Option,
  some, List, [], ◌∷◌, All, contains, map, Result, ok, is_some_and, arith,
}
use kalandra.Mls.Group.{MlsError}
use kalandra.Mls.Member.{LeafMember, OpenMls, MlsGroup, export_members, export_validation_state}
use kalandra.Mls.State.{is_member}
use kalandra.Mls.Member.Commits.{
  is_leaf_of, find_leaf, find_leaves, find_owner, member_id_by_leaf_index,
  member_ids_to_leaf_indices,
}

-- The leaves of a tree have different indices.
abbrev pub IsTree : List LeafMember → Type 0
IsTree [] = Unit
IsTree (m ∷ leaves) = All (λ (other : LeafMember). other.index ≢ m.index) leaves × IsTree leaves

find_leaf-among :
    (target index : ℕ) (other : LeafMember) (leaves : List LeafMember)
    → All (λ (m : LeafMember). m.index ≢ other.index) leaves
    → find_leaf target leaves ≡ some index
    → index ≢ other.index
unfolding find_leaf
find_leaf-among target index other [] h e = cc
find_leaf-among target index other (m ∷ leaves) (here, later) e =
    elim (Bool-cases (is_leaf_of target m)) [
      | inr miss ↦ find_leaf-among target index other leaves later (rw miss at e)
      | inl hit ↦
          let found : ◌≡◌ {A = Option ℕ} (some m.index) (some index) = rw hit at e in
          let at_it : m.index ≡ index = cc in λ same. here (at_it ∙ same)
    ]

find_owner-find_leaf :
    (target index : ℕ) (leaves : List LeafMember)
    → IsTree leaves
    → find_leaf target leaves ≡ some index
    → find_owner index leaves ≡ some target
unfolding find_leaf find_owner
find_owner-find_leaf target index [] tree e = cc
find_owner-find_leaf target index (m ∷ leaves) (here, tree) e =
    elim (Bool-cases (is_leaf_of target m)) [
      | inr miss ↦
          let later : find_leaf target leaves ≡ some index = rw miss at e in
          let other : index ≢ m.index = find_leaf-among target index m leaves here later in
          let owned = find_owner-find_leaf target index leaves tree later in ground arith
      | inl hit ↦
          let found : ◌≡◌ {A = Option ℕ} (some m.index) (some index) = rw hit at e in
          let at_it : m.index ≡ index = cc in ground arith
    ]

-- The members that are exported are those that have a leaf.
contains-export_members :
    (leaves : List LeafMember) (id : ℕ)
    → contains (export_members leaves) id ≡ is_some_and (find_leaf id leaves) (λ _. true)
unfolding contains export_members find_leaf
contains-export_members [] id = refl
contains-export_members (m ∷ leaves) id = ground (arith, contains-export_members leaves id)

find_leaves-owned :
    (targets indices : List ℕ) (leaves : List LeafMember)
    → IsTree leaves
    → find_leaves targets leaves ≡ ok indices
    → map (λ (i : ℕ). find_owner i leaves) indices ≡ map some targets
unfolding find_leaves
find_leaves-owned [] indices leaves tree e =
    let empty : [] ≡ indices = cc in ap (map (λ (i : ℕ). find_owner i leaves)) (sym empty)
find_leaves-owned (t ∷ targets) indices leaves tree e = elim (Option-cases (find_leaf t leaves)) [
  | inl absent ↦ cc (rw (find_leaves, absent) at e)
  | inr (i, found) ↦ elim (Result-cases (find_leaves targets leaves)) [
    | inr (x, failed) ↦ cc (rw (find_leaves, found, failed) at e)
    | inl (rest, all) ↦
        let made : ◌≡◌ {A = Result MlsError (List ℕ)} (ok (i ∷ rest)) (ok indices) =
          rw (find_leaves, found, all) at e in
        let same : i ∷ rest ≡ indices = cc in
        ap (map (λ (j : ℕ). find_owner j leaves)) (sym same)
        ∙ cc (
          find_owner-find_leaf t i leaves tree found,
          find_leaves-owned targets rest leaves tree all,
        )
  ]
]

module _ (M : OpenMls) where
  -- If the leaves of the group have different indices, then the leaves that are looked up for
  -- members, which `remove_members` removes, are in turn owned by those members.
  pub member_id_by_leaf_index-member_ids_to_leaf_indices :
      (g : MlsGroup M) (member_ids indices : List ℕ)
      → IsTree (M.members g.mls_group)
      → member_ids_to_leaf_indices M g member_ids ≡ ok indices
      → map (member_id_by_leaf_index M g) indices ≡ map some member_ids
  unfolding member_id_by_leaf_index member_ids_to_leaf_indices
  member_id_by_leaf_index-member_ids_to_leaf_indices g member_ids indices tree e =
      find_leaves-owned member_ids indices (M.members g.mls_group) tree e

  -- A frame is checked against the members that have a leaf in the group: those for which the
  -- leaf is found.
  pub export_validation_state-is_member :
      (g : MlsGroup M) (id : ℕ)
      → is_member (export_validation_state M g) id
        ≡ is_some_and (find_leaf id (M.members g.mls_group)) (λ _. true)
  unfolding export_validation_state is_member
  export_validation_state-is_member g id = contains-export_members (M.members g.mls_group) id
