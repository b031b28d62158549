-- ===== src/Client/Groups.antt =====
-- crates/lockframe-core/src/mls/group.rs: `MlsGroup` as the groups that the client uses.
use kalandra.Prelude.{ℕ, List, [], ◌∷◌}
use kalandra.Mls.Member.{
  OpenMls, MlsGroup, epoch, own_leaf_index, member_leaf_indices, export_secret, export_state,
  export_validation_state, is_commit_timeout, clear_pending_commit,
}
use kalandra.Mls.Member.Commits.{
  new, generate_key_package, join_from_welcome, member_id_by_leaf_index, process_message,
  add_members_from_bytes,
}
use kalandra.Client.{ClientGroups}

-- "lockframe sender keys v1"
abbrev client_label : List ℕ
client_label =
    108 ∷ 111 ∷ 99 ∷ 107 ∷ 102 ∷ 114 ∷ 97 ∷ 109 ∷ 101 ∷ 32 ∷ 115 ∷ 101 ∷ 110 ∷ 100 ∷ 101 ∷ 114 ∷ 32
    ∷ 107 ∷ 101 ∷ 121 ∷ 115 ∷ 32 ∷ 118 ∷ 49 ∷ []

-- The label, the empty context and the size of the client's secret are those of client.rs.
unfoldable pub member_groups : OpenMls → ClientGroups
unfolding epoch own_leaf_index member_leaf_indices export_secret export_state
    export_validation_state is_commit_timeout clear_pending_commit new generate_key_package
    join_from_welcome member_id_by_leaf_index process_message add_members_from_bytes
member_groups M = record {
  Group = MlsGroup M;
  PendingJoinState = M.Signer;
  create = new M;
  generate_key_package = generate_key_package M;
  join_from_welcome = join_from_welcome M;
  epoch = epoch M;
  own_leaf_index = own_leaf_index M;
  member_leaf_indices = member_leaf_indices M;
  member_id_by_leaf_index = member_id_by_leaf_index M;
  export_secret = λ g. export_secret M g client_label [] 32;
  export_state = export_state M;
  export_validation_state = export_validation_state M;
  sign = λ g. M.sign g.signer;
  process_message = λ g frame. process_message M frame g;
  add_members_from_bytes = λ g key_packages now. add_members_from_bytes M key_packages now g;
  is_commit_timeout = is_commit_timeout M;
  clear_pending_commit = clear_pending_commit M;
}
