-- ===== src/Group/Refinement.antt =====
-- The calls of `GroupInfo` implement the specification of the roles.
use aim_to_v.Base.{ℕ, ◌≡◌, refl, ◌∙◌, none, some, List, [], ◌∷◌, Option-cases, inl, inr, arith}
use aim_to_v.Base.Map.{Map, find, contains, insert, erase, find-insert, find-erase}
use aim_to_v.Wire.Bytes.{Bytes}
use aim_to_v.Wire.MsgInfo.{MsgInfo}
use aim_to_v.Group.{
  GroupInfo, on_add_member, on_delete_member, on_add_manager, on_delete_manager,
  on_change_permissions, on_add_msg, on_delete_msg, clear_msg, push_msg, append_manager,
  append_member, remove_manager, remove_member, promote, demote, grant,
}
use aim_to_v.Group.Calls.{
  Call, add_member, delete_member, add_manager, delete_manager, change_permissions, add_msg,
  delete_msg, clear, set_group_guid, set_learder_guid, apply, run,
}
use aim_to_v.Group.Spec.{Roles, Refines, Simulates, step, steps, with, without}

same-Refines :
    (g g' : GroupInfo) (r : Roles)
    → g'.learder_guid ≡ g.learder_guid
    → g'.managers_map ≡ g.managers_map
    → g'.members_map ≡ g.members_map
    → Refines g r
    → Refines g' r
same-Refines g g' r a b c f = record {
  leader = a ∙ f.leader;
  managers = λ k. rw b (f.managers k);
  normals = λ k. rw c (f.normals k);
}

contains-insert :
    {V : Type 0} (k guid : ℕ) (v : V) (m : Map V)
    → contains k (insert guid v m) ≡ with guid (λ i. contains i m) k
unfolding contains
contains-insert k guid v m = ground (arith, find-insert k guid v m)

contains-erase :
    {V : Type 0} (k guid : ℕ) (m : Map V)
    → contains k (erase guid m) ≡ without guid (λ i. contains i m) k
unfolding contains
contains-erase k guid m = ground (arith, find-erase k guid m)

module _ (g : GroupInfo) (r : Roles) (f : Refines g r) where
  add-Simulates :
      (operator user icon : ℕ) (name : Bytes)
      → Simulates (add_member operator user icon (some name)) g r
  unfolding apply on_add_member append_manager append_member
  add-Simulates operator user icon name =
      let a = f.managers operator in
      let b = f.normals user in
      (
        record {
          leader = ground (arith, f.leader, a, b);
          managers = λ k. ground (
            arith,
            f.leader,
            a,
            b,
            f.managers k,
            contains-insert k user g.next_node g.managers_map,
          );
          normals = λ k. ground (
            arith,
            f.leader,
            a,
            b,
            f.normals k,
            contains-insert k user g.next_node g.members_map,
          );
        },
        λ answer h. ground (arith, f.leader, a, b),
      )

  delete-Simulates : (operator user : ℕ) → Simulates (delete_member operator user) g r
  unfolding apply on_delete_member remove_manager remove_member contains
  delete-Simulates operator user =
      let a = f.managers operator in
      let b = f.managers user in
      let c = f.normals user in
      (
        record {
          leader = ground (arith, f.leader, a, b, c);
          managers = λ k.
              ground (arith, f.leader, a, b, c, f.managers k, contains-erase k user g.managers_map);
          normals = λ k.
              ground (arith, f.leader, a, b, c, f.normals k, contains-erase k user g.members_map);
        },
        λ answer h. ground (arith, f.leader, a, b, c),
      )

  promote-Simulates : (operator user : ℕ) → Simulates (add_manager operator user) g r
  unfolding apply on_add_manager promote contains
  promote-Simulates operator user =
      let b = f.managers user in
      let c = f.normals user in
      (
        record {
          leader = ground (arith, f.leader, b, c);
          managers = λ k. elim (Option-cases (find user g.members_map)) [
            | inl e ↦ ground (arith, f.leader, b, c, f.managers k)
            | inr (node, e) ↦
                ground
                  (arith, f.leader, b, c, f.managers k, contains-insert k user node g.managers_map)
          ];
          normals =
              λ k. ground (arith, f.leader, b, c, f.normals k, contains-erase k user g.members_map);
        },
        λ answer h. ground (arith, f.leader, b, c),
      )

  demote-Simulates : (operator user : ℕ) → Simulates (delete_manager operator user) g r
  unfolding apply on_delete_manager demote contains
  demote-Simulates operator user =
      let b = f.managers user in
      let c = f.normals user in
      (
        record {
          leader = ground (arith, f.leader, b, c);
          managers = λ k.
              ground (arith, f.leader, b, c, f.managers k, contains-erase k user g.managers_map);
          normals = λ k. elim (Option-cases (find user g.managers_map)) [
            | inl e ↦ ground (arith, f.leader, b, c, f.normals k)
            | inr (node, e) ↦
                ground
                  (arith, f.leader, b, c, f.normals k, contains-insert k user node g.members_map)
          ];
        },
        λ answer h. ground (arith, f.leader, b, c),
      )

  -- The calls that touch neither map.
  message-Simulates : (operator num : ℕ) → Simulates (delete_msg operator num) g r
  unfolding apply on_delete_msg
  message-Simulates operator num =
      let a = f.managers operator in
      (
        same-Refines g _ (step (delete_msg operator num) r) (ground arith) (ground arith)
            (ground arith) (ground (arith, f)),
        λ answer h. ground (arith, a),
      )

  clear-Simulates : (operator : ℕ) → Simulates (clear operator) g r
  unfolding apply clear_msg
  clear-Simulates operator =
      let a = f.managers operator in
      (
        same-Refines g _ (step (clear operator) r) (ground arith) (ground arith) (ground arith)
            (ground (arith, f)),
        λ answer h. ground (arith, a),
      )

  post-Simulates : (msg : MsgInfo) → Simulates (add_msg msg) g r
  unfolding apply on_add_msg push_msg
  post-Simulates msg =
      (same-Refines g _ r (ground arith) (ground arith) (ground arith) f, λ answer h. ground arith)

  permissions-Simulates : (operator user p : ℕ) → Simulates (change_permissions operator user p) g r
  unfolding apply on_change_permissions grant
  permissions-Simulates operator user p =
      (same-Refines g _ r (ground arith) (ground arith) (ground arith) f, λ answer h. ground arith)

  -- A group whose leader and two maps are those of a set of roles (a leader, the managers, the
  -- normal members, with no list and no nodes) has after any call the roles that the
  -- specification's step gives, and where the roles alone decide the answer the call gives that
  -- answer.
  pub apply-Simulates : (c : Call) → Simulates c g r
  unfolding apply on_add_member
  apply-Simulates (add_member operator user icon none) = (f, λ answer h. ground arith)
  apply-Simulates (add_member operator user icon (some name)) =
      add-Simulates operator user icon name
  apply-Simulates (delete_member operator user) = delete-Simulates operator user
  apply-Simulates (add_manager operator user) = promote-Simulates operator user
  apply-Simulates (delete_manager operator user) = demote-Simulates operator user
  apply-Simulates (change_permissions operator user p) = permissions-Simulates operator user p
  apply-Simulates (add_msg msg) = post-Simulates msg
  apply-Simulates (delete_msg operator num) = message-Simulates operator num
  apply-Simulates (clear operator) = clear-Simulates operator
  apply-Simulates (set_group_guid guid) =
      (same-Refines g _ r refl refl refl f, λ answer h. ground arith)
  apply-Simulates (set_learder_guid guid) = (
    record { leader = refl; managers = f.managers; normals = f.normals },
    λ answer h. ground arith,
  )

-- So any sequence of calls on a group is a sequence of steps on its roles.
pub run-Refines :
    (cs : List Call) (g : GroupInfo) (r : Roles) → Refines g r → Refines (run cs g) (steps cs r)
unfolding run
run-Refines [] g r f = f
run-Refines (c ∷ cs) g r f = run-Refines cs (apply c g).0 (step c r) (apply-Simulates g r f c).0
