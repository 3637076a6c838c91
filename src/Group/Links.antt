-- ===== src/Group/Links.antt =====
-- The index maps of a group against its list of members.
use aim_to_v.Base.{
  ℕ, ◌+◌, ◌%◌, ◌^◌, ◌≡◌, refl, Bool, true, false, ◌||◌, ◌==◌, if◌then◌else◌, Option, none, some,
  List, [], ◌∷◌, ◌++◌, length, length-append, arith,
}
use aim_to_v.Base.Map.{
  find, erase, update, find-insert, find-erase, find-update, find-append, Rising, find_above,
  append-Rising, erase-Rising, update-Rising, length-erase, length-update,
}
use aim_to_v.Wire.Bytes.{Bytes}
use aim_to_v.Wire.Member.{Member, group_job_leader, group_job_manager}
use aim_to_v.Group.{
  GroupInfo, append_manager, append_member, remove_manager, remove_member, promote, demote, grant,
  set_job, set_permissions, new_member, on_add_member, on_delete_member, on_add_manager,
  on_delete_manager, on_change_permissions,
}

-- `job == GROUP_JOB_LEADER || job == GROUP_JOB_MANAGER`
abbrev pub is_manager : ℕ → Bool
is_manager job = job == group_job_leader || job == group_job_manager

-- Whose node this is, and whether as a manager.
unfoldable pub role_of : ℕ → List (ℕ × Member) → Option (ℕ × Bool)
role_of node nodes = elim (find node nodes) [
  | none ↦ none
  | some m ↦ some (m.user_guid, is_manager m.job)
]

-- Every entry of the two maps leads to a node that is in the list and belongs to the entry's key,
-- one of a leader or manager from `managers_map` and one of another job from `members_map`; no two
-- nodes have one number; and the count is the list's length.
pub record IsLinked (g : GroupInfo) : Type 0 where
  pub rising : Rising 0 g.next_node g.members_list
  pub counted : g.member_count ≡ length g.members_list % 2 ^ 32
  pub managers :
      (guid node : ℕ)
      → find guid g.managers_map ≡ some node
      → role_of node g.members_list ≡ some (guid, true)
  pub members :
      (guid node : ℕ)
      → find guid g.members_map ≡ some node
      → role_of node g.members_list ≡ some (guid, false)

role_of-append :
    (n hi : ℕ) (v : Member) (ms : List (ℕ × Member))
    → Rising 0 hi ms
    → role_of n (ms ++ (hi, v) ∷ [])
      ≡ (if n == hi then some (v.user_guid, is_manager v.job) else role_of n ms)
unfolding role_of
role_of-append n hi v ms r = ground (arith, find-append n 0 hi v ms r)

role_of-erase :
    (n k : ℕ) (ms : List (ℕ × Member))
    → role_of n (erase k ms) ≡ (if n == k then none else role_of n ms)
unfolding role_of
role_of-erase n k ms = ground (arith, find-erase n k ms)

role_of-set_job :
    (n k job : ℕ) (ms : List (ℕ × Member)) {guid : ℕ} {b : Bool}
    → role_of k ms ≡ some (guid, b)
    → role_of n (update k (set_job job) ms)
      ≡ (if n == k then some (guid, is_manager job) else role_of n ms)
unfolding role_of
role_of-set_job n k job ms h = ground (arith, find-update n k (set_job job) ms)

role_of-set_permissions :
    (n k p : ℕ) (ms : List (ℕ × Member))
    → role_of n (update k (set_permissions p) ms) ≡ role_of n ms
unfolding role_of
role_of-set_permissions n k p ms = ground (arith, find-update n k (set_permissions p) ms)

length-erase_role :
    (hi k : ℕ) (ms : List (ℕ × Member)) {r : ℕ × Bool}
    → Rising 0 hi ms
    → role_of k ms ≡ some r
    → length (erase k ms) + 1 ≡ length ms
unfolding role_of
length-erase_role hi k ms r h = length-erase 0 hi k ms r (λ e. ground arith)

role_of_fresh : (hi : ℕ) (ms : List (ℕ × Member)) → Rising 0 hi ms → role_of hi ms ≡ none
unfolding role_of
role_of_fresh hi ms r = ground (arith, find_above hi 0 hi ms r)

pub append_manager-IsLinked :
    (info : Member) (g : GroupInfo)
    → is_manager info.job ≡ true
    → IsLinked g
    → IsLinked (append_manager info g)
unfolding append_manager
append_manager-IsLinked info g j l = record {
  rising = append-Rising 0 g.next_node info g.members_list l.rising;
  counted = omega (arith, l.counted, length-append g.members_list ((g.next_node, info) ∷ []));
  managers = λ k n h. ground (
    arith,
    role_of-append n g.next_node info g.members_list l.rising,
    role_of_fresh g.next_node g.members_list l.rising,
    find-insert k info.user_guid g.next_node g.managers_map,
    l.managers k n,
  );
  members = λ k n h. ground (
    arith,
    role_of-append n g.next_node info g.members_list l.rising,
    role_of_fresh g.next_node g.members_list l.rising,
    l.members k n h,
  );
}

pub append_member-IsLinked :
    (info : Member) (g : GroupInfo)
    → is_manager info.job ≡ false
    → IsLinked g
    → IsLinked (append_member info g)
unfolding append_member
append_member-IsLinked info g j l = record {
  rising = append-Rising 0 g.next_node info g.members_list l.rising;
  counted = omega (arith, l.counted, length-append g.members_list ((g.next_node, info) ∷ []));
  managers = λ k n h. ground (
    arith,
    role_of-append n g.next_node info g.members_list l.rising,
    role_of_fresh g.next_node g.members_list l.rising,
    l.managers k n h,
  );
  members = λ k n h. ground (
    arith,
    role_of-append n g.next_node info g.members_list l.rising,
    role_of_fresh g.next_node g.members_list l.rising,
    find-insert k info.user_guid g.next_node g.members_map,
    l.members k n,
  );
}

remove_manager-IsLinked :
    (user node : ℕ) (g : GroupInfo)
    → find user g.managers_map ≡ some node
    → IsLinked g
    → IsLinked (remove_manager user node g)
unfolding remove_manager
remove_manager-IsLinked user node g e l = record {
  rising = erase-Rising 0 g.next_node node g.members_list l.rising;
  counted = omega (
    arith,
    l.counted,
    length-erase_role g.next_node node g.members_list l.rising (l.managers user node e),
  );
  managers = λ k n h. ground (
    arith,
    role_of-erase n node g.members_list,
    find-erase k user g.managers_map,
    l.managers k n,
    l.managers user node e,
  );
  members = λ k n h.
      ground (arith, role_of-erase n node g.members_list, l.members k n h, l.managers user node e);
}

remove_member-IsLinked :
    (user node : ℕ) (g : GroupInfo)
    → find user g.members_map ≡ some node
    → IsLinked g
    → IsLinked (remove_member user node g)
unfolding remove_member
remove_member-IsLinked user node g e l = record {
  rising = erase-Rising 0 g.next_node node g.members_list l.rising;
  counted = omega (
    arith,
    l.counted,
    length-erase_role g.next_node node g.members_list l.rising (l.members user node e),
  );
  managers = λ k n h.
      ground (arith, role_of-erase n node g.members_list, l.managers k n h, l.members user node e);
  members = λ k n h. ground (
    arith,
    role_of-erase n node g.members_list,
    find-erase k user g.members_map,
    l.members k n,
    l.members user node e,
  );
}

promote-IsLinked :
    (user node : ℕ) (g : GroupInfo)
    → find user g.members_map ≡ some node
    → IsLinked g
    → IsLinked (promote user node g)
unfolding promote
promote-IsLinked user node g e l = record {
  rising = update-Rising 0 g.next_node node (set_job 1) g.members_list l.rising;
  counted = rw (length-update node (set_job 1) g.members_list) l.counted;
  managers = λ k n h. ground (
    arith,
    role_of-set_job n node 1 g.members_list (l.members user node e),
    find-insert k user node g.managers_map,
    l.managers k n,
    l.members user node e,
  );
  members = λ k n h. ground (
    arith,
    role_of-set_job n node 1 g.members_list (l.members user node e),
    find-erase k user g.members_map,
    l.members k n,
    l.members user node e,
  );
}

demote-IsLinked :
    (user node : ℕ) (g : GroupInfo)
    → find user g.managers_map ≡ some node
    → IsLinked g
    → IsLinked (demote user node g)
unfolding demote
demote-IsLinked user node g e l = record {
  rising = update-Rising 0 g.next_node node (set_job 2) g.members_list l.rising;
  counted = rw (length-update node (set_job 2) g.members_list) l.counted;
  managers = λ k n h. ground (
    arith,
    role_of-set_job n node 2 g.members_list (l.managers user node e),
    find-erase k user g.managers_map,
    l.managers k n,
    l.managers user node e,
  );
  members = λ k n h. ground (
    arith,
    role_of-set_job n node 2 g.members_list (l.managers user node e),
    find-insert k user node g.members_map,
    l.members k n,
    l.managers user node e,
  );
}

grant-IsLinked :
    (node permissions : ℕ) (g : GroupInfo) → IsLinked g → IsLinked (grant node permissions g)
unfolding grant
grant-IsLinked node p g l = record {
  rising = update-Rising 0 g.next_node node (set_permissions p) g.members_list l.rising;
  counted = rw (length-update node (set_permissions p) g.members_list) l.counted;
  managers = λ k n h. rw (role_of-set_permissions n node p g.members_list) (l.managers k n h);
  members = λ k n h. rw (role_of-set_permissions n node p g.members_list) (l.members k n h);
}

pub on_add_member-IsLinked :
    (operator user icon : ℕ) (name : Option Bytes) (g : GroupInfo)
    → IsLinked g
    → IsLinked (on_add_member operator user icon name g).0
unfolding on_add_member
on_add_member-IsLinked operator user icon none g l = l
on_add_member-IsLinked operator user icon (some name) g l = ground (
  arith,
  append_manager-IsLinked (new_member g.group_guid user icon name 0) g refl l,
  append_member-IsLinked (new_member g.group_guid user icon name 2) g refl l,
)

pub on_delete_member-IsLinked :
    (operator user : ℕ) (g : GroupInfo) → IsLinked g → IsLinked (on_delete_member operator user g).0
unfolding on_delete_member
on_delete_member-IsLinked operator user g l =
    grind (arith, remove_manager-IsLinked, remove_member-IsLinked)

pub on_add_manager-IsLinked :
    (operator user : ℕ) (g : GroupInfo) → IsLinked g → IsLinked (on_add_manager operator user g).0
unfolding on_add_manager
on_add_manager-IsLinked operator user g l = grind (arith, promote-IsLinked)

pub on_delete_manager-IsLinked :
    (operator user : ℕ) (g : GroupInfo)
    → IsLinked g
    → IsLinked (on_delete_manager operator user g).0
unfolding on_delete_manager
on_delete_manager-IsLinked operator user g l = grind (arith, demote-IsLinked)

pub on_change_permissions-IsLinked :
    (operator user permissions : ℕ) (g : GroupInfo)
    → IsLinked g
    → IsLinked (on_change_permissions operator user permissions g).0
unfolding on_change_permissions
on_change_permissions-IsLinked operator user permissions g l = grind (arith, grant-IsLinked)
