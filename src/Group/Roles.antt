-- ===== src/Group/Roles.antt =====
-- Who may do what in a group, and what it does.
use aim_to_v.Base.{
  ℕ, ◌+◌, ◌≡◌, ◌≢◌, ◌⊎◌, ◌↔◌, inl, inr, refl, true, false, ◌&&◌, Option, none, some, [], ◌∷◌, ◌++◌,
  length, length-append, arith, Option-cases,
}
use mathlib.Core.Option
use mathlib.Core.List.{foldl, foldl-append}
use aim_to_v.Base.Map.{Map, find, contains, insert, erase, find-insert, find-erase, find-update}
use aim_to_v.Wire.Bytes.{Bytes}
use aim_to_v.Wire.Member.{Member, group_job_member}
use aim_to_v.Group.{
  GroupInfo, new_member, get_member_by_guid, append_member, remove_manager, remove_member, promote,
  demote, grant, set_permissions, outranks, on_add_member, on_delete_member, on_add_manager,
  on_delete_manager, on_change_permissions, traverse, traverse_managers, traverse_normal_members,
  traverse_all_members,
}
use aim_to_v.Group.Links.{IsLinked}

-- A manager is removed by the leader alone, a member by any manager, and nobody else is.
pub on_delete_member_iff :
    (operator user : ℕ) (g : GroupInfo)
    → ((on_delete_member operator user g).1 ≡ true) ↔ (
        ((contains user g.managers_map ≡ true) × (operator ≡ g.learder_guid))
        ⊎ ((contains user g.managers_map ≡ false)
            × (contains operator g.managers_map ≡ true)
            × (contains user g.members_map ≡ true)))
unfolding on_delete_member contains
on_delete_member_iff operator user g = (λ h. ground arith, λ h. ground arith)

-- Where the user is not in both maps, a removal that succeeds leaves the user with no entry, and
-- everybody else's entry as it was.
pub on_delete_member_gone :
    (operator user other : ℕ) (g : GroupInfo)
    → contains user g.managers_map && contains user g.members_map ≡ false
    → (on_delete_member operator user g).1 ≡ true
    → let g' = (on_delete_member operator user g).0 in
      (get_member_by_guid user g' ≡ none)
      × (other ≢ user → get_member_by_guid other g' ≡ get_member_by_guid other g)
unfolding on_delete_member remove_manager remove_member get_member_by_guid contains
on_delete_member_gone operator user other g apart h = ground (
  arith,
  find-erase user user g.managers_map,
  find-erase user user g.members_map,
  find-erase other user g.managers_map,
  find-erase other user g.members_map,
)

contains-some : (k : ℕ) (m : Map ℕ) → contains k m ≡ true → (v : ℕ) × (find k m ≡ some v)
unfolding contains
contains-some k m h = elim (Option-cases (find k m)) [
  | inl e ↦ absurd (ground arith)
  | inr (v, e) ↦ (v, e)
]

contains-none : (k : ℕ) (m : Map ℕ) → contains k m ≡ false → find k m ≡ none
unfolding contains
contains-none k m h = ground arith

on_add_manager_taken :
    (user node : ℕ) (g : GroupInfo)
    → find user g.managers_map ≡ none
    → find user g.members_map ≡ some node
    → on_add_manager g.learder_guid user g ≡ (promote user node g, true)
unfolding on_add_manager contains
on_add_manager_taken user node g h k = ground arith

on_delete_manager_taken :
    (user node : ℕ) (g : GroupInfo)
    → find user g.managers_map ≡ some node
    → find user g.members_map ≡ none
    → on_delete_manager g.learder_guid user g ≡ (demote user node g, true)
unfolding on_delete_manager contains
on_delete_manager_taken user node g h k = ground arith

promote-demote :
    (user node : ℕ) (g : GroupInfo)
    → find user g.managers_map ≡ none
    → find user g.members_map ≡ some node
    → on_delete_manager g.learder_guid user (promote user node g)
      ≡ (demote user node (promote user node g), true)
unfolding promote
promote-demote user node g h k =
    on_delete_manager_taken user node (promote user node g)
      (unfold promote in ground (arith, find-insert user user node g.managers_map))
      (unfold promote in ground (arith, find-erase user user g.members_map))

-- The leader makes a normal member a manager and takes it back: both calls are accepted, in between
-- the user is a manager and no normal member, and in the end every lookup is as before.
pub add_then_delete_manager :
    (user : ℕ) (g : GroupInfo)
    → contains user g.managers_map ≡ false
    → contains user g.members_map ≡ true
    → let (g', added) = on_add_manager g.learder_guid user g in
      let (g'', deleted) = on_delete_manager g.learder_guid user g' in
      (added ≡ true)
      × (deleted ≡ true)
      × (contains user g'.managers_map ≡ true)
      × (contains user g'.members_map ≡ false)
      × ((j : ℕ) → find j g''.managers_map ≡ find j g.managers_map)
      × ((j : ℕ) → find j g''.members_map ≡ find j g.members_map)
add_then_delete_manager user g h k =
    let none_yet : find user g.managers_map ≡ none = contains-none user g.managers_map h in
    let (node, e) = contains-some user g.members_map k in
    rw (on_add_manager_taken user node g none_yet e, promote-demote user node g none_yet e)
      (
        refl,
        refl,
        unfold contains promote in ground (arith, find-insert user user node g.managers_map),
        unfold contains promote in ground (arith, find-erase user user g.members_map),
        λ j.
            unfold promote demote in
            ground (
              arith,
              find-erase j user (insert user node g.managers_map),
              find-insert j user node g.managers_map,
            ),
        λ j.
            unfold promote demote in
            ground (
              arith,
              find-insert j user node (erase user g.members_map),
              find-erase j user g.members_map,
            ),
      )

on_add_member_taken :
    (operator user icon : ℕ) (name : Bytes) (g : GroupInfo)
    → operator ≢ 0
    → contains operator g.managers_map ≡ true
    → contains user g.members_map ≡ false
    → on_add_member operator user icon (some name) g
      ≡ (append_member (new_member g.group_guid user icon name group_job_member) g, true)
unfolding on_add_member
on_add_member_taken operator user icon name g ne m1 m2 = ground arith

-- `on_add_member` looks for the user in `members_map` only: a manager may be added once more, as a
-- normal member, by any manager. The list grows by a node, the user is in both maps, and from then
-- on nobody, the leader included, can take the manager's job away.
pub on_add_member_twice :
    (operator user icon : ℕ) (name : Bytes) (g : GroupInfo)
    → operator ≢ 0
    → contains operator g.managers_map ≡ true
    → contains user g.managers_map ≡ true
    → contains user g.members_map ≡ false
    → let (g', added) = on_add_member operator user icon (some name) g in
      (added ≡ true)
      × (length g'.members_list ≡ length g.members_list + 1)
      × (contains user g'.managers_map ≡ true)
      × (contains user g'.members_map ≡ true)
      × ((anyone : ℕ) → on_delete_manager anyone user g' ≡ (g', false))
on_add_member_twice operator user icon name g ne m1 m2 m3 =
    rw (on_add_member_taken operator user icon name g ne m1 m3) (
      refl,
      unfold append_member in
          ground (
            arith,
            length-append g.members_list
                ((g.next_node, new_member g.group_guid user icon name group_job_member) ∷ []),
          ),
      unfold append_member in m2,
      unfold append_member contains in
          ground (arith, find-insert user user g.next_node g.members_map),
      λ anyone.
          unfold on_delete_manager append_member contains in
          ground (arith, find-insert user user g.next_node g.members_map),
    )

-- The node of a user as manager, else as normal member, and the record there.
abbrev pub node_of : ℕ → GroupInfo → Option ℕ
node_of guid g = elim (find guid g.managers_map) [
  | some node ↦ some node
  | none ↦ find guid g.members_map
]

abbrev pub record_of : ℕ → GroupInfo → Option Member
record_of guid g = elim (node_of guid g) [ none ↦ none | some node ↦ find node g.members_list ]

abbrev pub manager_record : ℕ → GroupInfo → Option Member
manager_record guid g = elim (find guid g.managers_map) [
  | none ↦ none
  | some node ↦ find node g.members_list
]

-- A manager sets a permission number that is not below the manager's own; on a manager only the
-- leader sets one. Nothing else is accepted.
pub on_change_permissions_iff :
    (operator user permissions : ℕ) (g : GroupInfo)
    → ((on_change_permissions operator user permissions g).1 ≡ true) ↔ (
        (contains operator g.managers_map ≡ true)
        × (outranks (manager_record operator g) permissions ≡ false)
        × (((contains user g.managers_map ≡ true) × (operator ≡ g.learder_guid))
            ⊎ ((contains user g.managers_map ≡ false) × (contains user g.members_map ≡ true))))
unfolding on_change_permissions contains
on_change_permissions_iff operator user permissions g = (λ h. ground arith, λ h. ground arith)

granted :
    (operator user permissions : ℕ) (g : GroupInfo)
    → (on_change_permissions operator user permissions g).1 ≡ true
    → (node : ℕ) × (node_of user g ≡ some node)
      × (on_change_permissions operator user permissions g ≡ (grant node permissions g, true))
unfolding on_change_permissions
granted operator user p g h = elim (Option-cases (find user g.managers_map)) [
  | inr (node, e) ↦ (node, ground arith, ground arith)
  | inl e ↦ elim (Option-cases (find user g.members_map)) [
    | inr (node, e') ↦ (node, ground arith, ground arith)
    | inl e' ↦ absurd (ground arith)
  ]
]

-- Two users of a linked group never share a node.
nodes_apart :
    (a b n : ℕ) (g : GroupInfo) → IsLinked g → node_of a g ≡ some n → node_of b g ≡ some n → a ≡ b
nodes_apart a b n g l h k =
    ground (arith, l.managers a n, l.members a n, l.managers b n, l.members b n)

grant_own :
    (user node p : ℕ) (g : GroupInfo)
    → node_of user g ≡ some node
    → record_of user (grant node p g) ≡ Option.map (set_permissions p) (record_of user g)
unfolding grant
grant_own user node p g e = ground (arith, find-update node node (set_permissions p) g.members_list)

grant_others :
    (user node other p : ℕ) (g : GroupInfo)
    → IsLinked g
    → node_of user g ≡ some node
    → other ≢ user
    → record_of other (grant node p g) ≡ record_of other g
unfolding grant
grant_others user node other p g l e ne = elim (Option-cases (node_of other g)) [
  | inl h ↦ ground arith
  | inr (n, h) ↦ ground (
    arith,
    find-update n node (set_permissions p) g.members_list,
    nodes_apart other user node g l,
  )
]

-- In a linked group an accepted change sets the permission number in the record of the user it
-- names, and leaves every other user's record as it is.
pub on_change_permissions_effect :
    (operator user permissions other : ℕ) (g : GroupInfo)
    → IsLinked g
    → (on_change_permissions operator user permissions g).1 ≡ true
    → let g' = (on_change_permissions operator user permissions g).0 in
      (record_of user g' ≡ Option.map (set_permissions permissions) (record_of user g))
      × (other ≢ user → record_of other g' ≡ record_of other g)
on_change_permissions_effect operator user p other g l h =
    let (node, e, done) = granted operator user p g h in
    rw done (grant_own user node p g e, grant_others user node other p g l e)

traverse-foldl :
    {S : Type 0} (visit : ℕ → S → S) (nodes : Map ℕ) (s : S)
    → traverse (some (λ node t. (visit node t, true))) nodes s
      ≡ foldl (λ t entry. visit entry.1 t) s nodes
unfolding traverse
traverse-foldl visit [] s = refl
traverse-foldl visit ((guid, node) ∷ nodes) s = traverse-foldl visit nodes (visit node s)

-- A callback that never asks to stop sees the managers in the order of their guids, then the normal
-- members in the order of theirs.
pub traverse_all_members_visits :
    {S : Type 0} (visit : ℕ → S → S) (g : GroupInfo) (s : S)
    → traverse_all_members (some (λ node t. (visit node t, true))) g s
      ≡ (foldl (λ t entry. visit entry.1 t) s (g.managers_map ++ g.members_map), true)
unfolding traverse_all_members traverse_managers traverse_normal_members
traverse_all_members_visits visit g s = rw (
  traverse-foldl visit g.managers_map s,
  traverse-foldl visit g.members_map,
  foldl-append (λ t (entry : ℕ × ℕ). visit entry.1 t) s g.managers_map g.members_map,
)
