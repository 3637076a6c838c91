-- ===== src/Group/Alive.antt =====
-- Groups whose two maps lead only to nodes that are there: on them every walk is defined.
use aim_to_v.Base.{
  ℕ, ◌≡◌, ◌≢◌, refl, Bool, true, Option, none, some, List, [], ◌∷◌, ◌++◌, Option-cases, Bool-cases,
  inl, inr, arith,
}
use aim_to_v.Base.Map.{Map, find, contains, insert}
use aim_to_v.Wire.Bytes.{Bytes}
use aim_to_v.Wire.Member.{Member, group_job_leader, group_job_member}
use aim_to_v.Group.{
  GroupInfo, traverse, traverse_all_members, traverse_managers, traverse_normal_members,
  append_manager, append_member, new_member, on_add_member,
}
use aim_to_v.Group.Walk.{if_defined, walk, is_alive, on_node, on_operator_node}

-- Every entry's node is in the list.
abbrev pub AllThere : List (ℕ × Member) → Map ℕ → Type 0
AllThere ms [] = Unit {0}
AllThere ms ((guid, node) ∷ nodes) = (contains node ms ≡ true) × AllThere ms nodes

pub record IsAlive (g : GroupInfo) : Type 0 where
  pub managers : AllThere g.members_list g.managers_map
  pub members : AllThere g.members_list g.members_map

module _ {S : Type 0} (f : ℕ → S → Option (S × Bool)) (ms : List (ℕ × Member))
    (works : (node : ℕ) (s : S) → contains node ms ≡ true → f node s ≢ none) where
  traverse_defined :
      (nodes : Map ℕ) (s : S)
      → AllThere ms nodes
      → (s' : S) × (traverse (some (if_defined f)) nodes (some s) ≡ some s')
  unfolding traverse if_defined
  traverse_defined [] s a = (s, refl)
  traverse_defined ((guid, node) ∷ nodes) s (here, a) = elim (Option-cases (f node s)) [
    | inl e ↦ absurd (works node s here e)
    | inr ((s1, more), e) ↦
        let rest = traverse_defined nodes s1 a in
        elim (Bool-cases more) [
          | inl m ↦ (rest.0, ground (arith, e, rest.1))
          | inr m ↦ (s1, ground (arith, e))
        ]
  ]

pub walk_defined :
    {S : Type 0} (f : ℕ → S → Option (S × Bool)) (g : GroupInfo) (s : S)
    → IsAlive g
    → ((node : ℕ) (s : S) → contains node g.members_list ≡ true → f node s ≢ none)
    → (s' : S) × (walk f g s ≡ some s')
unfolding walk traverse_all_members traverse_managers traverse_normal_members
walk_defined f g s a works =
    let first = traverse_defined f g.members_list works g.managers_map s a.managers in
    let second = traverse_defined f g.members_list works g.members_map first.0 a.members in
    (second.0, rw first.1 second.1)

find-AllThere :
    (ms : List (ℕ × Member)) (nodes : Map ℕ) (guid node : ℕ)
    → AllThere ms nodes
    → find guid nodes ≡ some node
    → contains node ms ≡ true
unfolding find
find-AllThere ms [] guid node a h = absurd (ground arith)
find-AllThere ms ((k, v) ∷ nodes) guid node (here, a) h =
    ground (arith, find-AllThere ms nodes guid node a)

pub on_node_defined :
    (guid : ℕ) (g : GroupInfo) (r : GroupInfo × Bool) → IsAlive g → on_node guid g r ≡ some r
unfolding on_node is_alive
on_node_defined guid g r a = elim (Option-cases (find guid g.managers_map)) [
  | inl e ↦ elim (Option-cases (find guid g.members_map)) [
    | inl e' ↦ ground arith
    | inr (node, e') ↦
        ground (arith, find-AllThere g.members_list g.members_map guid node a.members e')
  ]
  | inr (node, e) ↦
      ground (arith, find-AllThere g.members_list g.managers_map guid node a.managers e)
]

pub on_operator_node_defined :
    (guid : ℕ) (g : GroupInfo) (r : Option (GroupInfo × Bool))
    → IsAlive g
    → on_operator_node guid g r ≡ r
unfolding on_operator_node
on_operator_node_defined guid g r a = elim (Option-cases (find guid g.managers_map)) [
  | inl e ↦ ground arith
  | inr (node, e) ↦
      ground (arith, find-AllThere g.members_list g.managers_map guid node a.managers e)
]

-- A new member keeps the group so.
contains-append :
    (node next : ℕ) (m : Member) (ms : List (ℕ × Member))
    → contains node ms ≡ true
    → contains node (ms ++ (next, m) ∷ []) ≡ true
unfolding contains find
contains-append node next m [] h = absurd (ground arith)
contains-append node next m ((k, v) ∷ ms) h = ground (arith, contains-append node next m ms)

contains-append_last :
    (next : ℕ) (m : Member) (ms : List (ℕ × Member)) → contains next (ms ++ (next, m) ∷ []) ≡ true
unfolding contains find
contains-append_last next m [] = ground arith
contains-append_last next m ((k, v) ∷ ms) = ground (arith, contains-append_last next m ms)

append-AllThere :
    (next : ℕ) (m : Member) (ms : List (ℕ × Member)) (nodes : Map ℕ)
    → AllThere ms nodes
    → AllThere (ms ++ (next, m) ∷ []) nodes
append-AllThere next m ms [] a = tt
append-AllThere next m ms ((guid, node) ∷ nodes) (here, a) =
    (contains-append node next m ms here, append-AllThere next m ms nodes a)

insert-AllThere :
    (guid node : ℕ) (ms : List (ℕ × Member)) (nodes : Map ℕ)
    → contains node ms ≡ true
    → AllThere ms nodes
    → AllThere ms (insert guid node nodes)
unfolding insert
insert-AllThere guid node ms [] here a = (here, tt)
insert-AllThere guid node ms ((k, v) ∷ nodes) here (there, a) =
    ground (arith, here, there, a, insert-AllThere guid node ms nodes here a)

append_manager-IsAlive : (m : Member) (g : GroupInfo) → IsAlive g → IsAlive (append_manager m g)
unfolding append_manager
append_manager-IsAlive m g a =
    let ms = g.members_list ++ (g.next_node, m) ∷ [] in
    record {
      managers =
          insert-AllThere m.user_guid g.next_node ms g.managers_map
            (contains-append_last g.next_node m g.members_list)
            (append-AllThere g.next_node m g.members_list g.managers_map a.managers);
      members = append-AllThere g.next_node m g.members_list g.members_map a.members;
    }

append_member-IsAlive : (m : Member) (g : GroupInfo) → IsAlive g → IsAlive (append_member m g)
unfolding append_member
append_member-IsAlive m g a =
    let ms = g.members_list ++ (g.next_node, m) ∷ [] in
    record {
      managers = append-AllThere g.next_node m g.members_list g.managers_map a.managers;
      members =
          insert-AllThere m.user_guid g.next_node ms g.members_map
            (contains-append_last g.next_node m g.members_list)
            (append-AllThere g.next_node m g.members_list g.members_map a.members);
    }

pub on_add_member-IsAlive :
    (operator guid icon : ℕ) (name : Option Bytes) (g : GroupInfo)
    → IsAlive g
    → IsAlive (on_add_member operator guid icon name g).0
unfolding on_add_member
on_add_member-IsAlive operator guid icon none g a = a
on_add_member-IsAlive operator guid icon (some name) g a =
    let leader = new_member g.group_guid guid icon name group_job_leader in
    let member = new_member g.group_guid guid icon name group_job_member in
    ground (arith, a, append_manager-IsAlive leader g a, append_member-IsAlive member g a)
