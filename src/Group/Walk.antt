-- ===== src/Group/Walk.antt =====
-- Walks over the members where a node may be gone: the two maps may lead to nodes that `members_list`
-- no longer has, and what goes through such an iterator is undefined.
use aim_to_v.Base.{
  ℕ, ◌≡◌, refl, arith, Bool, true, false, not, ◌&&◌, if◌then◌else◌, Option, none, some, [], ◌∷◌,
  Bool-cases, Option-cases, inl, inr,
}
use aim_to_v.Base.Map.{Map, find, contains}
use aim_to_v.Group.{
  GroupInfo, traverse, traverse_all_members, traverse_managers, traverse_normal_members,
}

-- The callback on a state that may be undefined by now.
unfoldable pub if_defined :
    {S : Type 0} → (ℕ → S → Option (S × Bool)) → ℕ → Option S → Option S × Bool
if_defined f node none = (none, false)
if_defined f node (some s) = elim (f node s) [
  | none ↦ (none, false)
  | some (s', more) ↦ (some s', more)
]

-- `traverse_all_members` with a callback that is `none` for a node that is gone.
unfoldable pub walk : {S : Type 0} → (ℕ → S → Option (S × Bool)) → GroupInfo → S → Option S
walk f g s = (traverse_all_members (some (if_defined f)) g (some s)).0

-- The node of a user's entry, if there is one, is there; `managers_map` comes first.
unfoldable pub is_alive : ℕ → GroupInfo → Bool
is_alive guid g = elim (find guid g.managers_map) [
  | some node ↦ contains node g.members_list
  | none ↦ elim (find guid g.members_map) [ some node ↦ contains node g.members_list | none ↦ true ]
]

-- `on_delete_member`, `on_add_manager`, `on_delete_manager` and `on_change_permissions` use the node
-- of the target's entry exactly where they return true.
unfoldable pub on_node : ℕ → GroupInfo → GroupInfo × Bool → Option (GroupInfo × Bool)
on_node user_guid g (g', done) =
    if done && not (is_alive user_guid g) then none else some (g', done)

-- `on_change_permissions` uses the operator's node first, if the operator is a manager.
unfoldable pub on_operator_node :
    ℕ → GroupInfo → Option (GroupInfo × Bool) → Option (GroupInfo × Bool)
on_operator_node operator_guid g result = elim (find operator_guid g.managers_map) [
  | some node ↦ if contains node g.members_list then result else none
  | none ↦ result
]

-- What each call of the callback keeps, the walk keeps.
module _ {S : Type 0} (P : S → Type 0) (f : ℕ → S → S × Bool) where
  traverse-keeps :
      ((node : ℕ) (s : S) → P s → P (f node s).0)
      → (nodes : Map ℕ) (s : S) → P s
      → P (traverse (some f) nodes s)
  unfolding traverse
  traverse-keeps keep [] s p = p
  traverse-keeps keep ((guid, node) ∷ nodes) s p = elim (Bool-cases (f node s).1) [
    | inl e ↦ rw e (traverse-keeps keep nodes (f node s).0 (keep node s p))
    | inr e ↦ rw e (keep node s p)
  ]

  pub traverse_all_members-keeps :
      ((node : ℕ) (s : S) → P s → P (f node s).0)
      → (g : GroupInfo) (s : S) → P s
      → P (traverse_all_members (some f) g s).0
  unfolding traverse_all_members traverse_managers traverse_normal_members
  traverse_all_members-keeps keep g s p =
      traverse-keeps keep g.members_map (traverse (some f) g.managers_map s)
        (traverse-keeps keep g.managers_map s p)

-- What holds of a state, if it is defined.
abbrev Holds : {S : Type 0} → (S → Type 0) → Option S → Type 0
Holds {S} P s = (s' : S) → s ≡ some s' → P s'

module _ {S : Type 0} (P : S → Type 0) (f : ℕ → S → Option (S × Bool))
    (keep : (node : ℕ) (s s' : S) (more : Bool) → P s → f node s ≡ some (s', more) → P s') where
  if_defined-keeps : (node : ℕ) (s : Option S) → Holds P s → Holds P (if_defined f node s).0
  unfolding if_defined
  if_defined-keeps node none p = λ s' h. absurd (ground arith)
  if_defined-keeps node (some s) p = elim (Option-cases (f node s)) [
    | inl e ↦ λ s' h. absurd (ground arith)
    | inr ((s1, more), e) ↦
        λ s' h. let same : s' ≡ s1 = ground arith in rw same (keep node s s1 more (p s refl) e)
  ]

  pub walk-keeps : (g : GroupInfo) (s s' : S) → P s → walk f g s ≡ some s' → P s'
  unfolding walk
  walk-keeps g s s' p h =
      traverse_all_members-keeps (Holds P) (if_defined f) if_defined-keeps g (some s)
        (λ s1 e. let same : s1 ≡ s = ground arith in rw same p) s' h
