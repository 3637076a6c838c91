-- ===== src/Group/Spec.antt =====
-- What the calls of `GroupInfo` promise about roles: two sets of guids and a leader, with no list, no
-- nodes and no order.
use aim_to_v.Base.{
  ℕ, ◌≡◌, Bool, true, false, not, ◌&&◌, ◌||◌, ◌==◌, if◌then◌else◌, Option, none, some, List, [],
  ◌∷◌,
}
use aim_to_v.Base.Map.{contains}
use aim_to_v.Group.{GroupInfo}
use aim_to_v.Group.Calls.{
  Call, add_member, delete_member, add_manager, delete_manager, change_permissions, add_msg,
  delete_msg, clear, set_group_guid, set_learder_guid, apply,
}

pub record Roles : Type 0 where
  pub leader : ℕ
  pub managers : ℕ → Bool
  pub normals : ℕ → Bool

-- A set with one guid put in, or taken out.
abbrev pub with : ℕ → (ℕ → Bool) → ℕ → Bool
with guid set k = k == guid || set k

abbrev pub without : ℕ → (ℕ → Bool) → ℕ → Bool
without guid set k = not (k == guid) && set k

-- Whether a call is allowed, where the roles alone decide it.
abbrev pub allows : Call → Roles → Option Bool
allows (add_member operator user icon none) r = some false
allows (add_member operator user icon (some name)) r =
    some ((r.managers operator || operator == 0) && not (r.normals user))
allows (delete_member operator user) r =
    some (if r.managers user then operator == r.leader else r.managers operator && r.normals user)
allows (add_manager operator user) r =
    some (operator == r.leader && (not (r.managers user) && r.normals user))
allows (delete_manager operator user) r =
    some (operator == r.leader && (r.managers user && not (r.normals user)))
allows (change_permissions operator user p) r = none
allows (add_msg msg) r = none
allows (delete_msg operator num) r = some (r.managers operator)
allows (clear operator) r = some (r.managers operator)
allows (set_group_guid guid) r = some true
allows (set_learder_guid guid) r = some true

-- What an allowed call does.
abbrev pub effect : Call → Roles → Roles
effect (add_member operator user icon name) r =
    if operator == 0 && user == r.leader
    then record r { managers = with user r.managers }
    else record r { normals = with user r.normals }
effect (delete_member operator user) r =
    if r.managers user
    then record r { managers = without user r.managers }
    else record r { normals = without user r.normals }
effect (add_manager operator user) r = record r {
  managers = with user r.managers;
  normals = without user r.normals;
}
effect (delete_manager operator user) r = record r {
  managers = without user r.managers;
  normals = with user r.normals;
}
effect (change_permissions operator user p) r = r
effect (add_msg msg) r = r
effect (delete_msg operator num) r = r
effect (clear operator) r = r
effect (set_group_guid guid) r = r
effect (set_learder_guid guid) r = record r { leader = guid }

abbrev pub step : Call → Roles → Roles
step c r = elim (allows c r) [ none ↦ r | some false ↦ r | some true ↦ effect c r ]

abbrev pub steps : List Call → Roles → Roles
steps [] r = r
steps (c ∷ cs) r = steps cs (step c r)

-- The group has these roles.
pub record Refines (g : GroupInfo) (r : Roles) : Type 0 where
  pub leader : g.learder_guid ≡ r.leader
  pub managers : (k : ℕ) → contains k g.managers_map ≡ r.managers k
  pub normals : (k : ℕ) → contains k g.members_map ≡ r.normals k

-- A call answers as the roles say, and leaves a group with the roles that they become.
abbrev pub Simulates : Call → GroupInfo → Roles → Type 0
Simulates c g r =
    Refines (apply c g).0 (step c r)
    × ((answer : Bool) → allows c r ≡ some answer → (apply c g).1 ≡ answer)
