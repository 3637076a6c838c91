-- ===== src/Group/Calls.antt =====
-- The calls that change a group, as data, and what holds of a group after any number of them.
use aim_to_v.Base.{ℕ, ◌≡◌, refl, ◌≢◌, Bool, true, false, Option, none, some, List, [], ◌∷◌, arith}
use aim_to_v.Base.Map.{find}
use aim_to_v.Wire.Bytes.{Bytes}
use aim_to_v.Wire.MsgInfo.{MsgInfo}
use aim_to_v.Group.{
  GroupInfo, empty_group, on_add_member, on_delete_member, on_add_manager, on_delete_manager,
  on_change_permissions, on_add_msg, on_delete_msg, clear_msg, push_msg, append_manager,
  append_member, remove_manager, remove_member, promote, demote, grant,
}
use aim_to_v.Group.Links.{
  IsLinked, on_add_member-IsLinked, on_delete_member-IsLinked, on_add_manager-IsLinked,
  on_delete_manager-IsLinked, on_change_permissions-IsLinked,
}
use aim_to_v.Group.Messages.{
  IsBounded, on_add_msg-IsBounded, on_delete_msg-IsBounded, clear_msg-IsBounded,
}

pub data Call : Type 0 where
  add_member : ℕ → ℕ → ℕ → Option Bytes → Call
  delete_member : ℕ → ℕ → Call
  add_manager : ℕ → ℕ → Call
  delete_manager : ℕ → ℕ → Call
  change_permissions : ℕ → ℕ → ℕ → Call
  add_msg : MsgInfo → Call
  delete_msg : ℕ → ℕ → Call
  clear : ℕ → Call
  set_group_guid : ℕ → Call
  set_learder_guid : ℕ → Call

-- The group after a call, and the call's result.
unfoldable pub apply : Call → GroupInfo → GroupInfo × Bool
apply (add_member operator user icon name) g = on_add_member operator user icon name g
apply (delete_member operator user) g = on_delete_member operator user g
apply (add_manager operator user) g = on_add_manager operator user g
apply (delete_manager operator user) g = on_delete_manager operator user g
apply (change_permissions operator user p) g = on_change_permissions operator user p g
apply (add_msg msg) g = let (g', _, taken) = on_add_msg msg g in (g', taken)
apply (delete_msg operator num) g = on_delete_msg operator num g
apply (clear operator) g = clear_msg operator g
apply (set_group_guid guid) g = (record g { group_guid = guid }, true)
apply (set_learder_guid guid) g = (record g { learder_guid = guid }, true)

unfoldable pub run : List Call → GroupInfo → GroupInfo
run [] g = g
run (c ∷ cs) g = run cs (apply c g).0

pub record IsValid (g : GroupInfo) : Type 0 where
  pub linked : IsLinked g
  pub bounded : IsBounded g

empty_group-IsValid : IsValid empty_group
unfolding empty_group find
empty_group-IsValid = record {
  linked = record {
    rising = omega arith;
    counted = omega arith;
    managers = λ k n h. cc;
    members = λ k n h. cc;
  };
  bounded = record { counted = omega arith; bounded = omega arith };
}

-- The log is no part of the links.
log-IsLinked :
    (ms : List MsgInfo) (limit : ℕ) (g : GroupInfo)
    → IsLinked g
    → IsLinked (record g { msg_list = ms; msg_limit = limit })
log-IsLinked ms limit g l = record {
  rising = l.rising;
  counted = l.counted;
  managers = l.managers;
  members = l.members;
}

on_add_msg-IsLinked : (msg : MsgInfo) (g : GroupInfo) → IsLinked g → IsLinked (on_add_msg msg g).0
unfolding on_add_msg push_msg
on_add_msg-IsLinked msg g l = grind (arith, log-IsLinked)

on_delete_msg-IsLinked :
    (operator num : ℕ) (g : GroupInfo) → IsLinked g → IsLinked (on_delete_msg operator num g).0
unfolding on_delete_msg
on_delete_msg-IsLinked operator num g l = grind (arith, log-IsLinked)

clear_msg-IsLinked : (operator : ℕ) (g : GroupInfo) → IsLinked g → IsLinked (clear_msg operator g).0
unfolding clear_msg
clear_msg-IsLinked operator g l = grind (arith, log-IsLinked)

-- The log of one group is that of another.
abbrev SameLog : GroupInfo → GroupInfo → Type 0
SameLog g g' = (g'.msg_list ≡ g.msg_list) × (g'.msg_limit ≡ g.msg_limit)

same-IsBounded : (g g' : GroupInfo) → SameLog g g' → IsBounded g → IsBounded g'
same-IsBounded g g' s b = record { counted = rw (s.0, s.1) b.counted; bounded = rw s.0 b.bounded }

members_keep_log :
    (operator user icon p : ℕ) (name : Option Bytes) (g : GroupInfo)
    → SameLog g (on_add_member operator user icon name g).0
      × SameLog g (on_delete_member operator user g).0
      × SameLog g (on_add_manager operator user g).0
      × SameLog g (on_delete_manager operator user g).0
      × SameLog g (on_change_permissions operator user p g).0
unfolding on_add_member on_delete_member on_add_manager on_delete_manager on_change_permissions
    append_manager append_member remove_manager remove_member promote demote grant
members_keep_log operator user icon p none g =
    (ground arith, ground arith, ground arith, ground arith, ground arith)
members_keep_log operator user icon p (some name) g =
    (ground arith, ground arith, ground arith, ground arith, ground arith)

apply-IsLinked : (c : Call) (g : GroupInfo) → IsLinked g → IsLinked (apply c g).0
unfolding apply
apply-IsLinked (add_member operator user icon name) g l =
    on_add_member-IsLinked operator user icon name g l
apply-IsLinked (delete_member operator user) g l = on_delete_member-IsLinked operator user g l
apply-IsLinked (add_manager operator user) g l = on_add_manager-IsLinked operator user g l
apply-IsLinked (delete_manager operator user) g l = on_delete_manager-IsLinked operator user g l
apply-IsLinked (change_permissions operator user p) g l =
    on_change_permissions-IsLinked operator user p g l
apply-IsLinked (add_msg msg) g l = on_add_msg-IsLinked msg g l
apply-IsLinked (delete_msg operator num) g l = on_delete_msg-IsLinked operator num g l
apply-IsLinked (clear operator) g l = clear_msg-IsLinked operator g l
apply-IsLinked (set_group_guid guid) g l = record {
  rising = l.rising;
  counted = l.counted;
  managers = l.managers;
  members = l.members;
}
apply-IsLinked (set_learder_guid guid) g l = record {
  rising = l.rising;
  counted = l.counted;
  managers = l.managers;
  members = l.members;
}

apply-IsBounded : (c : Call) (g : GroupInfo) → IsBounded g → IsBounded (apply c g).0
unfolding apply
apply-IsBounded (add_msg msg) g b = on_add_msg-IsBounded msg g b
apply-IsBounded (delete_msg operator num) g b = on_delete_msg-IsBounded operator num g b
apply-IsBounded (clear operator) g b = clear_msg-IsBounded operator g b
apply-IsBounded (add_member operator user icon name) g b =
    same-IsBounded g _ (members_keep_log operator user icon 0 name g).0 b
apply-IsBounded (delete_member operator user) g b =
    same-IsBounded g _ (members_keep_log operator user 0 0 none g).1 b
apply-IsBounded (add_manager operator user) g b =
    same-IsBounded g _ (members_keep_log operator user 0 0 none g).2 b
apply-IsBounded (delete_manager operator user) g b =
    same-IsBounded g _ (members_keep_log operator user 0 0 none g).3 b
apply-IsBounded (change_permissions operator user p) g b =
    same-IsBounded g _ (members_keep_log operator user 0 p none g).4 b
apply-IsBounded _ g b = record { counted = b.counted; bounded = b.bounded }

-- Each call keeps the index maps in step with the list of members, and the log within its limit.
pub apply-IsValid : (c : Call) (g : GroupInfo) → IsValid g → IsValid (apply c g).0
apply-IsValid c g v = record {
  linked = apply-IsLinked c g v.linked;
  bounded = apply-IsBounded c g v.bounded;
}

run-IsValid : (cs : List Call) (g : GroupInfo) → IsValid g → IsValid (run cs g)
unfolding run
run-IsValid [] g v = v
run-IsValid (c ∷ cs) g v = run-IsValid cs (apply c g).0 (apply-IsValid c g v)

-- So whatever is called on a new group, no entry of a map ever leads to a node that has been erased
-- or that belongs to somebody else, managers and members stay apart, the count is right, and the
-- log is no longer than its limit.
pub run-empty_group-IsValid : (cs : List Call) → IsValid (run cs empty_group)
run-empty_group-IsValid cs = run-IsValid cs empty_group empty_group-IsValid

-- A call that is refused changes nothing.
pub refused_changes_nothing : (c : Call) (g : GroupInfo) → (apply c g).1 ≡ false → (apply c g).0 ≡ g
unfolding apply on_add_member on_delete_member on_add_manager on_delete_manager
    on_change_permissions on_add_msg on_delete_msg clear_msg
refused_changes_nothing (add_member operator user icon none) g h = refl
refused_changes_nothing (add_member operator user icon (some name)) g h = ground arith
refused_changes_nothing _ g h = ground arith

-- Whom the call names as the one who acts; message traffic and the setters name nobody.
abbrev pub operator_of : Call → Option ℕ
operator_of (add_member operator user icon name) = some operator
operator_of (delete_member operator user) = some operator
operator_of (add_manager operator user) = some operator
operator_of (delete_manager operator user) = some operator
operator_of (change_permissions operator user p) = some operator
operator_of (delete_msg operator num) = some operator
operator_of (clear operator) = some operator
operator_of _ = none

-- Only the leader makes or unmakes managers: a call of anybody else but the server itself, which
-- acts as operator 0, leaves `managers_map` as it is.
pub managers_map-apply :
    (c : Call) (g : GroupInfo)
    → operator_of c ≢ some 0
    → operator_of c ≢ some g.learder_guid
    → (apply c g).0.managers_map ≡ g.managers_map
unfolding apply on_add_member on_delete_member on_add_manager on_delete_manager
    on_change_permissions on_add_msg on_delete_msg clear_msg append_member remove_member grant
    push_msg
managers_map-apply (add_member operator user icon none) g h k = refl
managers_map-apply (add_member operator user icon (some name)) g h k = ground arith
managers_map-apply _ g h k = ground arith
