-- ===== src/Net/Run.antt =====
-- The server's state from its start on: packets, closed connections and delivered messages in any
-- order (source/read_thread.cpp).
use aim_to_v.Base.{
  ℕ, ◌≡◌, refl, Bool, true, false, ◌==◌, none, some, List, [], ◌∷◌, Option-cases, Bool-cases, inl,
  inr, arith,
}
use aim_to_v.Base.Map.{Map, find, contains}
use aim_to_v.Base.Outcome.{out_of_fuel}
use aim_to_v.Wire.Bytes.{Bytes}
use aim_to_v.Wire.Package.{RecvMsgPkg}
use aim_to_v.Wire.MsgInfo.{MsgInfo, msg_type_group, msg_type_user}
use aim_to_v.Group.{GroupInfo, get_member_by_guid}
use aim_to_v.Group
use aim_to_v.Group.Walk.{walk, walk-keeps}
use aim_to_v.User.{UserInfo, on_update_friend_active, on_update_group_active, on_set_online_status}
use aim_to_v.Net.{NetInfo, net_init, send_msg, send_client_ack, put_user, func_close}
use aim_to_v.Net.Users.{
  IsPlain, UsersPlain, same-UsersPlain, put_user-UsersPlain, on_update_group_active-IsPlain,
  offline-IsPlain,
}
use aim_to_v.Net.Accounts.{Host}
use aim_to_v.Net.Dispatch.{parse_msg}
use aim_to_v.Net.Plain.{parse_msg-UsersPlain}
use aim_to_v.Net.Deliver.{
  msg_packet, hand_out, post_group, refuse_sender, deliver_group, deliver_all, deliver,
  deliver_queue,
}
use aim_to_v.Net.Queue.{private_never_ends}

-- One thing the thread does with the state: a packet whose handler has a defined result, a connection
-- that is closed, a message that is delivered from the front of the queue.
pub data Step : NetInfo → NetInfo → Type 0 where
  packet :
      (host : Host) (data_ptr : Bytes) (fd : ℕ) (msg : RecvMsgPkg) (n n' : NetInfo) (index : ℕ)
      → parse_msg host data_ptr fd msg n ≡ some (n', index)
      → Step n n'
  close : (fd : ℕ) (n : NetInfo) → Step n (func_close fd n)
  delivery :
      (now : ℕ) (msg : MsgInfo) (queue : List MsgInfo) (n n' : NetInfo)
      → n.msg_list ≡ msg ∷ queue
      → deliver now msg (record n { msg_list = queue }) ≡ some (n', true)
      → Step n n'

pub data Reachable : NetInfo → Type 0 where
  start : Reachable net_init
  next : {n n' : NetInfo} → Reachable n → Step n n' → Reachable n'

func_close-UsersPlain : (fd : ℕ) (n : NetInfo) → UsersPlain n → UsersPlain (func_close fd n)
unfolding func_close
func_close-UsersPlain fd n p =
    let guid : ℕ = elim (find fd n.conn_user_map) [ none ↦ 0 | some u ↦ u ] in
    elim (Option-cases (find guid n.users_map)) [
      | inl e ↦ same-UsersPlain n _ (ground arith) p
      | inr (u, e) ↦
          let v = (on_set_online_status 1 u).0 in
          same-UsersPlain (put_user guid v n) _ (ground arith)
            (put_user-UsersPlain guid v n p (offline-IsPlain guid u (p.plain guid u e)))
    ]

hand_out-UsersPlain :
    (now : ℕ) (msg : MsgInfo) (bytes : Bytes) (node : ℕ) (s s' : GroupInfo × NetInfo) (more : Bool)
    → UsersPlain s.1
    → hand_out now msg bytes node s ≡ some (s', more)
    → UsersPlain s'.1
unfolding hand_out send_msg
hand_out-UsersPlain now msg bytes node (g, n) s' more p h =
    elim (Option-cases (find node g.members_list)) [
      | inl e ↦ absurd (ground arith)
      | inr (info, e) ↦ elim (Option-cases (find info.user_guid n.users_map)) [
        | inl none_there ↦ same-UsersPlain n _ (ground arith) p
        | inr (u, there) ↦
            let v = (on_update_group_active now msg.recv_guid u).0 in
            same-UsersPlain (put_user info.user_guid v n) _ (ground arith) (
              put_user-UsersPlain info.user_guid v n p (
                on_update_group_active-IsPlain info.user_guid u (p.plain info.user_guid u there) now
                  msg.recv_guid))
      ]
    ]

post_group-UsersPlain :
    (now : ℕ) (msg : MsgInfo) (g : GroupInfo) (n n' : NetInfo)
    → UsersPlain n
    → post_group now msg g n ≡ some n'
    → UsersPlain n'
unfolding post_group
post_group-UsersPlain now msg g n n' p h =
    let (g1, msg', _) = Group.on_add_msg msg g in
    elim (Option-cases (msg_packet msg')) [
      | inl e ↦ same-UsersPlain n n' (ground arith) p
      | inr (bytes, e) ↦ elim (Option-cases (walk (hand_out now msg' bytes) g1 (g1, n))) [
        | inl w ↦ absurd (ground arith)
        | inr (s, w) ↦ same-UsersPlain s.1 n' (ground arith) (
            walk-keeps (λ t. UsersPlain t.1) (hand_out now msg' bytes)
              (hand_out-UsersPlain now msg' bytes) g1 (g1, n) s p w)
      ]
    ]

refuse_sender-UsersPlain :
    (msg : MsgInfo) (n : NetInfo) → UsersPlain n → UsersPlain (refuse_sender msg n)
unfolding refuse_sender send_client_ack send_msg
refuse_sender-UsersPlain msg n p = same-UsersPlain n _ (ground arith) p

deliver_group-UsersPlain :
    (now : ℕ) (msg : MsgInfo) (n n' : NetInfo)
    → UsersPlain n
    → deliver_group now msg n ≡ some n'
    → UsersPlain n'
unfolding deliver_group
deliver_group-UsersPlain now msg n n' p h =
    grind (arith, post_group-UsersPlain, refuse_sender-UsersPlain)

send_msg-users_map :
    (fd : ℕ) (bytes : Bytes) (n : NetInfo) → (send_msg fd bytes n).users_map ≡ n.users_map
unfolding send_msg
send_msg-users_map fd bytes n = ground arith

deliver_all-users_map :
    (msg : MsgInfo) (conns : Map ℕ) (n n' : NetInfo)
    → deliver_all msg conns n ≡ some n'
    → n'.users_map ≡ n.users_map
unfolding deliver_all
deliver_all-users_map msg [] n n' h = ground arith
deliver_all-users_map msg ((guid, conn) ∷ conns) n n' h = elim (Option-cases (msg_packet msg)) [
  | inl e ↦ ground arith
  | inr (bytes, e) ↦
      let later = deliver_all-users_map msg conns (send_msg conn bytes n) n' in
      ground (arith, later, send_msg-users_map conn bytes n)
]

no_friend :
    (now k guid : ℕ) (u : UserInfo) → IsPlain guid u → (on_update_friend_active now k u).1 ≡ false
unfolding on_update_friend_active contains find
no_friend now k guid u p = rw p.friends refl

deliver-UsersPlain :
    (now : ℕ) (msg : MsgInfo) (n n' : NetInfo) (popped : Bool)
    → UsersPlain n
    → deliver now msg n ≡ some (n', popped)
    → UsersPlain n'
unfolding deliver
deliver-UsersPlain now msg n n' popped p h = elim (Bool-cases (msg.msg_type == msg_type_group)) [
  | inl here ↦ deliver_group-UsersPlain now msg n n' p (ground arith)
  | inr away ↦ elim (Bool-cases (msg.msg_type == msg_type_user)) [
    | inl here ↦ elim (Option-cases (find msg.recv_guid n.users_map)) [
      | inl e ↦ same-UsersPlain n n' (ground arith) p
      | inr (u, e) ↦
          same-UsersPlain n n'
            (ground
              (arith, no_friend now msg.send_guid msg.recv_guid u (p.plain msg.recv_guid u e)))
            p
    ]
    | inr away2 ↦ elim (Option-cases (deliver_all msg n.user_conn_map n)) [
      | inl e ↦ same-UsersPlain n n' (ground arith) p
      | inr (n1, e) ↦
          same-UsersPlain n n' (ground (arith, deliver_all-users_map msg n.user_conn_map n n1 e)) p
    ]
  ]
]

-- At the start there is no user.
net_init-UsersPlain : UsersPlain net_init
unfolding net_init find
net_init-UsersPlain = record { plain = λ guid u h. ground arith }

Step-UsersPlain : {n n' : NetInfo} → Step n n' → UsersPlain n → UsersPlain n'
Step-UsersPlain (packet host data_ptr fd msg n n' index h) p =
    parse_msg-UsersPlain host data_ptr fd msg n n' index p h
Step-UsersPlain (close fd n) p = func_close-UsersPlain fd n p
Step-UsersPlain (delivery now msg queue n n' e h) p =
    deliver-UsersPlain now msg (record n { msg_list = queue }) n' true (same-UsersPlain n _ refl p)
      h

-- In every state that packets, closed connections and delivered messages lead to from the
-- start, every user is stored under the user's own guid and has no friend and no message log.
pub Reachable-UsersPlain : {n : NetInfo} → Reachable n → UsersPlain n
Reachable-UsersPlain start = net_init-UsersPlain
Reachable-UsersPlain (next r s) = Step-UsersPlain s (Reachable-UsersPlain r)

-- In every state that packets, closed connections and delivered messages lead to from the
-- start, a private message at the front of the queue to a user who exists is never taken off:
-- the loop over the queue does not end with any amount of fuel.
pub Reachable-private_never_ends :
    (n : NetInfo) (msg : MsgInfo) (queue : List MsgInfo) (user : UserInfo) (fuel now : ℕ)
    → Reachable n
    → n.msg_list ≡ msg ∷ queue
    → msg.msg_type ≡ msg_type_user
    → find msg.recv_guid n.users_map ≡ some user
    → deliver_queue fuel now n ≡ out_of_fuel
unfolding find
Reachable-private_never_ends n msg queue user fuel now r e t u =
    private_never_ends fuel now n msg queue user e t u
      (rw ((Reachable-UsersPlain r).plain msg.recv_guid user u).friends refl)
