-- ===== src/Net/Queue.antt =====
-- The queue of chat messages: when its loop ends and when it does not.
use aim_to_v.Base.{
  ℕ, zero, suc, ◌≤◌, ◌≡◌, ◌≢◌, ◌⊎◌, refl, sym, Bool, true, ◌==◌, none, some, List, [], ◌∷◌, length,
  Option-cases, List-cases, Bool-cases, inl, inr, arith,
}
use aim_to_v.Base.Map.{Map, find, contains}
use aim_to_v.Base.Outcome.{done, undefined, out_of_fuel}
use aim_to_v.Wire.Bytes.{Bytes}
use aim_to_v.Wire.MsgInfo.{MsgInfo, msg_type_all, msg_type_group, msg_type_user}
use aim_to_v.Group.{GroupInfo, get_member_by_guid}
use aim_to_v.Group
use aim_to_v.Group.Walk.{walk, walk-keeps}
use aim_to_v.User.{UserInfo, on_update_friend_active}
use aim_to_v.Net.{NetInfo, send_msg, send_client_ack}
use aim_to_v.Net.Deliver.{
  msg_packet, hand_out, post_group, refuse_sender, deliver_group, pop_next, deliver_all, deliver,
  deliver_queue,
}

hand_out-msg_list :
    (now : ℕ) (msg : MsgInfo) (bytes : Bytes) (q : List MsgInfo) (node : ℕ)
    (s s' : GroupInfo × NetInfo) (more : Bool)
    → s.1.msg_list ≡ q
    → hand_out now msg bytes node s ≡ some (s', more)
    → s'.1.msg_list ≡ q
unfolding hand_out send_msg
hand_out-msg_list now msg bytes q node (g, n) s' more e h = ground arith

post_group-msg_list :
    (now : ℕ) (msg : MsgInfo) (g : GroupInfo) (n n' : NetInfo)
    → post_group now msg g n ≡ some n'
    → n'.msg_list ≡ n.msg_list
unfolding post_group
post_group-msg_list now msg g n n' h =
    let (g1, msg', _) = Group.on_add_msg msg g in
    elim (Option-cases (msg_packet msg')) [
      | inl e ↦ ground arith
      | inr (bytes, e) ↦ elim (Option-cases (walk (hand_out now msg' bytes) g1 (g1, n))) [
        | inl w ↦ absurd (ground arith)
        | inr (s, w) ↦ ground (
          arith,
          walk-keeps (λ t. t.1.msg_list ≡ n.msg_list) (hand_out now msg' bytes)
              (hand_out-msg_list now msg' bytes n.msg_list) g1 (g1, n) s refl w,
        )
      ]
    ]

deliver_group-msg_list :
    (now : ℕ) (msg : MsgInfo) (n n' : NetInfo)
    → deliver_group now msg n ≡ some n'
    → n'.msg_list ≡ n.msg_list
unfolding deliver_group refuse_sender send_client_ack send_msg
deliver_group-msg_list now msg n n' h = grind (arith, post_group-msg_list)

-- No message of the queue is a private one.
abbrev pub AllPublic : List MsgInfo → Type 0
AllPublic [] = Unit {0}
AllPublic (m ∷ ms) = (m.msg_type ≢ msg_type_user) × AllPublic ms

-- The second queue is no longer, and has no private message if the first has none.
record Shrinks (q q' : List MsgInfo) : Type 0 where
  shorter : length q' ≤ length q
  public : AllPublic q → AllPublic q'

same-Shrinks : (q q' : List MsgInfo) → q' ≡ q → Shrinks q q'
same-Shrinks q q' e = rw e (record { shorter = omega arith; public = λ p. p })

tail-Shrinks : (m : MsgInfo) (q q' : List MsgInfo) → q ≡ m ∷ q' → Shrinks q q'
tail-Shrinks m q q' e = rw e (record { shorter = omega arith; public = λ p. p.1 })

send_msg-msg_list :
    (fd : ℕ) (bytes : Bytes) (n : NetInfo) → (send_msg fd bytes n).msg_list ≡ n.msg_list
unfolding send_msg
send_msg-msg_list fd bytes n = ground arith

-- A message to everybody takes at most one more off the queue.
pop_next-Shrinks : (n n' : NetInfo) → pop_next n ≡ some n' → Shrinks n.msg_list n'.msg_list
pop_next-Shrinks n n' h = elim (List-cases n.msg_list) [
  | inl e ↦ absurd (ground arith)
  | inr (m, q, e) ↦ tail-Shrinks m n.msg_list n'.msg_list (ground arith)
]

deliver_all-Shrinks :
    (msg : MsgInfo) (conns : Map ℕ) (n n' : NetInfo)
    → deliver_all msg conns n ≡ some n'
    → Shrinks n.msg_list n'.msg_list
unfolding deliver_all
deliver_all-Shrinks msg [] n n' h = same-Shrinks n.msg_list n'.msg_list (ground arith)
deliver_all-Shrinks msg ((guid, conn) ∷ []) n n' h = elim (Option-cases (msg_packet msg)) [
  | inl e ↦ pop_next-Shrinks n n' (ground arith)
  | inr (bytes, e) ↦ elim (Bool-cases (guid == msg.send_guid)) [
    | inl own ↦ pop_next-Shrinks n n' (ground arith)
    | inr other ↦
        same-Shrinks n.msg_list n'.msg_list (ground (arith, send_msg-msg_list conn bytes n))
  ]
]
deliver_all-Shrinks msg ((guid, conn) ∷ entry ∷ conns) n n' h =
    elim (Option-cases (msg_packet msg)) [
      | inl e ↦ absurd (ground arith)
      | inr (bytes, e) ↦ elim (Bool-cases (guid == msg.send_guid)) [
        | inl own ↦ absurd (ground arith)
        | inr other ↦
            let next : NetInfo = send_msg conn bytes n in
            rw (sym (send_msg-msg_list conn bytes n))
              (deliver_all-Shrinks msg (entry ∷ conns) next n' (ground arith))
      ]
    ]

module _ (now : ℕ) (msg : MsgInfo) (n n' : NetInfo) where
  group_message-Shrinks : deliver_group now msg n ≡ some n' → Shrinks n.msg_list n'.msg_list
  group_message-Shrinks h =
      same-Shrinks n.msg_list n'.msg_list (deliver_group-msg_list now msg n n' h)

  deliver-Shrinks :
      (popped : Bool)
      → msg.msg_type ≢ msg_type_user
      → deliver now msg n ≡ some (n', popped)
      → (popped ≡ true) × Shrinks n.msg_list n'.msg_list
  unfolding deliver
  deliver-Shrinks popped ne h = elim (Bool-cases (msg.msg_type == msg_type_group)) [
    | inl here ↦ elim (Option-cases (deliver_group now msg n)) [
      | inl e ↦ absurd (ground arith)
      | inr (n1, e) ↦ (ground arith, group_message-Shrinks (ground arith))
    ]
    | inr away ↦ elim (Bool-cases (msg.msg_type == msg_type_all)) [
      | inl here ↦ elim (Option-cases (deliver_all msg n.user_conn_map n)) [
        | inl e ↦ absurd (ground arith)
        | inr (n1, e) ↦ (ground arith, deliver_all-Shrinks msg n.user_conn_map n n' (ground arith))
      ]
      | inr other ↦ (ground arith, same-Shrinks n.msg_list n'.msg_list (ground arith))
    ]
  ]

-- The rounds end: each takes at least one message off.
module _ (m : MsgInfo) (queue : List MsgInfo) (n : NetInfo) (e : n.msg_list ≡ m ∷ queue) where
  head-public : AllPublic n.msg_list → (m.msg_type ≢ msg_type_user) × AllPublic queue
  head-public p = ground (arith, e, p)

  ends_after :
      (n' : NetInfo)
      → Shrinks queue n'.msg_list
      → AllPublic n.msg_list
      → (suc (length n'.msg_list) ≤ length n.msg_list) × AllPublic n'.msg_list
  ends_after n' s p = (ground (arith, s.shorter), s.public (head-public p).1)

  next_round :
      (fuel now : ℕ) (n' : NetInfo)
      → deliver now m (record n { msg_list = queue }) ≡ some (n', true)
      → deliver_queue (suc fuel) now n ≡ deliver_queue fuel now n'
  unfolding deliver_queue
  next_round fuel now n' h = ground arith

  broken_round :
      (fuel now : ℕ)
      → deliver now m (record n { msg_list = queue }) ≡ none
      → deliver_queue (suc fuel) now n ≡ undefined
  unfolding deliver_queue
  broken_round fuel now h = ground arith

-- A queue without private messages is worked off within as many rounds as it has messages: the
-- loop ends with an empty queue, or is undefined.
pub deliver_queue_ends :
    (fuel now : ℕ) (n : NetInfo)
    → AllPublic n.msg_list
    → length n.msg_list ≤ fuel
    → (deliver_queue fuel now n ≡ undefined)
      ⊎ ((n' : NetInfo) × (deliver_queue fuel now n ≡ done n') × (n'.msg_list ≡ []))
unfolding deliver_queue
deliver_queue_ends zero now n p h = elim (List-cases n.msg_list) [
  | inl e ↦ inr (n, ground arith, e)
  | inr (m, queue, e) ↦ absurd (ground arith)
]
deliver_queue_ends (suc fuel) now n p h = elim (List-cases n.msg_list) [
  | inl e ↦ inr (n, ground arith, e)
  | inr (m, queue, e) ↦ elim (Option-cases (deliver now m (record n { msg_list = queue }))) [
    | inl fails ↦ inl (broken_round m queue n e fuel now fails)
    | inr ((n', more), ok) ↦
        let r =
          deliver-Shrinks now m (record n { msg_list = queue }) n' more
            (head-public m queue n e p).0 ok in
        let q = ends_after m queue n e n' r.1 p in
        rw (next_round m queue n e fuel now n' (rw (sym r.0) ok))
          (deliver_queue_ends fuel now n' q.1 (omega (arith, q.0, h)))
  ]
]

pub private_never_ends :
    (fuel now : ℕ) (n : NetInfo) (msg : MsgInfo) (queue : List MsgInfo) (user : UserInfo)
    → n.msg_list ≡ msg ∷ queue
    → msg.msg_type ≡ msg_type_user
    → find msg.recv_guid n.users_map ≡ some user
    → find msg.send_guid user.friends ≡ none
    → deliver_queue fuel now n ≡ out_of_fuel
unfolding deliver_queue deliver on_update_friend_active contains
private_never_ends zero now n msg queue user e t u f = ground arith
private_never_ends (suc fuel) now n msg queue user e t u f =
    let rest : deliver_queue fuel now n ≡ out_of_fuel =
      private_never_ends fuel now n msg queue user e t u f in
    ground (arith, rest)
