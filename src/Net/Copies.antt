-- ===== src/Net/Copies.antt =====
-- Who gets a copy of a message to a group.
use aim_to_v.Base.{
  ◌≢◌, ◌⊎◌, ℕ, ◌≡◌, refl, sym, ◌∙◌, Bool, true, false, ◌==◌, Option, none, some, List, [], ◌∷◌,
  ◌++◌, append_assoc, append-nil, length, Option-cases, inl, inr, arith,
}
use aim_to_v.Base.Map.{Map, find, find-insert, find-update}
use aim_to_v.Wire.Bytes.{Bytes}
use aim_to_v.Wire.MsgInfo.{MsgInfo}
use aim_to_v.Group.{
  GroupInfo, traverse, traverse_all_members, traverse_managers, traverse_normal_members, push_msg,
}
use aim_to_v.Group.Walk.{if_defined, walk}
use aim_to_v.Group
use aim_to_v.User.{on_update_group_active}
use aim_to_v.Net.{NetInfo, send_msg, put_group}
use aim_to_v.Net.Deliver.{msg_packet, hand_out, counted, post_group}

-- What the walk finds at a node: the node is gone, its member is no user, is not connected, or has a
-- connection.
pub data Seen : Type 0 where
  gone not_a_user unconnected : Seen
  connected : ℕ → Seen

abbrev pub look : GroupInfo → NetInfo → ℕ → Seen
look g n node = elim (find node g.members_list) [
  | none ↦ gone
  | some info ↦ elim (find info.user_guid n.users_map) [
    | none ↦ not_a_user
    | some user ↦ elim (find info.user_guid n.user_conn_map) [
      | none ↦ unconnected
      | some conn ↦ connected conn
    ]
  ]
]

-- A copy for each connection, up to the first member who is no user; `none` where a node is gone.
abbrev pub copies : (ℕ → Seen) → Bytes → Map ℕ → Option (List (ℕ × Bytes))
copies at_node bytes [] = some []
copies at_node bytes ((guid, node) ∷ nodes) =
    let rest = copies at_node bytes nodes in
    elim (at_node node) [
      | gone ↦ none
      | not_a_user ↦ some []
      | unconnected ↦ rest
      | connected conn ↦ elim rest [ none ↦ none | some sent ↦ some ((conn, bytes) ∷ sent) ]
    ]

copies_same :
    (f h : ℕ → Seen) (bytes : Bytes) (nodes : Map ℕ)
    → ((node : ℕ) → f node ≡ h node)
    → copies f bytes nodes ≡ copies h bytes nodes
copies_same f h bytes [] e = refl
copies_same f h bytes ((guid, node) ∷ nodes) e =
    ground (arith, e node, copies_same f h bytes nodes e)

-- One walk and then the other; each is undefined by itself.
abbrev pub both : Option (List (ℕ × Bytes)) → Option (List (ℕ × Bytes)) → Option (List (ℕ × Bytes))
both none b = none
both (some a) none = none
both (some a) (some b) = some (a ++ b)

module _ {S : Type 0} (f : ℕ → S → Option (S × Bool)) where
  traverse_undefined : (nodes : Map ℕ) → traverse (some (if_defined f)) nodes none ≡ none
  unfolding traverse if_defined
  traverse_undefined [] = refl
  traverse_undefined ((guid, node) ∷ nodes) = refl

  module _ (guid node : ℕ) (nodes : Map ℕ) (s : S) where
    traverse_gone :
        f node s ≡ none → traverse (some (if_defined f)) ((guid, node) ∷ nodes) (some s) ≡ none
    unfolding traverse if_defined
    traverse_gone h = ground (arith, h)

    traverse_stops :
        (s1 : S)
        → f node s ≡ some (s1, false)
        → traverse (some (if_defined f)) ((guid, node) ∷ nodes) (some s) ≡ some s1
    unfolding traverse if_defined
    traverse_stops s1 h = ground (arith, h)

    traverse_goes :
        (s1 : S)
        → f node s ≡ some (s1, true)
        → traverse (some (if_defined f)) ((guid, node) ∷ nodes) (some s)
          ≡ traverse (some (if_defined f)) nodes (some s1)
    unfolding traverse if_defined
    traverse_goes s1 h = ground (arith, h)

-- What a walk that is defined has sent, and that it looks up no differently afterwards.
record Sent (s s' : GroupInfo × NetInfo) (copied : List (ℕ × Bytes)) : Type 0 where
  sent : s'.1.sent ≡ s.1.sent ++ copied
  looks : (k : ℕ) → look s'.0 s'.1 k ≡ look s.0 s.1 k

nothing-Sent : (s : GroupInfo × NetInfo) → Sent s s []
nothing-Sent s = record { sent = sym (append-nil s.1.sent); looks = λ k. refl }

then-Sent :
    (s s' s'' : GroupInfo × NetInfo) (a b : List (ℕ × Bytes))
    → Sent s s' a
    → Sent s' s'' b
    → Sent s s'' (a ++ b)
then-Sent s s' s'' a b p q = record {
  sent = q.sent ∙ rw p.sent (append_assoc s.1.sent a b);
  looks = λ k. q.looks k ∙ p.looks k;
}

module _ (now : ℕ) (msg : MsgInfo) (bytes : Bytes) (some_bytes : (length bytes == 0) ≡ false) where
  abbrev step : ℕ → GroupInfo × NetInfo → Option ((GroupInfo × NetInfo) × Bool)
  step = hand_out now msg bytes

  hand_out-look :
      (node k : ℕ) (s s' : GroupInfo × NetInfo) (more : Bool)
      → step node s ≡ some (s', more)
      → look s'.0 s'.1 k ≡ look s.0 s.1 k
  unfolding hand_out send_msg
  hand_out-look node k (g, n) s' more h = elim (Option-cases (find node g.members_list)) [
    | inl e ↦ ground arith
    | inr (info, e) ↦ elim (Option-cases (find info.user_guid n.users_map)) [
      | inl e' ↦ ground arith
      | inr (user, e') ↦
          let v = (on_update_group_active now msg.recv_guid user).0 in
          elim (Option-cases (find k g.members_list)) [
            | inl e'' ↦ ground (arith, find-update k node counted g.members_list)
            | inr (other, e'') ↦ ground (
              arith,
              find-update k node counted g.members_list,
              find-insert other.user_guid info.user_guid v n.users_map,
            )
          ]
    ]
  ]

  hand_out-Sent :
      (node : ℕ) (s s' : GroupInfo × NetInfo) (more : Bool)
      → step node s ≡ some (s', more)
      → (copied : List (ℕ × Bytes)) → s'.1.sent ≡ s.1.sent ++ copied
      → Sent s s' copied
  hand_out-Sent node s s' more h copied e = record {
    sent = e;
    looks = λ k. hand_out-look node k s s' more h;
  }

  -- Where it goes on.
  hand_out_on :
      (node : ℕ) (s : GroupInfo × NetInfo)
      → look s.0 s.1 node ≢ gone
      → look s.0 s.1 node ≢ not_a_user
      → (s' : GroupInfo × NetInfo) × (step node s ≡ some (s', true))
  unfolding hand_out
  hand_out_on node (g, n) there user = elim (Option-cases (step node (g, n))) [
    | inl e ↦ absurd (ground arith)
    | inr ((s', more), e) ↦ (s', ground arith)
  ]

  hand_out-gone :
      (node : ℕ) (s : GroupInfo × NetInfo) → look s.0 s.1 node ≡ gone → step node s ≡ none
  unfolding hand_out
  hand_out-gone node (g, n) e = ground arith

  hand_out-not_a_user :
      (node : ℕ) (s : GroupInfo × NetInfo)
      → look s.0 s.1 node ≡ not_a_user
      → step node s ≡ some (s, false)
  unfolding hand_out
  hand_out-not_a_user node (g, n) e = ground arith

  hand_out-unconnected :
      (node : ℕ) (s s' : GroupInfo × NetInfo)
      → look s.0 s.1 node ≡ unconnected
      → step node s ≡ some (s', true)
      → s'.1.sent ≡ s.1.sent
  unfolding hand_out send_msg
  hand_out-unconnected node (g, n) s' e h = ground arith

  hand_out-connected :
      (node conn : ℕ) (s s' : GroupInfo × NetInfo)
      → look s.0 s.1 node ≡ connected conn
      → step node s ≡ some (s', true)
      → s'.1.sent ≡ s.1.sent ++ (conn, bytes) ∷ []
  unfolding hand_out send_msg
  hand_out-connected node conn (g, n) s' e h = ground arith

  -- A walk over one of the maps.
  abbrev Walked : Map ℕ → GroupInfo × NetInfo → Type 0
  Walked nodes s =
      ((copies (look s.0 s.1) bytes nodes ≡ none)
        × (traverse (some (if_defined step)) nodes (some s) ≡ none))
      ⊎ ((copied : List (ℕ × Bytes)) × (s' : GroupInfo × NetInfo) × (copies (look s.0 s.1) bytes
              nodes
            ≡ some copied)
          × (traverse (some (if_defined step)) nodes (some s) ≡ some s')
          × Sent s s' copied)

  -- A step that goes on, and the walk after it.
  goes_on :
      (guid node : ℕ) (nodes : Map ℕ) (s s1 : GroupInfo × NetInfo) (first : List (ℕ × Bytes))
      → step node s ≡ some (s1, true)
      → Sent s s1 first
      → ((rest : Option (List (ℕ × Bytes)))
          → copies (look s.0 s.1) bytes nodes ≡ rest
          → copies (look s.0 s.1) bytes ((guid, node) ∷ nodes) ≡ both (some first) rest)
      → Walked nodes s1
      → Walked ((guid, node) ∷ nodes) s
  goes_on guid node nodes s s1 first h p copied w =
      let same = copies_same (look s1.0 s1.1) (look s.0 s.1) bytes nodes p.looks in
      let go = traverse_goes step guid node nodes s s1 h in
      elim w [
        | inl (c, t) ↦ inl (copied none (sym same ∙ c), go ∙ t)
        | inr (cs, s', c, t, q) ↦ inr (
          first ++ cs,
          s',
          copied (some cs) (sym same ∙ c),
          go ∙ t,
          then-Sent s s1 s' first cs p q,
        )
      ]

  walk_first :
      (guid node : ℕ) (nodes : Map ℕ) (s : GroupInfo × NetInfo)
      → ((s' : GroupInfo × NetInfo) → Walked nodes s')
      → (seen : Seen) → look s.0 s.1 node ≡ seen
      → Walked ((guid, node) ∷ nodes) s
  walk_first guid node nodes s rest gone e =
      inl (ground (arith, e), traverse_gone step guid node nodes s (hand_out-gone node s e))
  walk_first guid node nodes s rest not_a_user e = inr (
    [],
    s,
    ground (arith, e),
    traverse_stops step guid node nodes s s (hand_out-not_a_user node s e),
    nothing-Sent s,
  )
  walk_first guid node nodes s rest unconnected e =
      let (s1, h) = hand_out_on node s (ground (arith, e)) (ground (arith, e)) in
      let sent = hand_out-unconnected node s s1 e h in
      goes_on guid node nodes s s1 [] h
        (hand_out-Sent node s s1 true h [] (sent ∙ sym (append-nil s.1.sent)))
        (λ r c. ground (arith, e, c)) (rest s1)
  walk_first guid node nodes s rest (connected conn) e =
      let (s1, h) = hand_out_on node s (ground (arith, e)) (ground (arith, e)) in
      goes_on guid node nodes s s1 ((conn, bytes) ∷ []) h
        (hand_out-Sent node s s1 true h ((conn, bytes) ∷ [])
          (hand_out-connected node conn s s1 e h))
        (λ r c. ground (arith, e, c)) (rest s1)

  walked : (nodes : Map ℕ) (s : GroupInfo × NetInfo) → Walked nodes s
  unfolding traverse
  walked [] s = inr ([], s, refl, refl, nothing-Sent s)
  walked ((guid, node) ∷ nodes) s =
      walk_first guid node nodes s (walked nodes) (look s.0 s.1 node) refl

  -- Both walks.
  walk-both :
      (g : GroupInfo) (n : NetInfo)
      → let planned =
          both (copies (look g n) bytes g.managers_map) (copies (look g n) bytes g.members_map) in
        ((planned ≡ none) × (walk step g (g, n) ≡ none))
        ⊎ ((copied : List (ℕ × Bytes)) × (s' : GroupInfo × NetInfo) × (planned ≡ some copied)
            × (walk step g (g, n) ≡ some s')
            × (s'.1.sent ≡ n.sent ++ copied))
  unfolding walk traverse_all_members traverse_managers traverse_normal_members
  walk-both g n = elim (walked g.managers_map (g, n)) [
    | inl (c, t) ↦ inl (ground (arith, c), rw t (traverse_undefined step g.members_map))
    | inr (a, s1, c, t, p) ↦
        let same = copies_same (look s1.0 s1.1) (look g n) bytes g.members_map p.looks in
        elim (walked g.members_map s1) [
          | inl (c', t') ↦ inl (ground (arith, c, same, c'), rw t t')
          | inr (b, s2, c', t', q) ↦ inr (
            a ++ b,
            s2,
            ground (arith, c, same, c'),
            rw t t',
            (then-Sent (g, n) s1 s2 a b p q).sent,
          )
        ]
  ]

on_add_msg-maps :
    (msg : MsgInfo) (g : GroupInfo)
    → let g1 = (Group.on_add_msg msg g).0 in
      (g1.members_list ≡ g.members_list)
      × (g1.managers_map ≡ g.managers_map)
      × (g1.members_map ≡ g.members_map)
unfolding Group.on_add_msg push_msg
on_add_msg-maps msg g = (ground arith, ground arith, ground arith)

-- Where the packet of a message to a group can be made and is not empty: if one of the two walks
-- comes to an entry whose node is gone, post_group has no defined result; otherwise it has one,
-- and has sent exactly one copy on the connection of each connected manager and then of each
-- connected normal member, in the order of the maps, each walk up to the first entry whose
-- member is no user.
pub post_group-sent :
    (now : ℕ) (msg : MsgInfo) (g : GroupInfo) (n : NetInfo) (bytes : Bytes)
    → let (g1, msg', _) = Group.on_add_msg msg g in
      let planned =
        both (copies (look g n) bytes g.managers_map) (copies (look g n) bytes g.members_map) in
      msg_packet msg' ≡ some bytes
      → (length bytes == 0) ≡ false
      → (planned ≡ none → post_group now msg g n ≡ none)
        × ((copied : List (ℕ × Bytes))
            → planned ≡ some copied
            → (n' : NetInfo) × (post_group now msg g n ≡ some n') × (n'.sent ≡ n.sent ++ copied))
unfolding post_group
post_group-sent now msg g n bytes packed some_bytes =
    let (g1, msg', _) = Group.on_add_msg msg g in
    let maps = on_add_msg-maps msg g in
    let looks : (k : ℕ) → look g1 n k ≡ look g n k = λ k. rw (look, maps.0) refl in
    let managers = copies_same (look g1 n) (look g n) bytes g.managers_map looks in
    let members = copies_same (look g1 n) (look g n) bytes g.members_map looks in
    let walk = walk-both now msg' bytes some_bytes g1 n in
    let walk' = rw (maps.1, maps.2, managers, members) at walk in
    elim walk' [
      | inl (c, t) ↦ (λ p. ground (arith, packed, t), λ cs p. absurd (ground (arith, c, p)))
      | inr (cs, s, c, t, e) ↦ (
        λ p. absurd (ground (arith, c, p)),
        λ cs' p.
            let same : cs' ≡ cs = ground (arith, c, p) in
            (put_group msg.recv_guid s.0 s.1, ground (arith, packed, t), rw same e),
      )
    ]
