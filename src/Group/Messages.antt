-- ===== src/Group/Messages.antt =====
-- The message log of a group: its bound, its numbering, and deletion from it.
use aim_to_v.Base.{
  ℕ, zero, suc, ◌+◌, ◌-◌, ◌≤◌, ◌≡◌, ◌≢◌, refl, ap, true, ◌==◌, if◌then◌else◌, Option, none, some,
  List, [], ◌∷◌, ◌++◌, length, length-append, drop, get_last?, arith, ltb, ltb-false, lt→ltb,
  Bool-cases, inl, inr, Option-cases, ==_iff, dec_lt,
}
use aim_to_v.Wire.MsgInfo.{MsgInfo, msg_type_group}
use aim_to_v.Group.{
  GroupInfo, group_msgs_max_len, next_num, numbered, push_msg, on_add_msg, erase_last,
  on_delete_msg, clear_msg,
}

-- The counter is the length of the log, and the log is within its limit.
pub record IsBounded (g : GroupInfo) : Type 0 where
  pub counted : g.msg_limit ≡ length g.msg_list
  pub bounded : length g.msg_list ≤ group_msgs_max_len

length-drop_one {ℓ} : {A : Type ℓ} (xs : List A) → length (drop 1 xs) ≡ length xs - 1
length-drop_one [] = omega arith
length-drop_one (x ∷ xs) = omega arith

-- A new message goes to the end, and the oldest ones go where the limit is passed.
push_msg_lem :
    (msg : MsgInfo) (g : GroupInfo)
    → IsBounded g
    → push_msg msg g ≡ (
        if ltb (length g.msg_list) group_msgs_max_len
        then record g { msg_list = g.msg_list ++ msg ∷ []; msg_limit = length g.msg_list + 1 }
        else record g {
          msg_list = drop 1 (g.msg_list ++ msg ∷ []);
          msg_limit = group_msgs_max_len;
        })
unfolding push_msg
push_msg_lem msg g b = ground arith

push_msg-IsBounded : (msg : MsgInfo) (g : GroupInfo) → IsBounded g → IsBounded (push_msg msg g)
unfolding push_msg
push_msg-IsBounded msg g b =
    ground (arith, length-append g.msg_list (msg ∷ []), length-drop_one (g.msg_list ++ msg ∷ []))

pub on_add_msg-IsBounded :
    (msg : MsgInfo) (g : GroupInfo) → IsBounded g → IsBounded (on_add_msg msg g).0
unfolding on_add_msg
on_add_msg-IsBounded msg g b = ground (arith, push_msg-IsBounded (numbered msg g.msg_list) g b)

length-erase_last :
    (num : ℕ) (ms : List MsgInfo) {rest : List MsgInfo}
    → erase_last num ms ≡ some rest
    → length rest + 1 ≡ length ms
unfolding erase_last
length-erase_last num [] e = cc
length-erase_last num (m ∷ ms) e = elim (Option-cases (erase_last num ms)) [
  | inl h ↦ ground arith
  | inr (r, h) ↦ ground (arith, length-erase_last num ms h)
]

pub on_delete_msg-IsBounded :
    (operator num : ℕ) (g : GroupInfo) → IsBounded g → IsBounded (on_delete_msg operator num g).0
unfolding on_delete_msg
on_delete_msg-IsBounded operator num g b = elim (Option-cases (erase_last num g.msg_list)) [
  | inl h ↦ ground arith
  | inr (r, h) ↦ ground (arith, length-erase_last num g.msg_list h)
]

pub clear_msg-IsBounded :
    (operator : ℕ) (g : GroupInfo) → IsBounded g → IsBounded (clear_msg operator g).0
unfolding clear_msg
clear_msg-IsBounded operator g b = ground arith

-- No message of that number.
abbrev pub Lacks : ℕ → List MsgInfo → Type 0
Lacks num [] = Unit {0}
Lacks num (m ∷ ms) = (m.msg_num ≢ num) × Lacks num ms

-- What a scan from the back may do with the log: nothing, where no message has the number, or take
-- out one message of that number that no other one of it follows.
pub data Erased (num : ℕ) (ms : List MsgInfo) : Option (List MsgInfo) → Type 0 where
  absent : Lacks num ms → Erased num ms none
  found :
      (front : List MsgInfo) (m : MsgInfo) (back : List MsgInfo)
      → ms ≡ front ++ m ∷ back
      → m.msg_num ≡ num
      → Lacks num back
      → Erased num ms (some (front ++ back))

Erased-cons :
    (num : ℕ) (m : MsgInfo) (ms : List MsgInfo) {o : Option (List MsgInfo)}
    → Erased num ms o
    → Erased num
        (m ∷ ms)
        (elim o [ some rest ↦ some (m ∷ rest) | none ↦ if m.msg_num == num then some ms else none ])
Erased-cons num m ms (absent lacks) = elim (Bool-cases (m.msg_num == num)) [
  | inl e ↦ rw e (found [] m ms refl ((==_iff m.msg_num num).0 e) lacks)
  | inr e ↦ rw e (absent (ground arith, lacks))
]
Erased-cons num m ms (found front x back e same lacks) =
    found (m ∷ front) x back (ap (◌∷◌ m) e) same lacks

-- The scan finds the last message of the number, if there is one, and takes out that one alone.
pub erase_last-Erased : (num : ℕ) (ms : List MsgInfo) → Erased num ms (erase_last num ms)
unfolding erase_last
erase_last-Erased num [] = absent tt
erase_last-Erased num (m ∷ ms) = Erased-cons num m ms (erase_last-Erased num ms)

get_last?-drop :
    (n : ℕ) (xs : List MsgInfo) (m : MsgInfo)
    → n ≤ length xs
    → get_last? (drop n (xs ++ m ∷ [])) ≡ some m
get_last?-drop zero [] m h = refl
get_last?-drop zero (x ∷ xs) m h = rw (get_last?-drop zero xs m (omega arith))
get_last?-drop (suc n) [] m h = absurd (omega arith)
get_last?-drop (suc n) (x ∷ xs) m h = get_last?-drop n xs m (omega arith)

newest : MsgInfo → List MsgInfo → List MsgInfo
newest m ms = drop (length ms + 1 - group_msgs_max_len) (ms ++ m ∷ [])

push_msg-newest :
    (m : MsgInfo) (g : GroupInfo)
    → IsBounded g
    → push_msg m g
      ≡ record g { msg_list = newest m g.msg_list; msg_limit = length (newest m g.msg_list) }
unfolding newest
push_msg-newest m g b = elim (dec_lt (length g.msg_list) group_msgs_max_len) [
  | yes h ↦
      let e : length g.msg_list + 1 - group_msgs_max_len ≡ 0 = omega arith in
      rw (
        push_msg_lem m g b,
        lt→ltb (length g.msg_list) group_msgs_max_len h,
        e,
        length-append g.msg_list (m ∷ []),
      )
  | no h ↦
      let e : length g.msg_list + 1 - group_msgs_max_len ≡ 1 = omega (arith, b.bounded) in
      let full : length g.msg_list ≡ group_msgs_max_len = omega (arith, b.bounded) in
      rw (
        push_msg_lem m g b,
        ltb-false (length g.msg_list) group_msgs_max_len (omega arith),
        e,
        length-drop_one (g.msg_list ++ m ∷ []),
        length-append g.msg_list (m ∷ []),
        full,
      )
]

numbered_num :
    (msg : MsgInfo) (ms : List MsgInfo)
    → (numbered msg ms).msg_num ≡ (if msg.msg_num == 0 then next_num ms else msg.msg_num)
numbered_num msg ms = ground arith

on_add_msg_taken :
    (msg : MsgInfo) (g : GroupInfo)
    → msg.msg_type ≡ msg_type_group
    → g.group_guid ≡ msg.recv_guid
    → on_add_msg msg g ≡ (push_msg (numbered msg g.msg_list) g, numbered msg g.msg_list, true)
unfolding on_add_msg
on_add_msg_taken msg g t r = ground arith

-- A group message for this group is taken: numbered after the last one unless it brings a number,
-- and put at the end of the log, of which the newest `group_msgs_max_len` are kept. Nothing else of
-- the group changes.
pub on_add_msg_lem :
    (msg : MsgInfo) (g : GroupInfo)
    → IsBounded g
    → msg.msg_type ≡ msg_type_group
    → g.group_guid ≡ msg.recv_guid
    → let (g', msg', taken) = on_add_msg msg g in
      (taken ≡ true)
      × (msg'.msg_num ≡ (if msg.msg_num == 0 then next_num g.msg_list else msg.msg_num))
      × (g'.msg_list ≡ drop (length g.msg_list + 1 - group_msgs_max_len) (g.msg_list ++ msg' ∷ []))
      × (get_last? g'.msg_list ≡ some msg')
      × (g' ≡ record g { msg_list = g'.msg_list; msg_limit = length g'.msg_list })
on_add_msg_lem msg g b t r =
    let m : MsgInfo = numbered msg g.msg_list in
    rw (on_add_msg_taken msg g t r, push_msg-newest m g b)
      (
        refl,
        numbered_num msg g.msg_list,
        unfold newest in refl,
        unfold newest in
            get_last?-drop (length g.msg_list + 1 - group_msgs_max_len) g.msg_list m
              (omega (arith, b.bounded)),
        refl,
      )
