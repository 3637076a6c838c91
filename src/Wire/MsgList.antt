-- ===== src/Wire/MsgList.antt =====
-- `class ClientMsgListAck` of include/struct_def.h: a list of chat messages, with the number of bytes
-- of each in front of them.
use aim_to_v.Base.{
  ℕ, suc, ◌+◌, ◌-◌, ◌*◌, ◌%◌, ◌^◌, List, [], ◌∷◌, ◌++◌, length, take, drop, replicate, Option, none,
  some, Bool, true, ◌||◌, not, ltb, if◌then◌else◌, zero,
}
use aim_to_v.Wire.Bytes.{Bytes, Reader, ◌>>=◌, pure, at, get_num, le_bytes}
use aim_to_v.Wire.MsgInfo.{MsgInfo, msg_info_init, msg_info_from_data, msg_info_to_data}

pub record ClientMsgListAck : Type 0 where
  pub vec_size : ℕ
  pub vecs : List ℕ
  pub list_size : ℕ
  pub msg_list : List MsgInfo

-- The constructor.
abbrev pub client_msg_list_ack_init : ClientMsgListAck
client_msg_list_ack_init = record { vec_size = 0; vecs = []; list_size = 0; msg_list = [] }

unfoldable pub append_msg : MsgInfo → ClientMsgListAck → ClientMsgListAck
append_msg msg a = record a {
  msg_list = a.msg_list ++ msg ∷ [];
  list_size = (a.list_size + 1) % 2 ^ 32;
}

-- `common::max`
abbrev pub max : ℕ → ℕ → ℕ
max a b = if ltb a b then b else a

unfoldable pub client_msg_list_ack_length : ClientMsgListAck → ℕ
client_msg_list_ack_length a = (4 + 4 * max a.vec_size a.list_size) % 2 ^ 32

-- `vecs.resize(n)`
abbrev pub resize : ℕ → List ℕ → List ℕ
resize n xs = take n (xs ++ replicate n 0)

-- The loop over `msg_list`: the sizes that `to_data` of each message returns, and their bytes.
unfoldable pub write_msgs : List MsgInfo → ℕ → List ℕ × Bytes
write_msgs [] room = ([], [])
write_msgs (m ∷ ms) room =
    let bytes = msg_info_to_data true room m in
    let (sizes, rest) = write_msgs ms (room - length bytes) in (length bytes ∷ sizes, bytes ++ rest)

-- `vecs[vec_size++] = tmp_i` for one size after the other; `none` is a write behind the end.
unfoldable pub put_sizes : ℕ → List ℕ → List ℕ → Option (List ℕ)
put_sizes pos sizes vecs =
    if ltb (length vecs) (pos + length sizes)
    then none
    else some (take pos vecs ++ (sizes ++ drop (pos + length sizes) vecs))

-- The sizes, each in four bytes.
unfoldable pub size_bytes : List ℕ → Bytes
size_bytes [] = []
size_bytes (n ∷ ns) = le_bytes 4 n ++ size_bytes ns

-- The object afterwards and the bytes, whose number is the index that is returned; `none` is
-- undefined behaviour.
unfoldable pub client_msg_list_ack_to_data :
    Bool → ℕ → ClientMsgListAck → Option (ClientMsgListAck × Bytes)
client_msg_list_ack_to_data dst len a =
    if not dst || ltb len (client_msg_list_ack_length a)
    then some (a, [])
    else (let (sizes, body) = write_msgs a.msg_list (len - (4 + 4 * a.list_size) % 2 ^ 32) in
        elim (put_sizes a.vec_size sizes (resize a.list_size a.vecs)) [
          | none ↦ none
          | some vecs ↦ some (
            record a { vecs = vecs; vec_size = a.vec_size + length sizes },
            le_bytes 4 a.list_size ++ (size_bytes vecs ++ body),
          )
        ])

-- `vecs.assign(arr_data, arr_data + vec_size)`
unfoldable pub read_sizes : ℕ → Reader (List ℕ)
read_sizes zero = pure []
read_sizes (suc n) = do size ← get_num 4; sizes ← read_sizes n; pure (size ∷ sizes)

-- The loop over `vecs`: `src` is `data + index`. An item that is not there in full ends it with 0.
unfoldable pub read_msgs : List ℕ → Bytes → ℕ → ℕ → ClientMsgListAck → ClientMsgListAck × ℕ
read_msgs [] src len index a = (a, index)
read_msgs (item ∷ items) src len index a =
    let (msg, n) = msg_info_from_data (some src) (len - index) msg_info_init in
    let rest = read_msgs items (drop n src) len (index + n) (append_msg msg a) in
    if ltb len ((index + item) % 2 ^ 32) then (a, 0) else rest

unfoldable pub client_msg_list_ack_from_data :
    Option Bytes → ℕ → ClientMsgListAck → ClientMsgListAck × ℕ
client_msg_list_ack_from_data none len a = (a, 0)
client_msg_list_ack_from_data (some src) len a =
    if ltb len 4
    then (a, 0)
    else (let (n, c) = get_num 4 (at 0 src) in
        let (sizes, c') = read_sizes n c in
        let index = (4 + 4 * n) % 2 ^ 32 in
        let a' = record a { vec_size = n; vecs = resize n a.vecs } in
        if ltb len (client_msg_list_ack_length a')
        then (a', index)
        else read_msgs sizes c'.rest len index (record a' { vecs = sizes }))

-- What the calls of `append_msg` on a new object lead to.
unfoldable pub listed : List MsgInfo → ClientMsgListAck
listed msgs = record client_msg_list_ack_init { list_size = length msgs; msg_list = msgs }
