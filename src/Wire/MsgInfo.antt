-- ===== src/Wire/MsgInfo.antt =====
-- `class MsgInfo` of include/struct_def.h: a chat message, the one body of variable size.
use aim_to_v.Base.{
  ℕ, ◌+◌, ◌-◌, ◌≤◌, ◌<◌, ◌^◌, ◌≡◌, refl, List, [], ◌∷◌, ◌++◌, length as size, length-append, Option,
  none, some, Bool, true, ◌||◌, not, ltb, ltb-false, lt→ltb, if◌then◌else◌, take, take-append,
  arith,
}
use aim_to_v.Wire.Bytes.{
  Bytes, Reader, ◌>>=◌, pure, at, get_num, le_bytes, written, get_num-le_bytes, length-le_bytes,
  written-append,
}
use aim_to_v.Wire.Codec.{Codec}

pub record MsgInfo : Type 0 where
  pub send_guid : ℕ
  pub recv_guid : ℕ
  pub time_sec : ℕ
  pub msg_length : ℕ
  pub msg_num : ℕ
  pub msg_type : ℕ
  pub msg : Bytes

-- The fields hold what their C++ types can, and `msg_length` is the size of the text.
pub record MsgInfoFits (m : MsgInfo) : Type 0 where
  pub send_guid : m.send_guid < 256 ^ 4
  pub recv_guid : m.recv_guid < 256 ^ 4
  pub time_sec : m.time_sec < 256 ^ 4
  pub msg_length : m.msg_length < 256 ^ 4
  pub msg_num : m.msg_num < 256 ^ 2
  pub msg_type : m.msg_type < 256 ^ 1
  pub msg : size m.msg ≡ m.msg_length

-- `enum MSGTYPE`.
abbrev pub msg_type_all : ℕ
msg_type_all = 0

abbrev pub msg_type_group : ℕ
msg_type_group = 1

abbrev pub msg_type_user : ℕ
msg_type_user = 2

-- What the constructor leaves.
abbrev pub msg_info_init : MsgInfo
msg_info_init = record {
  send_guid = 0;
  recv_guid = 0;
  time_sec = 0;
  msg_length = 0;
  msg_num = 0;
  msg_type = 0;
  msg = [];
}

abbrev pub msg_info_length : ℕ
msg_info_length = 4 + 4 + 4 + 4 + 2 + 1

-- The reads of `from_data` before the text, which is left as it was.
unfoldable pub msg_info_read : MsgInfo → Reader MsgInfo
msg_info_read old = do
  send_guid ← get_num 4
  recv_guid ← get_num 4
  time_sec ← get_num 4
  msg_length ← get_num 4
  msg_num ← get_num 2
  msg_type ← get_num 1
  pure (record {
    send_guid = send_guid;
    recv_guid = recv_guid;
    time_sec = time_sec;
    msg_length = msg_length;
    msg_num = msg_num;
    msg_type = msg_type;
    msg = old.msg;
  })

-- `msg.assign((char *)data + index, (size_t)msg_length)`, if that many bytes are left.
unfoldable pub msg_info_from_data : Option Bytes → ℕ → MsgInfo → MsgInfo × ℕ
msg_info_from_data none len old = (old, 0)
msg_info_from_data (some src) len old =
    if ltb len msg_info_length
    then (old, 0)
    else (let (m, c) = msg_info_read old (at 0 src) in
        if ltb (len - msg_info_length) m.msg_length
        then (m, 0)
        else (record m { msg = take m.msg_length c.rest }, c.index + m.msg_length))

abbrev pub msg_info_head : MsgInfo → List Bytes
msg_info_head m =
    le_bytes 4 m.send_guid
    ∷ le_bytes 4 m.recv_guid
    ∷ le_bytes 4 m.time_sec
    ∷ le_bytes 4 m.msg_length
    ∷ le_bytes 2 m.msg_num
    ∷ le_bytes 1 m.msg_type
    ∷ []

unfoldable pub msg_info_to_data : Bool → ℕ → MsgInfo → Bytes
msg_info_to_data dst len m =
    if not dst || ltb len (msg_info_length + size m.msg)
    then []
    else written (msg_info_head m) m.msg

abbrev pub msg_info_total : MsgInfo → ℕ
msg_info_total m = msg_info_length + size m.msg

pub msg_info_reads_back :
    (m old : MsgInfo) (rest : Bytes)
    → MsgInfoFits m
    → msg_info_read old (at 0 (written (msg_info_head m) rest))
      ≡ (record m { msg = old.msg }, at msg_info_length rest)
unfolding msg_info_read
msg_info_reads_back m old rest f = simp (
  get_num-le_bytes 4 m.send_guid _ _ f.send_guid,
  get_num-le_bytes 4 m.recv_guid _ _ f.recv_guid,
  get_num-le_bytes 4 m.time_sec _ _ f.time_sec,
  get_num-le_bytes 4 m.msg_length _ _ f.msg_length,
  get_num-le_bytes 2 m.msg_num _ _ f.msg_num,
  get_num-le_bytes 1 m.msg_type _ _ f.msg_type,
)

msg_info_written :
    (m : MsgInfo) (room : ℕ)
    → msg_info_total m ≤ room
    → msg_info_to_data true room m ≡ written (msg_info_head m) m.msg
unfolding msg_info_to_data
msg_info_written m room h = rw (ltb-false room (msg_info_total m) h)

-- A message is read back from what was written, whatever follows it in the buffer.
pub msg_info_read_back :
    (m old : MsgInfo) (room len : ℕ) (rest : Bytes)
    → MsgInfoFits m
    → msg_info_total m ≤ room
    → msg_info_total m ≤ len
    → msg_info_from_data (some (msg_info_to_data true room m ++ rest)) len old
      ≡ (m, msg_info_total m)
unfolding msg_info_from_data
msg_info_read_back m old room len rest f hr hl = rw (
  msg_info_written m room hr,
  written-append (msg_info_head m) m.msg rest,
  msg_info_reads_back m old (m.msg ++ rest) f,
  ltb-false len msg_info_length (omega arith),
  ltb-false (len - msg_info_length) m.msg_length (omega (arith, f.msg)),
  take-append m.msg_length m.msg rest f.msg,
  f.msg,
)

pub length-msg_info_to_data :
    (m : MsgInfo) (room : ℕ)
    → MsgInfoFits m
    → msg_info_total m ≤ room
    → size (msg_info_to_data true room m) ≡ msg_info_total m
length-msg_info_to_data m room f h =
    rw (msg_info_written m room h) (simp (length-append, length-le_bytes) (omega arith))

-- A text that is cut short is refused, though the fields before it have been overwritten.
pub msg_info_cut_short :
    (m old : MsgInfo) (len : ℕ) (rest : Bytes)
    → MsgInfoFits m
    → msg_info_length ≤ len
    → len < msg_info_total m
    → msg_info_from_data (some (written (msg_info_head m) rest)) len old
      ≡ (record m { msg = old.msg }, 0)
unfolding msg_info_from_data
msg_info_cut_short m old len rest f hl hs = rw (
  msg_info_reads_back m old rest f,
  ltb-false len msg_info_length hl,
  lt→ltb (len - msg_info_length) m.msg_length (omega (arith, f.msg)),
)

pub msg_info_no_room :
    (m : MsgInfo) (dst : Bool) (room : ℕ)
    → room < msg_info_length
    → msg_info_to_data dst room m ≡ []
unfolding msg_info_to_data
msg_info_no_room m dst room h = ground arith

pub msg_info_short :
    (src : Option Bytes) (len : ℕ) (old : MsgInfo)
    → len < msg_info_length
    → msg_info_from_data src len old ≡ (old, 0)
unfolding msg_info_from_data
msg_info_short none len old h = refl
msg_info_short (some src) len old h = rw (lt→ltb len msg_info_length h)

unfoldable pub msg_info : Codec MsgInfo
msg_info = record {
  length = λ _. msg_info_length;
  from_data = msg_info_from_data;
  to_data = msg_info_to_data;
  total = msg_info_total;
  Fits = MsgInfoFits;
  length-le-total = λ m. omega arith;
  read_back = msg_info_read_back;
  length-to_data = length-msg_info_to_data;
  no_room = msg_info_no_room;
  short_input = msg_info_short;
}
