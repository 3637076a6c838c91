-- ===== src/Wire/MsgListRestore.antt =====
-- What `ClientMsgListAck` writes, it reads back.
use aim_to_v.Base.{
  ℕ, suc, ◌+◌, ◌-◌, ◌*◌, ◌%◌, ◌^◌, ◌≤◌, ◌<◌, ◌≡◌, refl, List, [], ◌∷◌, ◌++◌, length, length-append,
  drop-append, append_assoc, drop_all, some, true, ltb-false, arith, append-nil, zero, ap, ◌∙◌, sym,
}
use native.Mathlib.Nat.{zero-add}
use aim_to_v.Wire.Bytes.{Bytes, at, le_bytes, get_num-le_bytes, length-le_bytes}
use aim_to_v.Wire.MsgInfo.{
  MsgInfo, MsgInfoFits, msg_info_init, msg_info_total, msg_info_to_data, msg_info_read_back,
  length-msg_info_to_data,
}
use aim_to_v.Wire.MsgList.{
  ClientMsgListAck, client_msg_list_ack_init, append_msg, max, client_msg_list_ack_length, resize,
  write_msgs, put_sizes, size_bytes, client_msg_list_ack_to_data, read_sizes, read_msgs,
  client_msg_list_ack_from_data, listed,
}

abbrev pub AllMsgsFit : List MsgInfo → Type 0
AllMsgsFit [] = Unit {0}
AllMsgsFit (m ∷ ms) = MsgInfoFits m × AllMsgsFit ms

-- The bytes that all messages take.
abbrev pub msgs_total : List MsgInfo → ℕ
msgs_total [] = 0
msgs_total (m ∷ ms) = msg_info_total m + msgs_total ms

-- The loop of `to_data` where there is room for everything.
unfoldable pub msgs_bytes : List MsgInfo → Bytes
msgs_bytes [] = []
msgs_bytes (m ∷ ms) = msg_info_to_data true (msg_info_total m) m ++ msgs_bytes ms

unfoldable pub msgs_sizes : List MsgInfo → List ℕ
msgs_sizes [] = []
msgs_sizes (m ∷ ms) = msg_info_total m ∷ msgs_sizes ms

msg_room :
    (m : MsgInfo) (room : ℕ)
    → msg_info_total m ≤ room
    → msg_info_to_data true room m ≡ msg_info_to_data true (msg_info_total m) m
unfolding msg_info_to_data
msg_room m room h = rw (
  ltb-false room (msg_info_total m) h,
  ltb-false (msg_info_total m) (msg_info_total m) (omega arith),
)

write_msgs_whole :
    (ms : List MsgInfo) (room : ℕ)
    → AllMsgsFit ms
    → msgs_total ms ≤ room
    → write_msgs ms room ≡ (msgs_sizes ms, msgs_bytes ms)
unfolding write_msgs msgs_sizes msgs_bytes
write_msgs_whole [] room f h = refl
write_msgs_whole (m ∷ ms) room f h = rw (
  msg_room m room (omega arith),
  length-msg_info_to_data m (msg_info_total m) f.0 (omega arith),
  write_msgs_whole ms (room - msg_info_total m) f.1 (omega arith),
)

length-msgs_sizes : (ms : List MsgInfo) → length (msgs_sizes ms) ≡ length ms
unfolding msgs_sizes
length-msgs_sizes [] = refl
length-msgs_sizes (m ∷ ms) = ap suc (length-msgs_sizes ms)

-- `vecs` is new, so it holds the sizes and nothing else.
put_sizes_all :
    (sizes vecs : List ℕ) → length vecs ≡ length sizes → put_sizes 0 sizes vecs ≡ some sizes
unfolding put_sizes
put_sizes_all sizes vecs e = rw (
  zero-add (length sizes),
  ltb-false (length vecs) (length sizes) (omega (arith, e)),
  ← e,
  drop_all vecs,
  append-nil,
)

abbrev pub SmallSizes : List ℕ → Type 0
SmallSizes [] = Unit {0}
SmallSizes (n ∷ ns) = (n < 256 ^ 4) × SmallSizes ns

read_sizes-size_bytes :
    (ns : List ℕ) (i j : ℕ) (rest : Bytes)
    → SmallSizes ns
    → i + 4 * length ns ≡ j
    → read_sizes (length ns) (at i (size_bytes ns ++ rest)) ≡ (ns, at j rest)
unfolding read_sizes size_bytes
read_sizes-size_bytes [] i j rest f e = let e' : i ≡ j = omega (arith, e) in rw e' refl
read_sizes-size_bytes (n ∷ ns) i j rest f e = rw (
  append_assoc (le_bytes 4 n) (size_bytes ns) rest,
  get_num-le_bytes 4 n i (size_bytes ns ++ rest) f.0,
  read_sizes-size_bytes ns (i + 4) j rest f.1 (omega (arith, e)),
)

append_msg-msg_list :
    (m : MsgInfo) (a : ClientMsgListAck) → (append_msg m a).msg_list ≡ a.msg_list ++ m ∷ []
unfolding append_msg
append_msg-msg_list m a = refl

read_msgs-msgs_bytes :
    (ms : List MsgInfo) (len index : ℕ) (rest : Bytes) (a : ClientMsgListAck)
    → AllMsgsFit ms
    → index + msgs_total ms ≤ len
    → len < 2 ^ 32
    → let (a', index') = read_msgs (msgs_sizes ms) (msgs_bytes ms ++ rest) len index a in
      (a'.msg_list ≡ a.msg_list ++ ms) × (index' ≡ index + msgs_total ms)
unfolding read_msgs msgs_sizes msgs_bytes
read_msgs-msgs_bytes [] len index rest a f h small = (rw append-nil, omega arith)
read_msgs-msgs_bytes (m ∷ ms) len index rest a f h small =
    let bytes : Bytes = msg_info_to_data true (msg_info_total m) m in
    let later =
      read_msgs-msgs_bytes ms len (index + msg_info_total m) rest (append_msg m a) f.1 (omega arith)
        small in
    rw
      (
        append_assoc bytes (msgs_bytes ms) rest,
        msg_info_read_back m msg_info_init (msg_info_total m) (len - index) (msgs_bytes ms ++ rest)
            f.0 (omega arith) (omega arith),
        drop-append (msg_info_total m) bytes (msgs_bytes ms ++ rest)
            (length-msg_info_to_data m (msg_info_total m) f.0 (omega arith)),
        ltb-false len ((index + msg_info_total m) % 2 ^ 32) (omega arith),
      )
      (
        later.0
            ∙ (ap (λ l. l ++ ms) (append_msg-msg_list m a) ∙ append_assoc a.msg_list (m ∷ []) ms),
        omega (arith, later.1),
      )

appended :
    (ms : List MsgInfo) (m : MsgInfo)
    → length ms + 1 < 2 ^ 32
    → append_msg m (listed ms) ≡ listed (ms ++ m ∷ [])
unfolding append_msg listed
appended ms m h =
    let e : (length ms + 1) % 2 ^ 32 ≡ length ms + 1 = omega arith in
    rw (length-append ms (m ∷ []), e)

small-msgs_sizes : (ms : List MsgInfo) → msgs_total ms < 2 ^ 32 → SmallSizes (msgs_sizes ms)
unfolding msgs_sizes
small-msgs_sizes [] h = tt
small-msgs_sizes (m ∷ ms) h = (omega arith, small-msgs_sizes ms (omega arith))

length-msgs_bytes : (ms : List MsgInfo) → AllMsgsFit ms → length (msgs_bytes ms) ≡ msgs_total ms
unfolding msgs_bytes
length-msgs_bytes [] f = refl
length-msgs_bytes (m ∷ ms) f = omega (
  arith,
  length-append (msg_info_to_data true (msg_info_total m) m) (msgs_bytes ms),
  length-msg_info_to_data m (msg_info_total m) f.0 (omega arith),
  length-msgs_bytes ms f.1,
)

length-size_bytes : (ns : List ℕ) → length (size_bytes ns) ≡ 4 * length ns
unfolding size_bytes
length-size_bytes [] = refl
length-size_bytes (n ∷ ns) =
    omega (
      arith,
      length-append (le_bytes 4 n) (size_bytes ns),
      length-le_bytes 4 n,
      length-size_bytes ns,
    )

-- What a list of messages takes: the number, the sizes, and the messages.
abbrev pub listed_total : List MsgInfo → ℕ
listed_total ms = 4 + 4 * length ms + msgs_total ms

max-zero' : (n : ℕ) → max n 0 ≡ n
max-zero' n = ground arith

max-zero : (n : ℕ) → max 0 n ≡ n
max-zero n = ground arith

length-resize : (n : ℕ) → length (resize n []) ≡ n
length-resize zero = refl
length-resize (suc n) = ap suc (length-resize n)

to_data-listed :
    (ms : List MsgInfo) (room : ℕ)
    → AllMsgsFit ms
    → listed_total ms ≤ room
    → listed_total ms < 2 ^ 32
    → client_msg_list_ack_to_data true room (listed ms)
      ≡ some (
        record (listed ms) { vecs = msgs_sizes ms; vec_size = length ms },
        le_bytes 4 (length ms) ++ (size_bytes (msgs_sizes ms) ++ msgs_bytes ms),
      )
unfolding client_msg_list_ack_to_data client_msg_list_ack_length listed
to_data-listed ms room f h small =
    let head : (4 + 4 * length ms) % 2 ^ 32 ≡ 4 + 4 * length ms = omega arith in
    let fresh : length (resize (length ms) []) ≡ length (msgs_sizes ms) =
      length-resize (length ms) ∙ sym (length-msgs_sizes ms) in
    simp (
      max-zero (length ms),
      head,
      ltb-false room (4 + 4 * length ms) (omega arith),
      write_msgs_whole ms (room - (4 + 4 * length ms)) f (omega arith),
      put_sizes_all (msgs_sizes ms) (resize (length ms) []) fresh,
      length-msgs_sizes ms,
      zero-add,
    )

from_data-listed :
    (ms : List MsgInfo) (len : ℕ) (rest : Bytes)
    → AllMsgsFit ms
    → listed_total ms ≤ len
    → len < 2 ^ 32
    → let bytes = le_bytes 4 (length ms) ++ (size_bytes (msgs_sizes ms) ++ msgs_bytes ms) in
      let (b, index) =
        client_msg_list_ack_from_data (some (bytes ++ rest)) len client_msg_list_ack_init in
      (b.msg_list ≡ ms) × (index ≡ listed_total ms)
unfolding client_msg_list_ack_from_data client_msg_list_ack_length
from_data-listed ms len rest f h small =
    let sizes : List ℕ = msgs_sizes ms in
    let e : length sizes ≡ length ms = length-msgs_sizes ms in
    let head : (4 + 4 * length ms) % 2 ^ 32 ≡ 4 + 4 * length ms = omega arith in
    let read : read_sizes (length ms) (at 4 (size_bytes sizes ++ (msgs_bytes ms ++ rest)))
        ≡ (sizes, at (4 + 4 * length ms) (msgs_bytes ms ++ rest)) =
      rw (← e) (
        read_sizes-size_bytes sizes 4 (4 + 4 * length sizes) (msgs_bytes ms ++ rest)
          (small-msgs_sizes ms (omega arith)) refl) in
    rw
      (
        append_assoc (le_bytes 4 (length ms)) (size_bytes sizes ++ msgs_bytes ms) rest,
        append_assoc (size_bytes sizes) (msgs_bytes ms) rest,
        get_num-le_bytes 4 (length ms) 0 (size_bytes sizes ++ (msgs_bytes ms ++ rest))
            (omega arith),
        zero-add 4,
        read,
        ltb-false len 4 (omega arith),
        max-zero' (length ms),
        head,
        ltb-false len (4 + 4 * length ms) (omega arith),
      )
      (read_msgs-msgs_bytes ms len (4 + 4 * length ms) rest
        (record { vec_size = length ms; vecs = sizes; list_size = 0; msg_list = [] }) f
        (omega arith) small)

-- A list of messages that fit their types, put into a new ClientMsgListAck and written into a
-- buffer that is large enough, is read back from enough bytes, fewer than 2 ^ 32, whatever
-- follows it: the same messages in the same order, and the index and the number of bytes
-- written are the size of the list.
pub msg_list_restored :
    (ms : List MsgInfo) (room len : ℕ) (rest : Bytes)
    → AllMsgsFit ms
    → listed_total ms ≤ room
    → listed_total ms ≤ len
    → len < 2 ^ 32
    → (a : ClientMsgListAck) × (bytes : Bytes) × (client_msg_list_ack_to_data true room (listed ms)
        ≡ some (a, bytes))
      × (length bytes ≡ listed_total ms)
      × (let (b, index) =
            client_msg_list_ack_from_data (some (bytes ++ rest)) len client_msg_list_ack_init in
          (b.msg_list ≡ ms) × (index ≡ listed_total ms))
msg_list_restored ms room len rest f hr hl small =
    let bytes : Bytes = le_bytes 4 (length ms) ++ (size_bytes (msgs_sizes ms) ++ msgs_bytes ms) in
    let n = length-append (le_bytes 4 (length ms)) (size_bytes (msgs_sizes ms) ++ msgs_bytes ms) in
    let n' = length-append (size_bytes (msgs_sizes ms)) (msgs_bytes ms) in
    (
      record (listed ms) { vecs = msgs_sizes ms; vec_size = length ms },
      bytes,
      to_data-listed ms room f hr (omega arith),
      omega (
        arith,
        n,
        n',
        length-le_bytes 4 (length ms),
        length-size_bytes (msgs_sizes ms),
        length-msgs_sizes ms,
        length-msgs_bytes ms f,
      ),
      from_data-listed ms len rest f hl small,
    )
