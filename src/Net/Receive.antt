-- ===== src/Net/Receive.antt =====
-- What `common::read_thread` does with the bytes of one `read`: the buffer, the packets in it, and
-- what is kept for the next time. All connections share the one buffer.
use aim_to_v.Base.{
  ℕ, zero, suc, ◌+◌, ◌-◌, ◌%◌, ◌^◌, Bool, true, false, ltb, leb, ◌==◌, if◌then◌else◌, Option, none,
  some, ◌++◌, length, take, drop,
}
use aim_to_v.Base.Map.{contains}
use aim_to_v.Base.Outcome.{Outcome, done, undefined, out_of_fuel, continue}
use aim_to_v.Wire.Bytes.{Bytes}
use aim_to_v.Wire.Package.{RecvMsgPkg, head_length, fill_head}
use aim_to_v.Net.{NetInfo, max_buf_size}
use aim_to_v.Net.Accounts.{Host}
use aim_to_v.Net.Dispatch.{parse_msg}

-- The locals of the thread that outlive a read: `buf`, `buf_index` and `temp_recv_msg`.
pub record Input : Type 0 where
  pub buf : Bytes
  pub buf_index : ℕ
  pub head : RecvMsgPkg
  pub net : NetInfo

-- And those of one read.
pub record Scan : Type 0 where
  pub input : Input
  pub nread : ℕ
  pub read_index : ℕ

abbrev pub is_known : ℕ → NetInfo → Bool
is_known guid n = elim (contains guid n.users_map) [
  | true ↦ true
  | false ↦ contains guid n.groups_map
]

-- The place, the amount and the buffer's index after a failure of `parse_msg`.
abbrev pub give_up : NetInfo → Scan → Scan
give_up n s = record s {
  input = record s.input { net = n; buf_index = 0 };
  nread = 0;
  read_index = 0;
}

abbrev pub advance : NetInfo → ℕ → Scan → Scan
advance n index s = record s {
  input = record s.input { net = n };
  nread = s.nread - index;
  read_index = s.read_index + index;
}

-- A packet that the head calls complete; `false` leaves the loop. An index beyond the bytes that were
-- read makes `nread` negative, which the test of the loop takes for a huge number: `none`.
unfoldable pub take_packet : Host → ℕ → Scan → Option (Scan × Bool)
take_packet host fd s =
    elim (parse_msg host (drop s.read_index s.input.buf) fd s.input.head s.input.net) [
      | none ↦ none
      | some (n, index) ↦
          if ltb s.nread index
          then none
          else (if index == 0 then some (give_up n s, false) else some (advance n index s, true))
    ]

-- One round of `while (nread > recv_msg_head_length)`. The head is read at the start of the buffer.
unfoldable pub scan_round : Host → ℕ → Scan → Option (Scan × Bool)
scan_round host fd s =
    let head = (fill_head (some s.input.buf) s.nread s.input.head).0 in
    let s' = record s { input = record s.input { head = head } } in
    if leb ((head.sub_pkg_data_length + head_length) % 2 ^ 32) s.nread
    then take_packet host fd s'
    else (if is_known head.pkg_sender_guid s.input.net
        then some (s', false)
        else some
            (record s' { input = record s'.input { buf_index = max_buf_size }; nread = 0 }, true))

unfoldable pub scan : ℕ → Host → ℕ → Scan → Outcome Scan
scan zero host fd s = if ltb head_length s.nread then out_of_fuel else done s
scan (suc fuel) host fd s =
    let next : Outcome Scan =
      continue (scan_round host fd s)
        λ (s', more). elim more [ true ↦ scan fuel host fd s' | false ↦ done s' ] in
    if ltb head_length s.nread then next else done s

-- What the loop leaves is moved to the front.
unfoldable pub settle : Scan → Input
settle s =
    let start = if ltb s.input.buf_index s.read_index then 0 else s.input.buf_index in
    let moved =
      if s.read_index == 0
      then s.input.buf
      else take s.nread (drop s.read_index s.input.buf) ++ drop s.nread s.input.buf in
    let index = start + s.nread in
    record s.input { buf = moved; buf_index = if index == max_buf_size then 0 else index }

-- `read(fd, buf + buf_index, ...)` has put a chunk into the buffer.
abbrev pub filled : Bytes → Input → Bytes
filled chunk input =
    take input.buf_index input.buf ++ (chunk ++ drop (input.buf_index + length chunk) input.buf)

-- The loop starts at the front of the buffer, with the length of the chunk.
abbrev pub started : Bytes → Input → Scan
started chunk input = record {
  input = record input { buf = filled chunk input };
  nread = length chunk;
  read_index = 0;
}

unfoldable pub receive : Host → ℕ → Bytes → Input → Outcome Input
receive host fd chunk input = elim (scan (length chunk) host fd (started chunk input)) [
  | done s ↦ done (settle s)
  | undefined ↦ undefined
  | out_of_fuel ↦ out_of_fuel
]
