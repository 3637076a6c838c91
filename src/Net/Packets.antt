-- ===== src/Net/Packets.antt =====
-- Which packets the loop of one read handles, and under which head.
use aim_to_v.Base.{
  ℕ, zero, suc, ◌+◌, ◌^◌, ◌≤◌, ◌<◌, ◌≡◌, refl, ap, ◌∙◌, true, false, ltb, ◌==◌, if◌then◌else◌, some,
  [], ◌++◌, length, length-append, append_assoc, drop, Bool-cases, inl, inr, arith,
}
use aim_to_v.Base.Outcome.{done}
use aim_to_v.Wire.Bytes.{Bytes, Cursor, written, written-append}
use aim_to_v.Wire.Package.{
  RecvMsgPkg, HeadFits, head_length, to_head, to_head-written, length-to_head, head_fields,
  head_reads_back,
}
use aim_to_v.Net.{NetInfo, max_buf_size}
use aim_to_v.Net.Accounts.{Host}
use aim_to_v.Net.Dispatch.{parse_msg}
use aim_to_v.Net.Receive.{
  Input, Scan, is_known, advance, take_packet, scan_round, scan, settle, filled, started, receive,
}
use aim_to_v.Net.Handled.{front, FrontFits, fill_head-front}

-- How the loop goes on from one round.
module _ (host : Host) (fd : ℕ) (s : Scan) where
  scan_stops :
      (fuel : ℕ) (s' : Scan)
      → 0 < fuel
      → head_length < s.nread
      → scan_round host fd s ≡ some (s', false)
      → scan fuel host fd s ≡ done s'
  unfolding scan
  scan_stops zero s' z h e = absurd (omega arith)
  scan_stops (suc fuel) s' z h e = ground arith

  scan_short : (fuel : ℕ) → s.nread ≤ head_length → scan fuel host fd s ≡ done s
  unfolding scan
  scan_short zero h = ground arith
  scan_short (suc fuel) h = ground arith

  scan_once :
      (fuel : ℕ) (s' : Scan)
      → 0 < fuel
      → head_length < s.nread
      → scan_round host fd s ≡ some (s', true)
      → s'.nread ≡ 0
      → scan fuel host fd s ≡ done s'
  unfolding scan
  scan_once zero s' z h e l = absurd (omega arith)
  scan_once (suc zero) s' z h e l = ground arith
  scan_once (suc (suc fuel)) s' z h e l = ground arith

-- The head with which a round goes on.
pub packets_share_head :
    (host : Host) (fd : ℕ) (s : Scan)
    → head_length < s.nread
    → FrontFits s.input.buf
    → (front s.input.buf).sub_pkg_data_length + head_length ≤ s.nread
    → scan_round host fd s
      ≡ take_packet host fd (record s { input = record s.input { head = front s.input.buf } })
unfolding scan_round
packets_share_head host fd s h f c = ground (arith, fill_head-front s h)

incomplete_round :
    (host : Host) (fd : ℕ) (s : Scan)
    → head_length < s.nread
    → FrontFits s.input.buf
    → s.nread < (front s.input.buf).sub_pkg_data_length + head_length
    → is_known (front s.input.buf).pkg_sender_guid s.input.net ≡ true
    → scan_round host fd s
      ≡ some (record s { input = record s.input { head = front s.input.buf } }, false)
unfolding scan_round
incomplete_round host fd s h f c k = ground (arith, fill_head-front s h)

receive_done :
    (host : Host) (fd : ℕ) (chunk : Bytes) (input : Input) (s : Scan)
    → scan (length chunk) host fd (started chunk input) ≡ done s
    → receive host fd chunk input ≡ done (settle s)
unfolding receive
receive_done host fd chunk input s h = ground (arith, h)

-- Where the head at the front of the buffer does not wrap, names a known sender and asks for
-- more bytes than the one read has brought, no packet is handled, however many bytes earlier
-- reads have left in the buffer: the state stays, and the place moves on by the bytes of the
-- read, or to 0 at the end of the buffer.
pub receive_incomplete :
    (host : Host) (fd : ℕ) (chunk : Bytes) (input : Input)
    → FrontFits (filled chunk input)
    → length chunk < (front (filled chunk input)).sub_pkg_data_length + head_length
    → is_known (front (filled chunk input)).pkg_sender_guid input.net ≡ true
    → (input' : Input) × (receive host fd chunk input ≡ done input')
      × (input'.net ≡ input.net)
      × (input'.buf ≡ filled chunk input)
      × (input'.buf_index ≡ (
          if input.buf_index + length chunk == max_buf_size
          then 0
          else input.buf_index + length chunk))
unfolding settle
receive_incomplete host fd chunk input f c k =
    let s = started chunk input in
    let waits : Scan = record s { input = record s.input { head = front s.input.buf } } in
    elim (Bool-cases (ltb head_length (length chunk))) [
      | inl long ↦ (
        settle waits,
        receive_done host fd chunk input waits (
            scan_stops host fd s (length chunk) waits (ground arith) (ground arith)
              (incomplete_round host fd s (ground arith) f c k)),
        refl,
        refl,
        ground arith,
      )
      | inr short ↦ (
        settle s,
        receive_done host fd chunk input s (scan_short host fd s (length chunk) (ground arith)),
        refl,
        refl,
        ground arith,
      )
    ]

-- A head as `to_head` writes it, and the body behind it.
abbrev pub whole : RecvMsgPkg → Bytes → Bytes
whole h body = to_head true max_buf_size h ++ body

pub length-whole :
    (h : RecvMsgPkg) (body : Bytes) → length (whole h body) ≡ length body + head_length
length-whole h body = omega (
  arith,
  length-append (to_head true max_buf_size h) body,
  length-to_head h max_buf_size (omega arith),
)

front_head : (h : RecvMsgPkg) (body rest : Bytes) → HeadFits h → front (whole h body ++ rest) ≡ h
front_head h body rest f =
    rw
      (
        to_head-written h max_buf_size (omega arith),
        append_assoc (written (head_fields h) []) body rest,
        written-append (head_fields h) [] (body ++ rest),
      )
      (ap (λ (r : RecvMsgPkg × Cursor). r.0) (head_reads_back h (body ++ rest) f))

pub filled_at_start :
    (chunk : Bytes) (input : Input)
    → input.buf_index ≡ 0
    → filled chunk input ≡ chunk ++ drop (0 + length chunk) input.buf
filled_at_start chunk input z = rw z refl

-- A packet that one read brings in whole, and whose handler uses all of it.
module _ (host : Host) (fd : ℕ) (h : RecvMsgPkg) (body : Bytes) (input : Input) (n' : NetInfo)
    (fits : HeadFits h) (counts : h.sub_pkg_data_length ≡ length body)
    (room : length body + head_length < 2 ^ 32) (filled_body : 0 < length body)
    (from_start : input.buf_index ≡ 0) where
  packet : Bytes
  packet = whole h body

  length-packet : length packet ≡ length body + head_length
  unfolding packet
  length-packet = length-whole h body

  front-packet : front (filled packet input) ≡ h
  unfolding packet
  front-packet =
      ap front (filled_at_start (whole h body) input from_start)
      ∙ front_head h body (drop (0 + length (whole h body)) input.buf) fits

  ready : Scan
  ready = let s = started packet input in record s { input = record s.input { head = h } }

  round-packet :
      parse_msg host (filled packet input) fd h input.net ≡ some (n', length packet)
      → scan_round host fd (started packet input) ≡ some (advance n' (length packet) ready, true)
  unfolding take_packet ready
  round-packet e =
      let shared =
        packets_share_head host fd (started packet input)
          (omega (arith, length-packet, filled_body))
          (rw front-packet (omega (arith, counts, room)))
          (rw front-packet (omega (arith, counts, length-packet))) in
      ground (arith, shared, front-packet, e, length-packet)

  -- A packet with a body that one read brings in whole at the start of the buffer, with a head
  -- that fits its types and counts the body, is handled once: where parse_msg under that head
  -- returns a state and an index of the whole packet, the handling of the read ends with that
  -- state, that head and the place 0.
  pub receive_one :
      parse_msg host (filled (whole h body) input) fd h input.net ≡ some (n', length (whole h body))
      → (input' : Input) × (receive host fd (whole h body) input ≡ done input')
        × (input'.net ≡ n')
        × (input'.head ≡ h)
        × (input'.buf_index ≡ 0)
  unfolding settle ready packet
  receive_one e =
      let s' = advance n' (length (whole h body)) ready in
      (
        settle s',
        receive_done host fd (whole h body) input s' (
            scan_once host fd (started (whole h body) input) (length (whole h body)) s'
              (omega (arith, length-packet, filled_body))
              (omega (arith, length-packet, filled_body)) (round-packet e) (omega arith)),
        refl,
        refl,
        ground (arith, length-packet, from_start),
      )
