-- ===== src/Net/Loop.antt =====
-- The loop over the packets of one read: it ends, and within the bytes that were read.
use aim_to_v.Base.{
  ℕ, zero, suc, ◌+◌, ◌%◌, ◌^◌, ◌≤◌, ◌<◌, ◌≡◌, ◌⊎◌, refl, ◌∙◌, Bool, true, ltb, leb, some, length,
  drop, Option-cases, Bool-cases, inl, inr, arith,
}
use aim_to_v.Base.Outcome.{done, undefined}
use aim_to_v.Wire.Bytes.{Bytes}
use aim_to_v.Wire.Package.{head_length}
use aim_to_v.Net.{max_buf_size}
use aim_to_v.Net.Accounts.{Host}
use aim_to_v.Net.Dispatch.{parse_msg}
use aim_to_v.Net.Index.{parse_msg-index}
use aim_to_v.Net.Handled.{
  front, FrontFits, fill_head-front, Ends, Along, nothing_yet, Run, scan-Run,
}
use aim_to_v.Net.Receive.{
  Input, Scan, take_packet, scan_round, scan, settle, filled, started, receive,
}

-- The second place is within the bytes of the first, in the same buffer.
pub record Further (s s' : Scan) : Type 0 where
  pub buf : s'.input.buf ≡ s.input.buf
  pub place : s'.nread + s'.read_index ≤ s.nread + s.read_index
  pub nread : s'.nread ≤ s.nread
  pub index :
      (s'.input.buf_index ≡ s.input.buf_index)
      ⊎ ((s'.nread ≡ 0) × (s'.input.buf_index ≤ max_buf_size))

same-Further : (s : Scan) → Further s s
same-Further s = record { buf = refl; place = omega arith; nread = omega arith; index = inl refl }

then-Further : (s s' s'' : Scan) → Further s s' → Further s' s'' → Further s s''
then-Further s s' s'' p q = record {
  buf = q.buf ∙ p.buf;
  place = omega (arith, p.place, q.place);
  nread = omega (arith, p.nread, q.nread);
  index = ground (arith, p.index, q.index, q.nread);
}

module _ (host : Host) (fd : ℕ) (s : Scan) where
  take_packet-Further :
      (s' : Scan) (more : Bool)
      → s.input.head.sub_pkg_data_length + head_length < 2 ^ 32
      → take_packet host fd s ≡ some (s', more)
      → Further s s' × (more ≡ true → s'.nread < s.nread)
  unfolding take_packet
  take_packet-Further s' more b h =
      let data_ptr = drop s.read_index s.input.buf in
      elim (Option-cases (parse_msg host data_ptr fd s.input.head s.input.net)) [
        | inl e ↦ absurd (ground arith)
        | inr ((n, index), e) ↦
            let q = parse_msg-index host data_ptr fd s.input.head s.input.net n index b e in
            (
              record {
                buf = ground arith;
                place = ground (arith, q);
                nread = ground (arith, q);
                index = ground (arith, q);
              },
              λ m. ground (arith, q),
            )
      ]

-- One round.
module _ (host : Host) (fd : ℕ) (s : Scan) (more_left : head_length < s.nread)
    (fits : FrontFits s.input.buf) where
  headed : Scan
  headed = record s { input = record s.input { head = front s.input.buf } }

  scan_round-Further :
      (s' : Scan) (more : Bool)
      → scan_round host fd s ≡ some (s', more)
      → Further s s' × (more ≡ true → s'.nread < s.nread)
  unfolding scan_round headed
  scan_round-Further s' more h =
      let e = fill_head-front s more_left in
      elim (Bool-cases
        (leb (((front s.input.buf).sub_pkg_data_length + head_length) % 2 ^ 32) s.nread)) [
          | inl whole ↦
              let q = take_packet-Further host fd headed s' more fits (ground (arith, e)) in
              (
                record { buf = q.0.buf; place = q.0.place; nread = q.0.nread; index = q.0.index },
                q.1,
              )
          | inr part ↦ (
            record {
              buf = ground (arith, e);
              place = ground (arith, e);
              nread = ground (arith, e);
              index = ground (arith, e);
            },
            λ m. ground (arith, e),
          )
        ]

pub scan_ends :
    (fuel : ℕ) (host : Host) (fd : ℕ) (s : Scan)
    → FrontFits s.input.buf
    → s.nread ≤ fuel
    → (scan fuel host fd s ≡ undefined)
      ⊎ ((s' : Scan) × (scan fuel host fd s ≡ done s') × Further s s')
unfolding scan
scan_ends zero host fd s f h = inr (s, ground arith, same-Further s)
scan_ends (suc fuel) host fd s f h = elim (Bool-cases (ltb head_length s.nread)) [
  | inr over ↦ inr (s, ground arith, same-Further s)
  | inl left ↦ elim (Option-cases (scan_round host fd s)) [
    | inl e ↦ inl (ground arith)
    | inr ((s1, more), e) ↦
        let q = scan_round-Further host fd s (ground arith) f s1 more e in
        elim (Bool-cases more) [
          | inr stops ↦ inr (s1, ground arith, q.0)
          | inl goes ↦
              elim (scan_ends fuel host fd s1 (rw q.0.buf f) (omega (arith, q.1 goes, h))) [
                | inl u ↦ inl (ground (arith, u))
                | inr (s2, d, w) ↦ inr (s2, ground (arith, d), then-Further s s1 s2 q.0 w)
              ]
        ]
  ]
]

-- The buffer has its size, and there is room at the place of the next read.
pub record InBounds (input : Input) : Type 0 where
  pub buf : length input.buf ≡ max_buf_size
  pub buf_index : input.buf_index < max_buf_size

started-Along :
    (host : Host) (fd : ℕ) (chunk : Bytes) (input : Input)
    → Along host fd (filled chunk input) (length chunk) input.net (started chunk input)
started-Along host fd chunk input = record { buffer = refl; left = omega arith; run = nothing_yet }

started-Run :
    (host : Host) (fd : ℕ) (chunk : Bytes) (input : Input)
    → FrontFits (filled chunk input)
    → Run host fd (filled chunk input) (length chunk) input.net (length chunk) (started chunk input)
started-Run host fd chunk input f =
    scan-Run host fd (filled chunk input) (length chunk) input.net (length chunk)
      (started chunk input) (started-Along host fd chunk input) f

-- Where the head at the front of the filled buffer has a length that does not wrap and the
-- handling of a read ends, it has called parse_msg for complete packets only, one after the
-- other from the first byte on, each at the place where the one before it ended, each under the
-- head at the front of the buffer and in the state that the one before it left, each with an
-- index above 0; the state it ends with is that of the last one where no complete packet is left
-- there, or what the next complete one left that was refused with an index of 0.
pub receive-Ends :
    (host : Host) (fd : ℕ) (chunk : Bytes) (input input' : Input)
    → FrontFits (filled chunk input)
    → receive host fd chunk input ≡ done input'
    → Ends host fd (filled chunk input) (length chunk) input.net input'.net
unfolding receive settle
receive-Ends host fd chunk input input' f h = elim (started-Run host fd chunk input f) [
  | inl (u, _) ↦ absurd (ground (arith, u))
  | inr (inl (s, d, ends)) ↦ let same : input'.net ≡ s.input.net = ground (arith, d) in rw same ends
  | inr (inr d) ↦ absurd (ground (arith, d))
]
