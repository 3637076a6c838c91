-- ===== src/Net/Handled.antt =====
-- The packets that one call of the loop over the bytes of a read hands to `parse_msg`.
use aim_to_v.Base.{
  ℕ, ◌+◌, ◌%◌, ◌^◌, ◌≤◌, ◌<◌, ◌≡◌, ◌⊎◌, refl, Bool, true, false, leb, Option, none, some, drop,
  zero, suc, ltb, ◌≢◌, Option-cases, Bool-cases, inl, inr, arith,
}
use aim_to_v.Base.Outcome.{done, undefined, out_of_fuel}
use aim_to_v.Wire.Bytes.{Bytes, at}
use aim_to_v.Wire.Package.{RecvMsgPkg, head_length, fill_head, head_read}
use aim_to_v.Net.{NetInfo}
use aim_to_v.Net.Accounts.{Host}
use aim_to_v.Net.Dispatch.{parse_msg}
use aim_to_v.Net.Index.{parse_msg-index}
use aim_to_v.Net.Receive.{Scan, scan, advance, take_packet, scan_round}

-- The head at the start of the buffer: the loop reads every head there.
abbrev pub front : Bytes → RecvMsgPkg
front buf = (head_read (at 0 buf)).0

-- The length of a packet under that head.
abbrev pub packet_length : Bytes → ℕ
packet_length buf = (front buf).sub_pkg_data_length + head_length

abbrev pub FrontFits : Bytes → Type 0
FrontFits buf = packet_length buf < 2 ^ 32

-- A packet is complete at a place before `total` where the loop looks for one.
pub record IsWhole (buf : Bytes) (total place : ℕ) : Type 0 where
  pub more : head_length + place < total
  pub whole : packet_length buf + place ≤ total

-- The result of the packet at a place, in a state.
abbrev pub result_at : Host → ℕ → Bytes → ℕ → NetInfo → Option (NetInfo × ℕ)
result_at host fd buf place n = parse_msg host (drop place buf) fd (front buf) n

-- The packets up to a place have been handled one after the other, each at the place where the one
-- before it ended, and have led from `begin` to a state.
pub data Handled (host : Host) (fd : ℕ) (buf : Bytes) (total : ℕ) (begin : NetInfo)
    : ℕ → NetInfo → Type 0 where
  nothing_yet : Handled host fd buf total begin 0 begin
  then_next :
      (place index : ℕ) (n n' : NetInfo)
      → Handled host fd buf total begin place n
      → IsWhole buf total place
      → result_at host fd buf place n ≡ some (n', index)
      → 0 < index
      → index ≤ packet_length buf
      → Handled host fd buf total begin (place + index) n'

-- What makes the loop undefined: the packet at the place it has come to has no defined result.
pub record Fails (host : Host) (fd : ℕ) (buf : Bytes) (total : ℕ) (begin : NetInfo) : Type 0 where
  pub place : ℕ
  pub net : NetInfo
  pub run : Handled host fd buf total begin place net
  pub whole : IsWhole buf total place
  pub undefined_there : result_at host fd buf place net ≡ none

-- How the loop ends: no complete packet is left at the place it has come to, or that packet is
-- refused.
pub record Ends (host : Host) (fd : ℕ) (buf : Bytes) (total : ℕ) (begin last : NetInfo)
    : Type 0 where
  pub place : ℕ
  pub net : NetInfo
  pub run : Handled host fd buf total begin place net
  pub why :
      ((IsWhole buf total place → ⊥) × (last ≡ net))
      ⊎ (IsWhole buf total place × (result_at host fd buf place net ≡ some (last, 0)))

pub fill_head-front :
    (s : Scan)
    → head_length < s.nread
    → (fill_head (some s.input.buf) s.nread s.input.head).0 ≡ front s.input.buf
unfolding fill_head
fill_head-front s h = ground arith

module _ (host : Host) (fd : ℕ) (buf : Bytes) (total : ℕ) (begin : NetInfo) where
  -- The loop has come to a place, with a state.
  pub record Along (s : Scan) : Type 0 where
    pub buffer : s.input.buf ≡ buf
    pub left : s.nread + s.read_index ≡ total
    pub run : Handled host fd buf total begin s.read_index s.input.net

  module _ (s : Scan) (along : Along s) (fits : FrontFits buf) where
    stays :
        (last : NetInfo)
        → last ≡ s.input.net
        → (IsWhole buf total s.read_index → ⊥)
        → Ends host fd buf total begin last
    stays last e h = record {
      place = s.read_index;
      net = s.input.net;
      run = along.run;
      why = inl (h, e);
    }

    -- A whole packet, by its result.
    module _ (w : IsWhole buf total s.read_index) (h : s.input.head ≡ front buf) where
      same_packet :
          parse_msg host (drop s.read_index s.input.buf) fd s.input.head s.input.net
          ≡ result_at host fd buf s.read_index s.input.net
      same_packet = let b = along.buffer in cc

      take_packet-Fails : take_packet host fd s ≡ none → Fails host fd buf total begin
      unfolding take_packet
      take_packet-Fails none_here =
          elim (Option-cases (result_at host fd buf s.read_index s.input.net)) [
            | inl e ↦ record {
              place = s.read_index;
              net = s.input.net;
              run = along.run;
              whole = w;
              undefined_there = e;
            }
            | inr ((n, index), e) ↦
                let q =
                  parse_msg-index host (drop s.read_index buf) fd (front buf) s.input.net n index
                    fits e in
                absurd (ground (arith, same_packet, q, w.whole, along.left))
          ]

      take_packet-Along : (s' : Scan) → take_packet host fd s ≡ some (s', true) → Along s'
      unfolding take_packet
      take_packet-Along s' goes =
          elim (Option-cases (result_at host fd buf s.read_index s.input.net)) [
            | inl e ↦ absurd (ground (arith, same_packet))
            | inr ((n, index), e) ↦
                let q =
                  parse_msg-index host (drop s.read_index buf) fd (front buf) s.input.net n index
                    fits e in
                let next : s' ≡ advance n index s = ground (arith, same_packet) in
                let some_index : 0 < index = ground (arith, same_packet) in
                rw next (record {
                  buffer = along.buffer;
                  left = omega (arith, along.left, q.0, w.whole);
                  run = then_next s.read_index index s.input.net n along.run w e some_index q.0;
                })
          ]

      take_packet-Ends :
          (s' : Scan)
          → take_packet host fd s ≡ some (s', false)
          → Ends host fd buf total begin s'.input.net
      unfolding take_packet
      take_packet-Ends s' stops =
          elim (Option-cases (result_at host fd buf s.read_index s.input.net)) [
            | inl e ↦ absurd (ground (arith, same_packet))
            | inr ((n, index), e) ↦ record {
              place = s.read_index;
              net = s.input.net;
              run = along.run;
              why = inr (w, ground (arith, same_packet, e));
            }
          ]

  headed : Scan → Scan
  headed s = record s { input = record s.input { head = front buf } }

  module _ (s : Scan) (along : Along s) (fits : FrontFits buf) (more : head_length < s.nread) where
    headed-Along : Along (headed s)
    unfolding headed
    headed-Along = record { buffer = along.buffer; left = along.left; run = along.run }

    read_head : (fill_head (some s.input.buf) s.nread s.input.head).0 ≡ front buf
    read_head = rw (fill_head-front s more) (let b = along.buffer in cc)

    not_whole : s.nread < packet_length buf → IsWhole buf total s.read_index → ⊥
    not_whole h w = absurd (omega (arith, h, w.whole, along.left))

    module _ (whole : leb (packet_length buf % 2 ^ 32) s.nread ≡ true) where
      whole-IsWhole : IsWhole buf total s.read_index
      whole-IsWhole = record {
        more = omega (arith, along.left, more);
        whole = ground (arith, fits, along.left);
      }

      scan_round_whole : scan_round host fd s ≡ take_packet host fd (headed s)
      unfolding scan_round headed
      scan_round_whole = ground (arith, read_head)

    module _ (part : leb (packet_length buf % 2 ^ 32) s.nread ≡ false) where
      part-Ends : (last : NetInfo) → last ≡ s.input.net → Ends host fd buf total begin last
      part-Ends last e = stays s along fits last e (not_whole (ground (arith, fits)))

      scan_round_part :
          (s' : Scan) (goes : Bool)
          → scan_round host fd s ≡ some (s', goes)
          → (s'.input.net ≡ s.input.net) × (goes ≡ true → s'.nread ≡ 0)
      unfolding scan_round headed
      scan_round_part s' goes h = (ground (arith, read_head), λ e. ground (arith, read_head))

      scan_round_defined : scan_round host fd s ≢ none
      unfolding scan_round headed
      scan_round_defined h = ground (arith, read_head)

  finished : (fuel : ℕ) (s : Scan) → s.nread ≡ 0 → scan fuel host fd s ≡ done s
  unfolding scan
  finished zero s h = ground arith
  finished (suc fuel) s h = ground arith

  -- The ways in which the loop may end, by what it has handled.
  abbrev pub Run : ℕ → Scan → Type 0
  Run fuel s =
      ((scan fuel host fd s ≡ undefined) × Fails host fd buf total begin)
      ⊎ (((s' : Scan) × (scan fuel host fd s ≡ done s') × Ends host fd buf total begin s'.input.net)
          ⊎ (scan fuel host fd s ≡ out_of_fuel))

  then_Run :
      (fuel fuel' : ℕ) (s s1 : Scan)
      → scan fuel' host fd s ≡ scan fuel host fd s1
      → Run fuel s1
      → Run fuel' s
  then_Run fuel fuel' s s1 e r = rw e r

  pub scan-Run : (fuel : ℕ) (s : Scan) → Along s → FrontFits buf → Run fuel s
  unfolding scan headed
  scan-Run zero s along fits = elim (Bool-cases (ltb head_length s.nread)) [
    | inl left ↦ inr (inr (ground arith))
    | inr over ↦
        let no_more =
          λ (w : IsWhole buf total s.read_index). absurd (ground (arith, along.left, w.more)) in
        inr (inl (s, ground arith, stays s along fits s.input.net refl no_more))
  ]
  scan-Run (suc fuel) s along fits = elim (Bool-cases (ltb head_length s.nread)) [
    | inr over ↦
        let no_more =
          λ (w : IsWhole buf total s.read_index). absurd (ground (arith, along.left, w.more)) in
        inr (inl (s, ground arith, stays s along fits s.input.net refl no_more))
    | inl left ↦
        let more : head_length < s.nread = ground arith in
        elim (Bool-cases (leb (packet_length buf % 2 ^ 32) s.nread)) [
          | inl whole ↦
              let w = whole-IsWhole s along fits more whole in
              let a = headed-Along s along fits more in
              let round = scan_round_whole s along fits more whole in
              elim (Option-cases (take_packet host fd (headed s))) [
                | inl e ↦ inl (ground (arith, round), take_packet-Fails (headed s) a fits w refl e)
                | inr ((s1, goes), e) ↦ elim (Bool-cases goes) [
                  | inr stops ↦ inr (
                      inl (
                        s1,
                        ground (arith, round),
                        take_packet-Ends (headed s) a fits w refl s1 (rw (e, stops) refl),
                      ))
                  | inl on ↦ then_Run fuel (suc fuel) s s1 (ground (arith, round)) (
                      scan-Run fuel s1
                        (take_packet-Along (headed s) a fits w refl s1 (rw (e, on) refl)) fits)
                ]
              ]
          | inr part ↦ elim (Option-cases (scan_round host fd s)) [
            | inl e ↦ absurd (scan_round_defined s along fits more part e)
            | inr ((s1, goes), e) ↦
                let q = scan_round_part s along fits more part s1 goes e in
                let over = part-Ends s along fits more part s1.input.net q.0 in
                elim (Bool-cases goes) [
                  | inr stops ↦ inr (inl (s1, ground arith, over))
                  | inl on ↦
                      let end = finished fuel s1 (q.1 on) in
                      inr (inl (s1, ground (arith, end), over))
                ]
          ]
        ]
  ]
