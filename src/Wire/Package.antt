-- ===== src/Wire/Package.antt =====
-- `class RecvMsgPkg` of include/struct_def.h: the ten-byte head of every message, and the framing
-- of a body by it. A message object is a head and a body; the body's virtual methods are a `Codec`.
use aim_to_v.Base.{
  ℕ, ◌+◌, ◌-◌, ◌≤◌, ◌<◌, ◌^◌, ◌≡◌, refl, List, [], ◌∷◌, ◌++◌, length as size, length-append, Option,
  none, some, Bool, true, false, not, ◌&&◌, ltb, ltb-false, lt→ltb, ◌==◌, ==_false, if◌then◌else◌,
  drop, drop-append, append_assoc, arith, ap,
}
use aim_to_v.Wire.Bytes.{
  Bytes, Reader, ◌>>=◌, pure, at, get_num, le_bytes, written, get_num-le_bytes, length-le_bytes,
  written-append,
}
use aim_to_v.Wire.Codec.{Codec, guarded_write}
use native.Mathlib.Nat.{add_comm}

pub record RecvMsgPkg : Type 0 where
  pub pkg_sender_guid : ℕ
  pub pkg_type : ℕ
  pub sub_pkg_data_length : ℕ

-- The fields hold what their C++ types can.
pub record HeadFits (h : RecvMsgPkg) : Type 0 where
  pub pkg_sender_guid : h.pkg_sender_guid < 256 ^ 4
  pub pkg_type : h.pkg_type < 256 ^ 2
  pub sub_pkg_data_length : h.sub_pkg_data_length < 256 ^ 4

-- The constructor.
abbrev pub new_pkg : ℕ → ℕ → RecvMsgPkg
new_pkg guid type = record { pkg_sender_guid = guid; pkg_type = type; sub_pkg_data_length = 0 }

abbrev pub head_length : ℕ
head_length = 4 + 2 + 4

unfoldable pub head_read : Reader RecvMsgPkg
head_read = do
  pkg_sender_guid ← get_num 4
  pkg_type ← get_num 2
  sub_pkg_data_length ← get_num 4
  pure (record {
    pkg_sender_guid = pkg_sender_guid;
    pkg_type = pkg_type;
    sub_pkg_data_length = sub_pkg_data_length;
  })

abbrev pub head_fields : RecvMsgPkg → List Bytes
head_fields h =
    le_bytes 4 h.pkg_sender_guid ∷ le_bytes 2 h.pkg_type ∷ le_bytes 4 h.sub_pkg_data_length ∷ []

-- The body is counted only where it is there in full.
unfoldable pub fill_head : Option Bytes → ℕ → RecvMsgPkg → RecvMsgPkg × ℕ
fill_head none len h = (h, 0)
fill_head (some src) len h =
    if ltb len head_length
    then (h, 0)
    else (let (h', c) = head_read (at 0 src) in
        if ltb (len - head_length) h'.sub_pkg_data_length
        then (h', c.index)
        else (h', c.index + h'.sub_pkg_data_length))

unfoldable pub to_head : Bool → ℕ → RecvMsgPkg → Bytes
unfolding guarded_write
to_head dst len h = guarded_write head_length (head_fields h) dst len

-- Refuses a length of zero.
unfoldable pub set_sub_pkg_data_length : ℕ → RecvMsgPkg → RecvMsgPkg × Bool
set_sub_pkg_data_length len h =
    if len == 0 then (h, false) else (record h { sub_pkg_data_length = len }, true)

-- The head afterwards, the index that is returned, and the bytes at `data`. The body is written
-- first, `head_length` bytes into the buffer, since its size goes into the head.
unfoldable pub make_pkg : {T : Type 0} → Codec T → ℕ → RecvMsgPkg → T → RecvMsgPkg × ℕ × Bytes
make_pkg c len h m =
    if ltb len (head_length + c.length m)
    then (h, 0, [])
    else (let body = c.to_data true (len - head_length) m in
        let h' = record h { sub_pkg_data_length = size body } in
        let head = to_head true len h' in
        if not (size body == 0) && not (size head == 0)
        then (h', size body + head_length, head ++ body)
        else (h', 0, []))

pub head_reads_back :
    (h : RecvMsgPkg) (rest : Bytes)
    → HeadFits h
    → head_read (at 0 (written (head_fields h) rest)) ≡ (h, at head_length rest)
unfolding head_read
head_reads_back h rest f = simp (
  get_num-le_bytes 4 h.pkg_sender_guid _ _ f.pkg_sender_guid,
  get_num-le_bytes 2 h.pkg_type _ _ f.pkg_type,
  get_num-le_bytes 4 h.sub_pkg_data_length _ _ f.sub_pkg_data_length,
)

pub to_head-written :
    (h : RecvMsgPkg) (len : ℕ) → head_length ≤ len → to_head true len h ≡ written (head_fields h) []
unfolding to_head
to_head-written h len l = rw (ltb-false len head_length l)

pub length-to_head :
    (h : RecvMsgPkg) (len : ℕ) → head_length ≤ len → size (to_head true len h) ≡ head_length
length-to_head h len l = rw (to_head-written h len l) (simp (length-append, length-le_bytes))

-- Where the head and the body are there in full, both are counted.
pub fill_head_complete :
    (h old : RecvMsgPkg) (len room : ℕ) (rest : Bytes)
    → HeadFits h
    → head_length ≤ room
    → head_length + h.sub_pkg_data_length ≤ len
    → fill_head (some (to_head true room h ++ rest)) len old
      ≡ (h, head_length + h.sub_pkg_data_length)
unfolding fill_head
fill_head_complete h old len room rest f r l = rw (
  to_head-written h room r,
  written-append (head_fields h) [] rest,
  head_reads_back h rest f,
  ltb-false len head_length (omega arith),
  ltb-false (len - head_length) h.sub_pkg_data_length (omega arith),
)

-- A head whose body is still to come is read, and counted alone.
pub fill_head_partial :
    (h old : RecvMsgPkg) (len room : ℕ) (rest : Bytes)
    → HeadFits h
    → head_length ≤ room
    → head_length ≤ len
    → len < head_length + h.sub_pkg_data_length
    → fill_head (some (to_head true room h ++ rest)) len old ≡ (h, head_length)
unfolding fill_head
fill_head_partial h old len room rest f r l s = rw (
  to_head-written h room r,
  written-append (head_fields h) [] rest,
  head_reads_back h rest f,
  ltb-false len head_length l,
  lt→ltb (len - head_length) h.sub_pkg_data_length (omega arith),
)

module _ {T : Type 0} (c : Codec T) where
  make_pkg_fits :
      (h : RecvMsgPkg) (m : T) (len : ℕ)
      → c.Fits m
      → 0 < c.total m
      → head_length + c.total m ≤ len
      → let h' = record h { sub_pkg_data_length = c.total m } in
        make_pkg c len h m
        ≡ (h', c.total m + head_length, to_head true len h' ++ c.to_data true (len - head_length) m)
  unfolding make_pkg
  make_pkg_fits h m len g pos room = rw (
    ltb-false len (head_length + c.length m) (omega (arith, c.length-le-total m)),
    c.length-to_data m (len - head_length) g (omega arith),
    length-to_head (record h { sub_pkg_data_length = c.total m }) len (omega arith),
    ==_false (c.total m) 0 (omega arith),
  )

  -- Framing loses nothing: a receiver that holds the packet, with whatever follows it, finds the
  -- head by `fill_head` and the body behind it by `from_data`, each with its exact length.
  pub make_pkg_received :
      (h old : RecvMsgPkg) (m m' : T) (len : ℕ) (rest : Bytes)
      → HeadFits h
      → c.Fits m
      → 0 < c.total m
      → c.total m < 256 ^ 4
      → head_length + c.total m ≤ len
      → let (h', n, bytes) = make_pkg c len h m in
        (n ≡ head_length + c.total m)
        × (h' ≡ record h { sub_pkg_data_length = c.total m })
        × (fill_head (some (bytes ++ rest)) n old ≡ (h', n))
        × (c.from_data (some (drop head_length (bytes ++ rest))) h'.sub_pkg_data_length m'
            ≡ (m, c.total m))
  make_pkg_received h old m m' len rest f g pos small room =
      let h' : RecvMsgPkg = record h { sub_pkg_data_length = c.total m } in
      let body : Bytes = c.to_data true (len - head_length) m in
      let f' : HeadFits h' = record {
        pkg_sender_guid = f.pkg_sender_guid;
        pkg_type = f.pkg_type;
        sub_pkg_data_length = small;
      } in
      rw
        (
          make_pkg_fits h m len g pos room,
          append_assoc (to_head true len h') body rest,
          fill_head_complete h' old (c.total m + head_length) len (body ++ rest) f' (omega arith)
              (omega arith),
          drop-append head_length (to_head true len h') (body ++ rest)
              (length-to_head h' len (omega arith)),
          c.read_back m m' (len - head_length) (c.total m) rest g (omega arith) (omega arith),
        )
        (omega arith, refl, ap (λ n. (h', n)) (add_comm head_length (c.total m)), refl)
