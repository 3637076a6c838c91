-- ===== src/Wire/Codec.antt =====
-- What every message class of include/struct_def.h offers through the virtual methods of
-- `RecvMsgPkg`, and the shape that the classes of fixed size share: the guard
-- `if (!data || len < length()) return 0;`, then one field after another.
use aim_to_v.Base.{
  ℕ, ◌≤◌, ◌<◌, ◌≡◌, refl, List, [], ◌++◌, length as size, Option, none, some, Bool, true, ◌||◌, not,
  ltb, ltb-false, if◌then◌else◌, arith,
}
use aim_to_v.Wire.Bytes.{Bytes, Reader, at, written, written-append}

-- The operations and what a client may rely on. `size` is the number of bytes that a whole object
-- takes, `length` the number that `from_data` asks for first; `Fits` says that the fields hold
-- what their C++ types can.
pub record Codec (T : Type 0) : Type 1 where
  pub length : T → ℕ
  pub from_data : Option Bytes → ℕ → T → T × ℕ
  pub to_data : Bool → ℕ → T → Bytes
  pub total : T → ℕ
  pub Fits : T → Type 0
  pub length-le-total : (m : T) → length m ≤ total m
  pub read_back :
      (m old : T) (room len : ℕ) (rest : Bytes)
      → Fits m
      → total m ≤ room
      → total m ≤ len
      → from_data (some (to_data true room m ++ rest)) len old ≡ (m, total m)
  pub length-to_data :
      (m : T) (room : ℕ) → Fits m → total m ≤ room → size (to_data true room m) ≡ total m
  pub no_room : (m : T) (dst : Bool) (room : ℕ) → room < length m → to_data dst room m ≡ []
  pub short_input :
      (src : Option Bytes) (len : ℕ) (old : T) → len < length old → from_data src len old ≡ (old, 0)

-- `if (!data || len < length()) return 0;` and the reads that follow.
unfoldable pub guarded_read : {T : Type 0} → ℕ → Reader T → Option Bytes → ℕ → T → T × ℕ
guarded_read length read none len old = (old, 0)
guarded_read length read (some src) len old =
    if ltb len length then (old, 0) else let (m, c) = read (at 0 src) in (m, c.index)

-- The same guard before the writes.
unfoldable pub guarded_write : ℕ → List Bytes → Bool → ℕ → Bytes
guarded_write length fields dst len = if not dst || ltb len length then [] else written fields []

-- A class of fixed size.
pub record Layout (T : Type 0) : Type 1 where
  pub length : ℕ
  pub read : Reader T
  pub fields : T → List Bytes
  pub Fits : T → Type 0
  pub reads_back :
      (m : T) (rest : Bytes) → Fits m → read (at 0 (written (fields m) rest)) ≡ (m, at length rest)
  pub fills : (m : T) → Fits m → size (written (fields m) []) ≡ length

module _ {T : Type 0} (l : Layout T) where
  unfoldable pub from_data : Option Bytes → ℕ → T → T × ℕ
  from_data = guarded_read l.length l.read

  unfoldable pub to_data : Bool → ℕ → T → Bytes
  to_data dst len m = guarded_write l.length (l.fields m) dst len

  pub from_data-to_data :
      (m old : T) (room len : ℕ) (rest : Bytes)
      → l.Fits m
      → l.length ≤ room
      → l.length ≤ len
      → from_data (some (to_data true room m ++ rest)) len old ≡ (m, l.length)
  unfolding from_data to_data guarded_read guarded_write
  from_data-to_data m old room len rest f hr hl = rw (
    ltb-false room l.length hr,
    ltb-false len l.length hl,
    written-append (l.fields m) [] rest,
    l.reads_back m rest f,
  )

  pub length-to_data :
      (m : T) (room : ℕ) → l.Fits m → l.length ≤ room → size (to_data true room m) ≡ l.length
  unfolding to_data guarded_write
  length-to_data m room f h = rw (ltb-false room l.length h) (l.fills m f)

  pub to_data_no_room : (m : T) (dst : Bool) (room : ℕ) → room < l.length → to_data dst room m ≡ []
  unfolding to_data guarded_write
  to_data_no_room m dst room h = ground arith

  pub from_data_short :
      (src : Option Bytes) (len : ℕ) (old : T) → len < l.length → from_data src len old ≡ (old, 0)
  unfolding from_data guarded_read
  from_data_short none len old h = refl
  from_data_short (some src) len old h = ground arith

  abbrev pub codec : Codec T
  codec = record {
    length = λ _. l.length;
    from_data = from_data;
    to_data = to_data;
    total = λ _. l.length;
    Fits = l.Fits;
    length-le-total = λ _. omega arith;
    read_back = from_data-to_data;
    length-to_data = length-to_data;
    no_room = to_data_no_room;
    short_input = from_data_short;
  }
