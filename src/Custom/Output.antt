-- ===== src/Custom/Output.antt =====
-- What `CustomData::to_data` writes, against `data_len`.
use aim_to_v.Base.{
  ℕ, ◌+◌, ◌-◌, ◌≤◌, ◌<◌, ◌≡◌, refl, Bool, true, not, ltb-false, ==_true, if◌then◌else◌, [], ◌∷◌,
  ◌++◌, length, length-append, arith,
}
use aim_to_v.Wire.Bytes.{Bytes, le_bytes, length-le_bytes}
use aim_to_v.Common.{is_empty}
use aim_to_v.Custom.StrMap.{Dict, weight}
use aim_to_v.Custom.{CustomData, str_entries, num_entries, entry_head, to_data}
use aim_to_v.Custom.Length.{HasLength, str_room, num_room}

-- The length of a text with a comma behind it, if it is not empty.
parted : Bytes → ℕ
parted [] = 0
parted (c ∷ cs) = length cs + 2

length-entry_head : (key : Bytes) (mark : ℕ) → length (entry_head key mark) ≡ length key + 5
length-entry_head key mark = omega (arith, length-append key (b',' ∷ mark ∷ b':' ∷ []))

parted-append_some : (xs ys : Bytes) → 0 < length ys → parted (xs ++ ys) ≡ length xs + length ys + 1
unfolding parted
parted-append_some [] [] h = elim h [ ]
parted-append_some [] (y ∷ ys) h = omega arith
parted-append_some (x ∷ xs) ys h = omega (arith, length-append xs ys)

parted-entry :
    (str entry : Bytes)
    → 0 < length entry
    → parted ((if is_empty str then str else str ++ b',' ∷ []) ++ entry)
      ≡ parted str + length entry + 1
unfolding parted
parted-entry [] [] h = elim h [ ]
parted-entry [] (e ∷ entry) h = omega arith
parted-entry (c ∷ str) entry h =
    omega (arith, length-append str (b',' ∷ []), length-append (str ++ b',' ∷ []) entry)

parted-str_entries :
    (m : Dict Bytes) (str : Bytes) → parted (str_entries m str) ≡ parted str + weight str_room m
unfolding str_entries weight
parted-str_entries [] str = omega arith
parted-str_entries ((key, value) ∷ m) str =
    let entry : Bytes = entry_head key b's' ++ value in
    let n : length entry ≡ length key + 5 + length value =
      omega (arith, length-append (entry_head key b's') value, length-entry_head key b's') in
    rw (parted-str_entries m ((if is_empty str then str else str ++ b',' ∷ []) ++ entry))
      (omega (arith, parted-entry str entry (omega (arith, n)), n))

length-parted : (s : Bytes) → length s ≡ parted s - 1
unfolding parted
length-parted [] = refl
length-parted (c ∷ cs) = omega arith

tmp_str_length :
    (bytes head : Bytes) (a : Bool)
    → a ≡ not (is_empty bytes)
    → length bytes + length ((if a then b',' ∷ [] else []) ++ head) ≡ parted bytes + length head
unfolding parted
tmp_str_length [] head a e = rw e refl
tmp_str_length (c ∷ cs) head a e = rw e (omega arith)

is_empty-append : (xs ys : Bytes) → 0 < length ys → true ≡ not (is_empty (xs ++ ys))
is_empty-append [] [] h = elim h [ ]
is_empty-append [] (y ∷ ys) h = refl
is_empty-append (x ∷ xs) ys h = refl

-- Where there is room for all, the loop comes to its end.
num_entries_lem :
    (m : Dict ℕ) (len : ℕ) (a : Bool) (bytes : Bytes)
    → a ≡ not (is_empty bytes)
    → parted bytes + weight num_room m ≤ len + 1
    → let (out, complete) = num_entries m len a bytes in
      (complete ≡ true) × (parted out ≡ parted bytes + weight num_room m)
unfolding num_entries weight
num_entries_lem [] len a bytes e h = (refl, omega arith)
num_entries_lem ((key, num) ∷ m) len a bytes e h =
    let tmp : Bytes = (if a then b',' ∷ [] else []) ++ entry_head key b'n' in
    let k : length bytes + length tmp ≡ parted bytes + length key + 5 =
      omega (arith, tmp_str_length bytes (entry_head key b'n') a e, length-entry_head key b'n') in
    let n = length-append bytes tmp in
    let eight = length-le_bytes 8 num in
    let next : Bytes = (bytes ++ tmp) ++ le_bytes 8 num in
    let p : parted next ≡ parted bytes + num_room key num =
      omega
        (arith, parted-append_some (bytes ++ tmp) (le_bytes 8 num) (omega arith), n, k, eight) in
    let rest =
      num_entries_lem m len true next
        (is_empty-append (bytes ++ tmp) (le_bytes 8 num) (omega arith)) (omega (arith, p)) in
    rw
      (
        ltb-false len (length bytes + length tmp) (omega (arith, k)),
        ltb-false len (length (bytes ++ tmp) + 8) (omega (arith, n, k)),
      )
      (rest.0, omega (arith, rest.1, p))

-- On an object whose `data_len` is right, `to_data` writes exactly that many bytes into a buffer of
-- that size or more, and returns their number; it never gives up.
pub to_data_complete :
    (c : CustomData) (len : ℕ)
    → HasLength c
    → c.data_len ≤ len
    → let (index, bytes) = to_data true len c in (index ≡ c.data_len) × (length bytes ≡ c.data_len)
unfolding to_data
to_data_complete c len l h =
    let str : Bytes = str_entries c.str_map [] in
    let e : parted str ≡ weight str_room c.str_map =
      unfold parted in omega (arith, parted-str_entries c.str_map []) in
    let nums =
      num_entries_lem c.num_map len (not (is_empty str)) str refl (omega (arith, e, l.counted)) in
    let (out, complete) = num_entries c.num_map len (not (is_empty str)) str in
    let n : length out ≡ c.data_len = omega (arith, length-parted out, nums.1, e, l.counted) in
    rw
      (
        ltb-false len c.data_len h,
        ltb-false len (length str) (omega (arith, length-parted str, e, l.counted)),
        nums.0,
        ==_true c.data_len (length out) (omega (arith, n)),
      )
      (n, n)
