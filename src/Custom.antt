-- ===== src/Custom.antt =====
-- `class CustomData`: include/custom_data.h and source/custom_data.cpp. A method returns the new
-- object and its result.
pub mod StrMap
pub mod Length
pub mod Output
pub mod Access
mod Tests
use aim_to_v.Base.{
  ℕ, ◌+◌, ◌-◌, ◌%◌, ◌^◌, Bool, true, false, not, ◌||◌, ltb, ◌==◌, if◌then◌else◌, Option, none, some,
  List, [], ◌∷◌, ◌++◌, length, take,
}
use aim_to_v.Wire.Bytes.{Bytes, le_bytes}
use aim_to_v.Common.{is_empty, has, split_str, custom_get_str, custom_get_num}
use StrMap.{Dict, find, insert, erase}

pub record CustomData : Type 0 where
  pub str_map : Dict Bytes
  pub num_map : Dict ℕ
  pub data_len : ℕ

unfoldable pub empty_custom : CustomData
empty_custom = record { str_map = []; num_map = []; data_len = 0 }

-- `n += k` and `n -= k` on a `uint32_t`.
abbrev pub add32 : ℕ → ℕ → ℕ
add32 n k = (n + k) % 2 ^ 32

abbrev pub sub32 : ℕ → ℕ → ℕ
sub32 n k = (n + 2 ^ 32 - k % 2 ^ 32) % 2 ^ 32

unfoldable pub size : CustomData → ℕ
size c = (length c.str_map + length c.num_map) % 2 ^ 32

-- The length of a new entry, and of the comma in front of it unless it is the first.
abbrev pub grown : ℕ → Bytes → ℕ → ℕ
grown data_len key value =
    add32 (add32 (if data_len == 0 then 0 else add32 data_len 1) (length key + 4 - 1))
      (value + 3 - 1)

-- The length without an entry, and without a comma unless nothing is left.
abbrev pub shrunk : ℕ → Bytes → ℕ → ℕ
shrunk data_len key value =
    let left = sub32 (sub32 data_len (length key + 4 - 1)) (value + 3 - 1) in
    if left == 0 then 0 else sub32 left 1

unfoldable pub delete_custom_str : Bytes → CustomData → CustomData × Bool
delete_custom_str key c = elim (find key c.str_map) [
  | none ↦ (c, true)
  | some str ↦ (
    record c { str_map = erase key c.str_map; data_len = shrunk c.data_len key (length str) },
    true,
  )
]

unfoldable pub delete_custom_num : Bytes → CustomData → CustomData × Bool
delete_custom_num key c = elim (find key c.num_map) [
  | none ↦ (c, true)
  | some num ↦
      (record c { num_map = erase key c.num_map; data_len = shrunk c.data_len key 8 }, true)
]

-- `key.find(':') != npos || key.find(',') != npos`
abbrev pub has_mark : Bytes → Bool
has_mark s = has b':' s || has b',' s

unfoldable pub add_custom_str : Bytes → Bytes → CustomData → CustomData × Bool
add_custom_str key str c =
    if is_empty key
    then (c, false)
    else (if has_mark key
        then (c, false)
        else (if has_mark str || is_empty str
            then (c, false)
            else (let c' : CustomData = elim (find key c.str_map) [
              | none ↦ c
              | some old ↦ (delete_custom_str key c).0
            ] in
                if is_empty str then (c', true) else (
                  record c' {
                    str_map = insert key str c'.str_map;
                    data_len = grown c'.data_len key (length str);
                  },
                  true,
                ))))

unfoldable pub add_custom_num : Bytes → ℕ → CustomData → CustomData × Bool
add_custom_num key num c =
    if is_empty key
    then (c, false)
    else (if has_mark key
        then (c, false)
        else (if num == 0
            then (c, false)
            else (let c' : CustomData = elim (find key c.num_map) [
              | none ↦ c
              | some old ↦ (delete_custom_num key c).0
            ] in
                if num == 0 then (c', true) else (
                  record c' {
                    num_map = insert key num c'.num_map;
                    data_len = grown c'.data_len key 8;
                  },
                  true,
                ))))

unfoldable pub get_custom_str : Bytes → CustomData → Bytes
get_custom_str key c = elim (find key c.str_map) [ none ↦ [] | some str ↦ str ]

unfoldable pub get_custom_num : Bytes → CustomData → ℕ
get_custom_num key c = elim (find key c.num_map) [ none ↦ 0 | some num ↦ num ]

-- `k:` and the key, a comma, and the mark of the value.
abbrev pub entry_head : Bytes → ℕ → Bytes
entry_head key mark = b'k' ∷ b':' ∷ key ++ (b',' ∷ mark ∷ b':' ∷ [])

-- The loop over `str_map`, which gathers `str`.
unfoldable pub str_entries : Dict Bytes → Bytes → Bytes
str_entries [] str = str
str_entries ((key, value) ∷ m) str =
    str_entries m
      ((if is_empty str then str else str ++ b',' ∷ []) ++ (entry_head key b's' ++ value))

-- The loop over `num_map`: what is at `data`, whose length is `index`, and whether the loop came to
-- its end. `false` is a return of 0.
unfoldable pub num_entries : Dict ℕ → ℕ → Bool → Bytes → Bytes × Bool
num_entries [] len is_append bytes = (bytes, true)
num_entries ((key, num) ∷ m) len is_append bytes =
    let tmp_str = (if is_append then b',' ∷ [] else []) ++ entry_head key b'n' in
    let bytes' = bytes ++ tmp_str in
    let rest = num_entries m len true (bytes' ++ le_bytes 8 num) in
    if ltb len (length bytes + length tmp_str)
    then (bytes, false)
    else (if ltb len (length bytes' + 8) then (bytes', false) else rest)

-- The index that is returned, and what was written all the same.
unfoldable pub to_data : Bool → ℕ → CustomData → ℕ × Bytes
to_data dst len c =
    if not dst || ltb len c.data_len
    then (0, [])
    else (let str = str_entries c.str_map [] in
        if ltb len (length str)
        then (0, [])
        else (let (bytes, complete) = num_entries c.num_map len (not (is_empty str)) str in
            if not complete
            then (0, bytes)
            else (if not (c.data_len == length bytes) then (0, bytes) else (length bytes, bytes))))

-- What `from_data` does with the value of a key: a text is stored, a number only if it is 0.
unfoldable pub store_item : Bytes → Bytes → Bytes → CustomData → CustomData
store_item beyond key item c =
    let str = custom_get_str item (b's' ∷ b':' ∷ []) in
    let num = custom_get_num beyond item (b'n' ∷ b':' ∷ []) in
    if is_empty str
    then (if num == 0 then record c { num_map = insert key num c.num_map } else c)
    else record c { str_map = insert key str c.str_map }

-- The loop over the tokens, two at a time, since their number is even. `false` is an empty key.
unfoldable pub store_items : Bytes → List Bytes → CustomData → CustomData × Bool
store_items beyond [] c = (c, true)
store_items beyond (name ∷ []) c = (c, true)
store_items beyond (name ∷ item ∷ items) c =
    let key = custom_get_str name (b'k' ∷ b':' ∷ []) in
    let rest = store_items beyond items (store_item beyond key item c) in
    if is_empty key then (c, false) else rest

unfoldable pub from_data : Bytes → Option Bytes → ℕ → CustomData → CustomData × Bool
from_data beyond none len c = (c, false)
from_data beyond (some src) len c =
    let vec = split_str (take len src) in
    if not (length vec % 2 == 0)
    then (c, false)
    else (let (c', complete) = store_items beyond vec c in
        if not complete
        then (c', false)
        else (if size c' == 0 then (c', true) else (record c' { data_len = len }, true)))
