-- ===== src/Custom/Access.antt =====
-- What the custom data holds after a method, and what survives the wire.
use aim_to_v.Base.{
  ℕ, ◌≡◌, not, ◌||◌, ◌&&◌, ◌==◌, if◌then◌else◌, Option, none, some, List, [], ◌∷◌, take, arith,
}
use aim_to_v.Wire.Bytes.{Bytes}
use aim_to_v.Common.{is_empty, str_eq, split_str, custom_get_num, custom_get_str}
use aim_to_v.Custom.StrMap.{erase, find-insert, find-erase}
use aim_to_v.Custom.{
  CustomData, add_custom_str, add_custom_num, delete_custom_str, delete_custom_num, get_custom_str,
  get_custom_num, has_mark, store_item, store_items, from_data,
}

-- A text is accepted where neither it nor its key is empty or holds a ':' or a ','. Then it is what
-- its key leads to, and every other key leads where it led; the numbers stay.
pub add_custom_str_lem :
    (key str other : Bytes) (c : CustomData)
    → let (c', added) = add_custom_str key str c in
      (added ≡ not (is_empty key || (has_mark key || (has_mark str || is_empty str))))
      × (get_custom_str other c'
          ≡ (if added && str_eq other key then str else get_custom_str other c))
      × (c'.num_map ≡ c.num_map)
unfolding add_custom_str delete_custom_str get_custom_str
add_custom_str_lem key str other c = (
  ground arith,
  ground (
    arith,
    find-insert other key str c.str_map,
    find-insert other key str (erase key c.str_map),
    find-erase other key c.str_map,
  ),
  ground arith,
)

-- A number is accepted where it is not 0 and its key is not empty and holds no ':' or ','.
pub add_custom_num_lem :
    (key other : Bytes) (num : ℕ) (c : CustomData)
    → let (c', added) = add_custom_num key num c in
      (added ≡ not (is_empty key || (has_mark key || num == 0)))
      × (get_custom_num other c'
          ≡ (if added && str_eq other key then num else get_custom_num other c))
      × (c'.str_map ≡ c.str_map)
unfolding add_custom_num delete_custom_num get_custom_num
add_custom_num_lem key other num c = (
  ground arith,
  ground (
    arith,
    find-insert other key num c.num_map,
    find-insert other key num (erase key c.num_map),
    find-erase other key c.num_map,
  ),
  ground arith,
)

store_item_num :
    (beyond key item other : Bytes) (c : CustomData)
    → get_custom_num other c ≡ 0
    → get_custom_num other (store_item beyond key item c) ≡ 0
unfolding get_custom_num store_item
store_item_num beyond key item other c h =
    ground (arith, find-insert other key (custom_get_num beyond item (b'n' ∷ b':' ∷ [])) c.num_map)

store_items_num :
    (beyond : Bytes) (items : List Bytes) (other : Bytes) (c : CustomData)
    → get_custom_num other c ≡ 0
    → get_custom_num other (store_items beyond items c).0 ≡ 0
unfolding store_items
store_items_num beyond [] other c h = h
store_items_num beyond (name ∷ []) other c h = h
store_items_num beyond (name ∷ item ∷ items) other c h =
    let key : Bytes = custom_get_str name (b'k' ∷ b':' ∷ []) in
    ground (
      arith,
      store_items_num beyond items other (store_item beyond key item c)
          (store_item_num beyond key item other c h),
    )

-- Whatever arrives, and however it is laid out in memory, an object that holds no number before
-- `from_data` holds none after it: the test `if (!num)` in front of the store keeps only zeros.
pub from_data_no_num :
    (beyond : Bytes) (src : Option Bytes) (len : ℕ) (other : Bytes) (c : CustomData)
    → get_custom_num other c ≡ 0
    → get_custom_num other (from_data beyond src len c).0 ≡ 0
unfolding from_data get_custom_num
from_data_no_num beyond none len other c h = h
from_data_no_num beyond (some src) len other c h =
    let rest = store_items_num beyond (split_str (take len src)) other c h in ground (arith, rest)
