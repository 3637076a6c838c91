-- ===== src/Custom/Length.antt =====
-- The running length `data_len` against the text that `to_data` writes.
use aim_to_v.Base.{
  ℕ, ◌+◌, ◌-◌, ◌^◌, ◌≤◌, ◌<◌, ◌≡◌, ◌≢◌, ◌⊎◌, refl, none, some, Option-cases, inl, inr, [], ◌∷◌,
  length, arith,
}
use aim_to_v.Wire.Bytes.{Bytes}
use aim_to_v.Custom.StrMap.{
  Dict, find, insert, erase, Distinct, weight, find-erase, insert-Distinct, erase-Distinct,
  weight-insert, weight-erase, str_eq_refl,
}
use aim_to_v.Custom.{
  CustomData, empty_custom, add_custom_str, add_custom_num, delete_custom_str, delete_custom_num,
  grown, shrunk,
}

-- An entry with the comma that parts it from another one.
abbrev pub str_room : Bytes → Bytes → ℕ
str_room key value = length key + 5 + length value + 1

abbrev pub num_room : Bytes → ℕ → ℕ
num_room key num = length key + 5 + 8 + 1

-- All entries, with a comma between any two.
abbrev pub stream_length : CustomData → ℕ
stream_length c = weight str_room c.str_map + weight num_room c.num_map - 1

-- `data_len` is the length of the stream.
pub record HasLength (c : CustomData) : Type 0 where
  pub str_keys : Distinct c.str_map
  pub num_keys : Distinct c.num_map
  pub counted : c.data_len ≡ stream_length c
  pub small : stream_length c < 2 ^ 32

grown_lem :
    (n w : ℕ) (key : Bytes) (value : ℕ)
    → n ≡ w - 1
    → (w ≢ 1)
    → w + (length key + 5 + value + 1) - 1 < 2 ^ 32
    → grown n key value ≡ w + (length key + 5 + value + 1) - 1
grown_lem n w key value e ne h = ground arith

shrunk_lem :
    (n w : ℕ) (key : Bytes) (value : ℕ)
    → n ≡ w + (length key + 5 + value + 1) - 1
    → (w ≢ 1)
    → n < 2 ^ 32
    → shrunk n key value ≡ w - 1
shrunk_lem n w key value e ne h = ground arith

-- A sum of entries is never a lone comma.
weight_str_ne : (m : Dict Bytes) → weight str_room m ≡ 0 ⊎ 6 ≤ weight str_room m
unfolding weight
weight_str_ne [] = inl refl
weight_str_ne ((k, v) ∷ m) = inr (omega arith)

weight_num_ne : (m : Dict ℕ) → weight num_room m ≡ 0 ⊎ 6 ≤ weight num_room m
unfolding weight
weight_num_ne [] = inl refl
weight_num_ne ((k, v) ∷ m) = inr (omega arith)

pub delete_custom_str-HasLength :
    (key : Bytes) (c : CustomData) → HasLength c → HasLength (delete_custom_str key c).0
unfolding delete_custom_str
delete_custom_str-HasLength key c l = elim (Option-cases (find key c.str_map)) [
  | inl e ↦ rw (e, delete_custom_str) l
  | inr (str, e) ↦
      let w = weight-erase str_room key str c.str_map l.str_keys e in
      let n : shrunk c.data_len key (length str)
          ≡ weight str_room (erase key c.str_map) + weight num_room c.num_map - 1 =
        shrunk_lem c.data_len (weight str_room (erase key c.str_map) + weight num_room c.num_map)
          key (length str) (omega (arith, l.counted, w))
          (λ q. omega (arith, weight_str_ne (erase key c.str_map), weight_num_ne c.num_map))
          (omega (arith, l.counted, l.small)) in
      rw (e, delete_custom_str)
        (record {
          str_keys = erase-Distinct key c.str_map l.str_keys;
          num_keys = l.num_keys;
          counted = n;
          small = omega (arith, l.small, w);
        })
]

pub delete_custom_num-HasLength :
    (key : Bytes) (c : CustomData) → HasLength c → HasLength (delete_custom_num key c).0
unfolding delete_custom_num
delete_custom_num-HasLength key c l = elim (Option-cases (find key c.num_map)) [
  | inl e ↦ rw (e, delete_custom_num) l
  | inr (num, e) ↦
      let w = weight-erase num_room key num c.num_map l.num_keys e in
      let n =
        shrunk_lem c.data_len (weight str_room c.str_map + weight num_room (erase key c.num_map))
          key 8 (omega (arith, l.counted, w))
          (λ q. omega (arith, weight_str_ne c.str_map, weight_num_ne (erase key c.num_map)))
          (omega (arith, l.counted, l.small)) in
      rw (e, delete_custom_num)
        (record {
          str_keys = l.str_keys;
          num_keys = erase-Distinct key c.num_map l.num_keys;
          counted = n;
          small = omega (arith, l.small, w);
        })
]

-- The object that a new entry is put into, with no entry of that key.
cleared_str : Bytes → CustomData → CustomData
cleared_str key c = elim (find key c.str_map) [ none ↦ c | some old ↦ (delete_custom_str key c).0 ]

cleared_str_lem :
    (key : Bytes) (c : CustomData)
    → HasLength c
    → HasLength (cleared_str key c) × (find key (cleared_str key c).str_map ≡ none)
unfolding cleared_str
cleared_str_lem key c l = elim (Option-cases (find key c.str_map)) [
  | inl e ↦ rw (e, cleared_str) (l, e)
  | inr (str, e) ↦
      rw (e, cleared_str)
        (
          delete_custom_str-HasLength key c l,
          unfold delete_custom_str in
              rw (e, delete_custom_str) (rw (find-erase key key c.str_map, str_eq_refl key)),
        )
]

insert_str-HasLength :
    (key str : Bytes) (c : CustomData)
    → HasLength c
    → find key c.str_map ≡ none
    → let c' = record c {
      str_map = insert key str c.str_map;
      data_len = grown c.data_len key (length str);
    } in
      stream_length c' < 2 ^ 32 → HasLength c'
insert_str-HasLength key str c l fresh small =
    let w = weight-insert str_room key str c.str_map fresh in
    let n =
      grown_lem c.data_len (weight str_room c.str_map + weight num_room c.num_map) key (length str)
        l.counted (λ q. omega (arith, weight_str_ne c.str_map, weight_num_ne c.num_map))
        (omega (arith, small, w)) in
    record {
      str_keys = insert-Distinct key str c.str_map fresh l.str_keys;
      num_keys = l.num_keys;
      counted = omega (arith, n, w);
      small = small;
    }

pub add_custom_str-HasLength :
    (key str : Bytes) (c : CustomData)
    → HasLength c
    → stream_length (add_custom_str key str c).0 < 2 ^ 32
    → HasLength (add_custom_str key str c).0
unfolding add_custom_str cleared_str
add_custom_str-HasLength key str c l small =
    ground (arith, cleared_str_lem key c l, insert_str-HasLength key str (cleared_str key c))

cleared_num : Bytes → CustomData → CustomData
cleared_num key c = elim (find key c.num_map) [ none ↦ c | some old ↦ (delete_custom_num key c).0 ]

cleared_num_lem :
    (key : Bytes) (c : CustomData)
    → HasLength c
    → HasLength (cleared_num key c) × (find key (cleared_num key c).num_map ≡ none)
unfolding cleared_num
cleared_num_lem key c l = elim (Option-cases (find key c.num_map)) [
  | inl e ↦ rw (e, cleared_num) (l, e)
  | inr (num, e) ↦
      rw (e, cleared_num)
        (
          delete_custom_num-HasLength key c l,
          unfold delete_custom_num in
              rw (e, delete_custom_num) (rw (find-erase key key c.num_map, str_eq_refl key)),
        )
]

insert_num-HasLength :
    (key : Bytes) (num : ℕ) (c : CustomData)
    → HasLength c
    → find key c.num_map ≡ none
    → let c' = record c { num_map = insert key num c.num_map; data_len = grown c.data_len key 8 } in
      stream_length c' < 2 ^ 32 → HasLength c'
insert_num-HasLength key num c l fresh small =
    let w = weight-insert num_room key num c.num_map fresh in
    let n =
      grown_lem c.data_len (weight str_room c.str_map + weight num_room c.num_map) key 8 l.counted
        (λ q. omega (arith, weight_str_ne c.str_map, weight_num_ne c.num_map))
        (omega (arith, small, w)) in
    record {
      str_keys = l.str_keys;
      num_keys = insert-Distinct key num c.num_map fresh l.num_keys;
      counted = omega (arith, n, w);
      small = small;
    }

pub add_custom_num-HasLength :
    (key : Bytes) (num : ℕ) (c : CustomData)
    → HasLength c
    → stream_length (add_custom_num key num c).0 < 2 ^ 32
    → HasLength (add_custom_num key num c).0
unfolding add_custom_num cleared_num
add_custom_num-HasLength key num c l small =
    ground (arith, cleared_num_lem key c l, insert_num-HasLength key num (cleared_num key c))

-- The methods that change an object, as data.
pub data Edit : Type 0 where
  add_str : Bytes → Bytes → Edit
  add_num : Bytes → ℕ → Edit
  delete_str : Bytes → Edit
  delete_num : Bytes → Edit

unfoldable pub edit : Edit → CustomData → CustomData
edit (add_str key str) c = (add_custom_str key str c).0
edit (add_num key num) c = (add_custom_num key num c).0
edit (delete_str key) c = (delete_custom_str key c).0
edit (delete_num key) c = (delete_custom_num key c).0

-- Every method keeps `data_len` the length of the stream, commas included, as long as the new stream
-- is shorter than 2 ^ 32.
pub edit-HasLength :
    (e : Edit) (c : CustomData)
    → HasLength c
    → stream_length (edit e c) < 2 ^ 32
    → HasLength (edit e c)
unfolding edit
edit-HasLength (add_str key str) c l small = add_custom_str-HasLength key str c l small
edit-HasLength (add_num key num) c l small = add_custom_num-HasLength key num c l small
edit-HasLength (delete_str key) c l small = delete_custom_str-HasLength key c l
edit-HasLength (delete_num key) c l small = delete_custom_num-HasLength key c l

pub empty_custom-HasLength : HasLength empty_custom
unfolding empty_custom weight
empty_custom-HasLength = record {
  str_keys = tt;
  num_keys = tt;
  counted = refl;
  small = omega arith;
}
