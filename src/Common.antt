-- ===== src/Common.antt =====
-- The text helpers of source/common.cpp that the custom data uses. A `std::string` is the list of
-- its bytes.
pub mod Times
pub mod TimeText
mod Tests
use aim_to_v.Base.{
  Option, none, some, ◌≡◌, ◌<◌, refl, arith, Option-cases, inl, inr, append-nil, ℕ, ◌-◌, Bool, true,
  false, ◌&&◌, ltb, ◌==◌, if◌then◌else◌, List, [], ◌∷◌, ◌++◌, length, take, drop,
}
use aim_to_v.Wire.Bytes.{Bytes, le_value}

abbrev pub is_empty : Bytes → Bool
is_empty [] = true
is_empty (c ∷ cs) = false

abbrev pub str_eq : Bytes → Bytes → Bool
str_eq [] [] = true
str_eq [] (d ∷ ds) = false
str_eq (c ∷ cs) [] = false
str_eq (c ∷ cs) (d ∷ ds) = c == d && str_eq cs ds

-- `std::string::operator<`, by which `std::map` sorts its keys.
abbrev pub str_lt : Bytes → Bytes → Bool
str_lt cs [] = false
str_lt [] (d ∷ ds) = true
str_lt (c ∷ cs) (d ∷ ds) =
    let rest = str_lt cs ds in if ltb c d then true else (if c == d then rest else false)

-- `s.find(c) != std::string::npos`
unfoldable pub has : ℕ → Bytes → Bool
has c [] = false
has c (d ∷ ds) = if c == d then true else has c ds

-- A token is kept unless it is empty.
abbrev pub emit : Bytes → List Bytes → List Bytes
emit [] tokens = tokens
emit (c ∷ cs) tokens = (c ∷ cs) ∷ tokens

-- The calls of `strtok` with ",": the characters of the current token, then the rest of the text,
-- which ends at a NUL.
unfoldable pub tokens : Bytes → Bytes → List Bytes
tokens token [] = emit token []
tokens token (c ∷ cs) =
    let closed = emit token (tokens [] cs) in
    let longer = tokens (token ++ c ∷ []) cs in
    if c == 0 then emit token [] else (if c == b',' then closed else longer)

unfoldable pub split_str : Bytes → List Bytes
unfolding tokens
split_str src = tokens [] src

-- What follows a prefix of two characters; nothing if the text is no longer than the prefix or
-- begins otherwise.
unfoldable pub custom_get_str : Bytes → Bytes → Bytes
custom_get_str src split_str =
    if ltb (length split_str) (length src) && str_eq (take (length split_str) src) split_str
    then take (length src - length split_str) (drop 2 src)
    else []

-- Eight bytes from `c_str()` on: the text, its NUL, and whatever lies beyond it in memory.
unfoldable pub custom_get_num : Bytes → Bytes → Bytes → ℕ
unfolding custom_get_str
custom_get_num beyond src split_str =
    let str = custom_get_str src split_str in
    if is_empty str then 0 else le_value (take 8 (str ++ 0 ∷ beyond))

-- The loop from the end of the path: what stands in front of the last slash, and the slash.
unfoldable pub up_to_slash : Bytes → Option Bytes
up_to_slash [] = none
up_to_slash (c ∷ cs) = elim (up_to_slash cs) [
  | some front ↦ some (c ∷ front)
  | none ↦ if c == b'/' then some (c ∷ []) else none
]

-- `readlink` gives the path of the program, `none` where it fails.
unfoldable pub get_exe_dir : Option Bytes → Bytes
get_exe_dir none = []
get_exe_dir (some path) =
    if ltb (length path) 1024
    then elim (up_to_slash path) [ none ↦ path | some front ↦ front ]
    else []

no_slash : (path : Bytes) → up_to_slash path ≡ none → has b'/' path ≡ false
unfolding up_to_slash has
no_slash [] h = refl
no_slash (c ∷ cs) h = ground (arith, no_slash cs)

after_slash :
    (path front : Bytes)
    → up_to_slash path ≡ some front
    → (name : Bytes) × (front ++ name ≡ path) × (has b'/' name ≡ false)
unfolding up_to_slash
after_slash [] front h = absurd (ground arith)
after_slash (c ∷ cs) front h = elim (Option-cases (up_to_slash cs)) [
  | inl e ↦ (cs, ground arith, no_slash cs e)
  | inr (front', e) ↦
      let (name, whole, plain) = after_slash cs front' e in (name, ground (arith, whole), plain)
]

-- A path that is short enough is the directory and a name without a slash.
pub get_exe_dir_lem :
    (path : Bytes)
    → length path < 1024
    → (name : Bytes) × (get_exe_dir (some path) ++ name ≡ path) × (has b'/' name ≡ false)
unfolding get_exe_dir has
get_exe_dir_lem path h = elim (Option-cases (up_to_slash path)) [
  | inl e ↦ ([], ground (arith, append-nil path), refl)
  | inr (front, e) ↦
      let (name, whole, plain) = after_slash path front e in (name, ground (arith, whole), plain)
]
