-- ===== src/Config.antt =====
-- `class ReadConfig`: include/read_config.h and source/read_config.cpp. `split` stands for
-- `boost::split` with `token_compress_on`; a file is its bytes, `none` where it cannot be opened.
pub mod Lines
mod Tests
use aim_to_v.Base.{
  ℕ, ◌-◌, Bool, true, false, ◌||◌, ◌==◌, if◌then◌else◌, Option, none, some, List, [], ◌∷◌, ◌++◌,
}
use aim_to_v.Wire.Bytes.{Bytes}
use aim_to_v.Common.{is_empty}
use aim_to_v.Custom.StrMap.{Dict, insert}

pub record ReadConfig : Type 0 where
  pub config_map : Dict Bytes
  pub file_name : Bytes

-- A `std::string` from a `char *`, and what `%s` prints: the text up to a NUL.
abbrev pub c_text : Bytes → Bytes
c_text [] = []
c_text (c ∷ cs) = let rest = c_text cs in if c == 0 then [] else c ∷ rest

-- `fgets(line, sizeof(line) - 1, _fp)` reads at most this many bytes.
abbrev pub line_room : ℕ
line_room = 1022

-- The lines that one call of `fgets` after the other gives: `room` is left in the current one.
unfoldable pub lines : ℕ → Bytes → Bytes → List Bytes
lines room line [] = if is_empty line then [] else line ∷ []
lines room line (c ∷ cs) =
    let full = (line ++ c ∷ []) ∷ lines line_room [] cs in
    let longer = lines (room - 1) (line ++ c ∷ []) cs in
    if c == b'\n' || room == 1 then full else longer

-- `substr(0, find_first_of("\r\n"))`, the whole text where there is none.
unfoldable pub cut : Bytes → Bytes
cut [] = []
cut (c ∷ cs) = let rest = cut cs in if c == b'\r' || c == b'\n' then [] else c ∷ rest

module _ (split : Bytes → Bytes → List Bytes) where
  unfoldable pub split_boost : Bytes → Bytes → List Bytes
  split_boost str pattern = split str pattern

  -- A line counts where it has two parts.
  unfoldable pub store_line : Bytes → Dict Bytes → Dict Bytes
  store_line line m = elim (split_boost (c_text line) (b'=' ∷ [])) [
    | [] ↦ m
    | key ∷ [] ↦ m
    | key ∷ value ∷ [] ↦ insert key (cut value) m
    | _ ∷ _ ∷ _ ∷ _ ↦ m
  ]

  unfoldable pub store_lines : List Bytes → Dict Bytes → Dict Bytes
  store_lines [] m = m
  store_lines (line ∷ rest) m = store_lines rest (store_line line m)

  unfoldable pub read_all_config : Option Bytes → ReadConfig → ReadConfig × Bool
  read_all_config none c = (c, false)
  read_all_config (some file) c =
      (record c { config_map = store_lines (lines line_room [] file) c.config_map }, true)

  -- The constructor.
  unfoldable pub open_config : Bytes → Option Bytes → ReadConfig
  open_config file_name file =
      (read_all_config file (record { config_map = []; file_name = file_name })).0

-- The block that returns the empty `value` stands in front of the lookup.
abbrev pub read_config : Bytes → ReadConfig → Bytes
read_config key c = []

abbrev pub write_config : Bytes → Bytes → ReadConfig → ReadConfig × Bool
write_config key value c = (record c { config_map = insert key value c.config_map }, true)

-- `fprintf(_fp, "%s=%s\n", ...)`
unfoldable pub entry_line : Bytes → Bytes → Bytes
entry_line key value = c_text key ++ (b'=' ∷ (c_text value ++ b'\n' ∷ []))

unfoldable pub entries : Dict Bytes → Bytes
entries [] = []
entries ((key, value) ∷ m) = entry_line key value ++ entries m

-- What the file holds afterwards, `none` where it cannot be opened; the destructor does nothing else.
unfoldable pub write_all_config : Bool → ReadConfig → Option Bytes
write_all_config opened c = if opened then some (entries c.config_map) else none
