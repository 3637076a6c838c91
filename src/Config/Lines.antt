-- ===== src/Config/Lines.antt =====
-- What `write_all_config` writes, `read_all_config` reads back.
use aim_to_v.Base.{
  ℕ, ◌+◌, ◌-◌, ◌≤◌, ◌<◌, ◌≡◌, refl, ap, ◌∙◌, true, false, ◌||◌, none, some, List, [], ◌∷◌, ◌++◌,
  length, length-append, append_assoc, arith,
}
use aim_to_v.Wire.Bytes.{Bytes}
use aim_to_v.Common.{has}
use aim_to_v.Custom.StrMap.{Dict, Distinct, find, insert, find-insert, str_eq_iff}
use aim_to_v.Config.{
  ReadConfig, c_text, line_room, lines, cut, split_boost, store_line, store_lines, read_all_config,
  open_config, entry_line, entries, write_all_config,
}

-- What the documentation of `boost::split` says of a text with one separator.
abbrev pub SplitsInTwo : (Bytes → Bytes → List Bytes) → Type 0
SplitsInTwo split =
    (key value : Bytes)
    → has b'=' key ≡ false
    → has b'=' value ≡ false
    → split (key ++ b'=' ∷ value) (b'=' ∷ []) ≡ key ∷ value ∷ []

-- A text that holds none of the characters with a meaning.
pub record IsClean (text : Bytes) : Type 0 where
  pub nul : has 0 text ≡ false
  pub separator : has b'=' text ≡ false
  pub newline : has b'\n' text ≡ false
  pub return : has b'\r' text ≡ false

has-append : (c : ℕ) (xs ys : Bytes) → has c (xs ++ ys) ≡ (has c xs || has c ys)
unfolding has
has-append c [] ys = refl
has-append c (x ∷ xs) ys = ground (arith, has-append c xs ys)

c_text_clean : (text : Bytes) → has 0 text ≡ false → c_text text ≡ text
unfolding has
c_text_clean [] h = refl
c_text_clean (c ∷ cs) h = ground (arith, c_text_clean cs)

cut_clean :
    (text : Bytes)
    → has b'\n' text ≡ false
    → has b'\r' text ≡ false
    → cut (text ++ b'\n' ∷ []) ≡ text
unfolding has cut
cut_clean [] a b = refl
cut_clean (c ∷ cs) a b = ground (arith, cut_clean cs)

lines_first :
    (room : ℕ) (line text rest : Bytes)
    → has b'\n' text ≡ false
    → length text < room
    → lines room line (text ++ b'\n' ∷ rest)
      ≡ (line ++ (text ++ b'\n' ∷ [])) ∷ lines line_room [] rest
unfolding has lines
lines_first room line [] rest h r = refl
lines_first room line (c ∷ cs) rest h r =
    let later = lines_first (room - 1) (line ++ c ∷ []) cs rest in
    ground (arith, later, append_assoc line (c ∷ []) (cs ++ b'\n' ∷ []))

-- Every entry is clean and fits a line.
abbrev pub EntriesFit : Dict Bytes → Type 0
EntriesFit [] = Unit {0}
EntriesFit ((key, value) ∷ m) =
    IsClean key × IsClean value × (length key + length value + 2 ≤ line_room) × EntriesFit m

-- One line.
module _ (key value : Bytes) (k : IsClean key) (v : IsClean value) where
  entry_line_clean : entry_line key value ≡ (key ++ b'=' ∷ value) ++ b'\n' ∷ []
  unfolding entry_line
  entry_line_clean =
      rw
        (
          c_text_clean key k.nul,
          c_text_clean value v.nul,
          append_assoc key (b'=' ∷ value) (b'\n' ∷ []),
        )
        refl

  inside-nul : has 0 (entry_line key value) ≡ false
  unfolding has
  inside-nul = rw entry_line_clean (
      ground (
        arith,
        has-append 0 (key ++ b'=' ∷ value) (b'\n' ∷ []),
        has-append 0 key (b'=' ∷ value),
        k.nul,
        v.nul,
      ))

  inside-newline : has b'\n' (key ++ b'=' ∷ value) ≡ false
  unfolding has
  inside-newline = ground (arith, has-append b'\n' key (b'=' ∷ value), k.newline, v.newline)

  value-separator : has b'=' (value ++ b'\n' ∷ []) ≡ false
  unfolding has
  value-separator = ground (arith, has-append b'=' value (b'\n' ∷ []), v.separator)

  lines-entry :
      (rest : Bytes)
      → length key + length value + 2 ≤ line_room
      → lines line_room [] (entry_line key value ++ rest)
        ≡ entry_line key value ∷ lines line_room [] rest
  lines-entry rest fits =
      rw (entry_line_clean, append_assoc (key ++ b'=' ∷ value) (b'\n' ∷ []) rest)
        (lines_first line_room [] (key ++ b'=' ∷ value) rest inside-newline
          (omega (arith, length-append key (b'=' ∷ value))))

  store-entry :
      (split : Bytes → Bytes → List Bytes) (m : Dict Bytes)
      → SplitsInTwo split
      → store_line split (entry_line key value) m ≡ insert key value m
  unfolding store_line split_boost
  store-entry split m s =
      let text = c_text_clean (entry_line key value) inside-nul in
      let line : entry_line key value ≡ key ++ b'=' ∷ (value ++ b'\n' ∷ []) =
        entry_line_clean ∙ append_assoc key (b'=' ∷ value) (b'\n' ∷ []) in
      let parts : split (c_text (entry_line key value)) (b'=' ∷ [])
          ≡ key ∷ (value ++ b'\n' ∷ []) ∷ [] =
        rw (text, line) (s key (value ++ b'\n' ∷ []) k.separator value-separator) in
      ground (arith, parts, cut_clean value v.newline v.return)

entry_lines : Dict Bytes → List Bytes
entry_lines [] = []
entry_lines ((key, value) ∷ m) = entry_line key value ∷ entry_lines m

lines-entries : (m : Dict Bytes) → EntriesFit m → lines line_room [] (entries m) ≡ entry_lines m
unfolding lines entries entry_lines
lines-entries [] f = refl
lines-entries ((key, value) ∷ m) (k, v, fits, f) =
    lines-entry key value k v (entries m) fits ∙ ap (◌∷◌ (entry_line key value)) (lines-entries m f)

-- The entries go over those that are there.
find-store_lines :
    (split : Bytes → Bytes → List Bytes) (m acc : Dict Bytes) (j : Bytes)
    → SplitsInTwo split
    → EntriesFit m
    → Distinct m
    → find j (store_lines split (entry_lines m) acc)
      ≡ elim (find j m) [ none ↦ find j acc | some v ↦ some v ]
unfolding store_lines entry_lines find
find-store_lines split [] acc j s f d = refl
find-store_lines split ((key, value) ∷ m) acc j s (k, v, fits, f) d =
    let stored =
      ap (λ (acc' : Dict Bytes). find j (store_lines split (entry_lines m) acc'))
        (store-entry key value k v split acc s) in
    ground (
      arith,
      stored,
      find-store_lines split m (insert key value acc) j s f d.1,
      find-insert j key value acc,
      d.0,
      str_eq_iff j key,
    )

-- A configuration without a key twice, keys that begin with # included, whose keys and values
-- hold no NUL, no separator and no line end and fit a line, is written by write_all_config into
-- a file that can be opened, and a ReadConfig that is made from that file leads every key to
-- what it led to, where boost::split gives the two parts of a text with one separator.
pub config_restored :
    (split : Bytes → Bytes → List Bytes) (c : ReadConfig) (file_name key : Bytes)
    → SplitsInTwo split
    → EntriesFit c.config_map
    → Distinct c.config_map
    → find key (open_config split file_name (write_all_config true c)).config_map
      ≡ find key c.config_map
unfolding open_config read_all_config write_all_config find
config_restored split c file_name key s f d =
    rw (lines-entries c.config_map f)
      (find-store_lines split c.config_map [] key s f d ∙ ground arith)
