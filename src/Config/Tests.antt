-- ===== src/Config/Tests.antt =====
-- The round trip of a configuration with two entries.
use aim_to_v.Base.{
  ◌≡◌, refl, false, ◌==◌, if◌then◌else◌, List, [], ◌∷◌, ◌++◌, append_assoc, append-nil, true, arith,
}
use aim_to_v.Wire.Bytes.{Bytes}
use aim_to_v.Common.{has}
use aim_to_v.Custom.StrMap.{find}
use aim_to_v.Config.{ReadConfig, open_config, write_all_config}
use aim_to_v.Config.Lines.{SplitsInTwo, IsClean, config_restored}

-- A stand-in for `boost::split` with one separator.
parts : Bytes → Bytes → List Bytes
parts token [] = token ∷ []
parts token (c ∷ cs) =
    let next = token ∷ parts [] cs in
    let longer = parts (token ++ c ∷ []) cs in if c == b'=' then next else longer

parts-value :
    (token value : Bytes) → has b'=' value ≡ false → parts token value ≡ (token ++ value) ∷ []
unfolding parts has
parts-value token [] h = rw append-nil refl
parts-value token (c ∷ cs) h =
    ground (arith, parts-value (token ++ c ∷ []) cs, append_assoc token (c ∷ []) cs)

parts-key :
    (token key value : Bytes)
    → has b'=' key ≡ false
    → has b'=' value ≡ false
    → parts token (key ++ b'=' ∷ value) ≡ (token ++ key) ∷ value ∷ []
unfolding parts has
parts-key token [] value h v = ground (arith, parts-value [] value v, append-nil token)
parts-key token (c ∷ cs) value h v =
    ground (arith, parts-key (token ++ c ∷ []) cs value, append_assoc token (c ∷ []) cs)

split : Bytes → Bytes → List Bytes
split str pattern = parts [] str

split-SplitsInTwo : SplitsInTwo split
unfolding split
split-SplitsInTwo key value k v = parts-key [] key value k v

abbrev config : ReadConfig
config = record { config_map = (b'a' ∷ [], b'1' ∷ []) ∷ (b'b' ∷ [], []) ∷ []; file_name = [] }

letter-IsClean : IsClean (b'a' ∷ [])
unfolding has
letter-IsClean = record { nul = refl; separator = refl; newline = refl; return = refl }

config_restored_example :
    find (b'a' ∷ []) (open_config split [] (write_all_config true config)).config_map
    ≡ find (b'a' ∷ []) config.config_map
unfolding find has
config_restored_example =
    config_restored split config [] (b'a' ∷ []) split-SplitsInTwo
      (
        letter-IsClean,
        record { nul = refl; separator = refl; newline = refl; return = refl },
        omega arith,
        (
          record { nul = refl; separator = refl; newline = refl; return = refl },
          record { nul = refl; separator = refl; newline = refl; return = refl },
          omega arith,
          tt,
        ),
      )
      (refl, (refl, tt))
