-- ===== src/Custom/Tests.antt =====
-- Each theorem about custom data at a concrete object.
use aim_to_v.Base.{◌≡◌, true, [], ◌∷◌, length, arith}
use aim_to_v.Wire.Bytes.{Bytes}
use aim_to_v.Common.{has}
use aim_to_v.Custom.StrMap.{find, insert, weight}
use aim_to_v.Custom.{empty_custom, add_custom_str, to_data}
use aim_to_v.Custom.Length.{add_str, edit, HasLength, edit-HasLength, empty_custom-HasLength}
use aim_to_v.Custom.Output.{to_data_complete}

abbrev nick : Bytes
nick = b'n' ∷ b'i' ∷ b'c' ∷ b'k' ∷ []

abbrev ann : Bytes
ann = b'a' ∷ b'n' ∷ b'n' ∷ []

edit-HasLength_example : HasLength (edit (add_str nick ann) empty_custom)
unfolding edit add_custom_str empty_custom find insert weight has
edit-HasLength_example =
    edit-HasLength (add_str nick ann) empty_custom empty_custom-HasLength (omega arith)

to_data_complete_example :
    let c = edit (add_str nick ann) empty_custom in
    let (index, bytes) = to_data true 100 c in (index ≡ c.data_len) × (length bytes ≡ c.data_len)
unfolding edit add_custom_str empty_custom find insert weight has
to_data_complete_example =
    to_data_complete (edit (add_str nick ann) empty_custom) 100
      (edit-HasLength (add_str nick ann) empty_custom empty_custom-HasLength (omega arith))
      (omega arith)
