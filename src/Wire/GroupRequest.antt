-- ===== src/Wire/GroupRequest.antt =====
-- The requests on groups: `GroupModify` and `GroupDelete` of include/struct_def.h.
use aim_to_v.Base.{ℕ, ◌+◌, ◌<◌, ◌^◌, ◌≡◌, List, [], ◌∷◌, length as size, length-append}
use aim_to_v.Wire.Bytes.{
  Bytes, Reader, ◌>>=◌, pure, at, get_num, le_bytes, written, get_num-le_bytes, length-le_bytes,
}
use aim_to_v.Wire.Codec.{Layout}

-- `enum ModifyType`.
abbrev pub member_add : ℕ
member_add = 0

abbrev pub member_delete : ℕ
member_delete = 1

abbrev pub member_set_permission : ℕ
member_set_permission = 2

abbrev pub manager_add : ℕ
manager_add = 3

abbrev pub manager_delete : ℕ
manager_delete = 4

abbrev pub modify_type_max : ℕ
modify_type_max = 5

-- `GroupModify`.
pub record GroupModify : Type 0 where
  pub group_guid : ℕ
  pub operate_guid : ℕ
  pub target_guid : ℕ
  pub opreadte_type : ℕ
  pub permission : ℕ

-- The fields hold what their C++ types can.
pub record GroupModifyFits (m : GroupModify) : Type 0 where
  pub group_guid : m.group_guid < 256 ^ 4
  pub operate_guid : m.operate_guid < 256 ^ 4
  pub target_guid : m.target_guid < 256 ^ 4
  pub opreadte_type : m.opreadte_type < 256 ^ 1
  pub permission : m.permission < 256 ^ 1

-- What the constructor leaves.
abbrev pub group_modify_init : GroupModify
group_modify_init = record {
  group_guid = 0;
  operate_guid = 0;
  target_guid = 0;
  opreadte_type = modify_type_max;
  permission = 8;
}

abbrev pub group_modify_length : ℕ
group_modify_length = 4 + 4 + 4 + 1 + 1

unfoldable pub group_modify_read : Reader GroupModify
group_modify_read = do
  group_guid ← get_num 4
  operate_guid ← get_num 4
  target_guid ← get_num 4
  opreadte_type ← get_num 1
  permission ← get_num 1
  pure (record {
    group_guid = group_guid;
    operate_guid = operate_guid;
    target_guid = target_guid;
    opreadte_type = opreadte_type;
    permission = permission;
  })

abbrev pub group_modify_fields : GroupModify → List Bytes
group_modify_fields m =
    le_bytes 4 m.group_guid
    ∷ le_bytes 4 m.operate_guid
    ∷ le_bytes 4 m.target_guid
    ∷ le_bytes 1 m.opreadte_type
    ∷ le_bytes 1 m.permission
    ∷ []

pub group_modify_reads_back :
    (m : GroupModify) (rest : Bytes)
    → GroupModifyFits m
    → group_modify_read (at 0 (written (group_modify_fields m) rest))
      ≡ (m, at group_modify_length rest)
unfolding group_modify_read
group_modify_reads_back m rest f = simp (
  get_num-le_bytes 4 m.group_guid _ _ f.group_guid,
  get_num-le_bytes 4 m.operate_guid _ _ f.operate_guid,
  get_num-le_bytes 4 m.target_guid _ _ f.target_guid,
  get_num-le_bytes 1 m.opreadte_type _ _ f.opreadte_type,
  get_num-le_bytes 1 m.permission _ _ f.permission,
)

pub group_modify_fills :
    (m : GroupModify)
    → GroupModifyFits m
    → size (written (group_modify_fields m) []) ≡ group_modify_length
group_modify_fills m f = simp (length-append, length-le_bytes)

abbrev pub group_modify : Layout GroupModify
group_modify = record {
  length = group_modify_length;
  read = group_modify_read;
  fields = group_modify_fields;
  Fits = GroupModifyFits;
  reads_back = group_modify_reads_back;
  fills = group_modify_fills;
}

-- `GroupDelete`.
pub record GroupDelete : Type 0 where
  pub group_guid : ℕ
  pub operate_guid : ℕ

-- The fields hold what their C++ types can.
pub record GroupDeleteFits (m : GroupDelete) : Type 0 where
  pub group_guid : m.group_guid < 256 ^ 4
  pub operate_guid : m.operate_guid < 256 ^ 4

-- What the constructor leaves.
abbrev pub group_delete_init : GroupDelete
group_delete_init = record { group_guid = 0; operate_guid = 0 }

abbrev pub group_delete_length : ℕ
group_delete_length = 4 + 4

unfoldable pub group_delete_read : Reader GroupDelete
group_delete_read = do
  group_guid ← get_num 4
  operate_guid ← get_num 4
  pure (record { group_guid = group_guid; operate_guid = operate_guid })

abbrev pub group_delete_fields : GroupDelete → List Bytes
group_delete_fields m = le_bytes 4 m.group_guid ∷ le_bytes 4 m.operate_guid ∷ []

pub group_delete_reads_back :
    (m : GroupDelete) (rest : Bytes)
    → GroupDeleteFits m
    → group_delete_read (at 0 (written (group_delete_fields m) rest))
      ≡ (m, at group_delete_length rest)
unfolding group_delete_read
group_delete_reads_back m rest f = simp (
  get_num-le_bytes 4 m.group_guid _ _ f.group_guid,
  get_num-le_bytes 4 m.operate_guid _ _ f.operate_guid,
)

pub group_delete_fills :
    (m : GroupDelete)
    → GroupDeleteFits m
    → size (written (group_delete_fields m) []) ≡ group_delete_length
group_delete_fills m f = simp (length-append, length-le_bytes)

abbrev pub group_delete : Layout GroupDelete
group_delete = record {
  length = group_delete_length;
  read = group_delete_read;
  fields = group_delete_fields;
  Fits = GroupDeleteFits;
  reads_back = group_delete_reads_back;
  fills = group_delete_fills;
}
