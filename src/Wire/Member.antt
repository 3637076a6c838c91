-- ===== src/Wire/Member.antt =====
-- `struct group_member_info` of include/struct_def.h, with its roles and permissions.
use aim_to_v.Base.{ℕ, ◌+◌, ◌<◌, ◌^◌, ◌≡◌, List, [], ◌∷◌, length as size, length-append, replicate}
use aim_to_v.Wire.Bytes.{
  Bytes, Reader, ◌>>=◌, pure, at, get_num, get_bytes, le_bytes, written, get_num-le_bytes,
  get_bytes-append, length-le_bytes,
}
use aim_to_v.Wire.Codec.{Layout}

-- `enum JOB`.
abbrev pub group_job_leader : ℕ
group_job_leader = 0

abbrev pub group_job_manager : ℕ
group_job_manager = 1

abbrev pub group_job_member : ℕ
group_job_member = 2

-- `enum group_permission::permission`.
abbrev pub send_to_group : ℕ
send_to_group = 1

abbrev pub send_msg : ℕ
send_msg = 5

abbrev pub send_msg_count_limit_50 : ℕ
send_msg_count_limit_50 = 6

abbrev pub send_msg_count_limit_10 : ℕ
send_msg_count_limit_10 = 7

abbrev pub cant_send_msg : ℕ
cant_send_msg = 8

-- `group_member_info`.
pub record Member : Type 0 where
  pub group_guid : ℕ
  pub user_guid : ℕ
  pub icon_guid : ℕ
  pub msg_count : ℕ
  pub permissions : ℕ
  pub job : ℕ
  pub name : Bytes

-- The fields hold what their C++ types can.
pub record MemberFits (m : Member) : Type 0 where
  pub group_guid : m.group_guid < 256 ^ 4
  pub user_guid : m.user_guid < 256 ^ 4
  pub icon_guid : m.icon_guid < 256 ^ 4
  pub msg_count : m.msg_count < 256 ^ 2
  pub permissions : m.permissions < 256 ^ 1
  pub job : m.job < 256 ^ 1
  pub name : size m.name ≡ 32

-- What the constructor leaves.
abbrev pub member_init : Member
member_init = record {
  group_guid = 0;
  user_guid = 0;
  icon_guid = 0;
  msg_count = 0;
  permissions = cant_send_msg;
  job = group_job_member;
  name = replicate 32 0;
}

abbrev pub member_length : ℕ
member_length = 4 + 4 + 4 + 2 + 1 + 1 + 32

unfoldable pub member_read : Reader Member
member_read = do
  group_guid ← get_num 4
  user_guid ← get_num 4
  icon_guid ← get_num 4
  msg_count ← get_num 2
  permissions ← get_num 1
  job ← get_num 1
  name ← get_bytes 32
  pure (record {
    group_guid = group_guid;
    user_guid = user_guid;
    icon_guid = icon_guid;
    msg_count = msg_count;
    permissions = permissions;
    job = job;
    name = name;
  })

abbrev pub member_fields : Member → List Bytes
member_fields m =
    le_bytes 4 m.group_guid
    ∷ le_bytes 4 m.user_guid
    ∷ le_bytes 4 m.icon_guid
    ∷ le_bytes 2 m.msg_count
    ∷ le_bytes 1 m.permissions
    ∷ le_bytes 1 m.job
    ∷ m.name
    ∷ []

pub member_reads_back :
    (m : Member) (rest : Bytes)
    → MemberFits m
    → member_read (at 0 (written (member_fields m) rest)) ≡ (m, at member_length rest)
unfolding member_read
member_reads_back m rest f = simp (
  get_num-le_bytes 4 m.group_guid _ _ f.group_guid,
  get_num-le_bytes 4 m.user_guid _ _ f.user_guid,
  get_num-le_bytes 4 m.icon_guid _ _ f.icon_guid,
  get_num-le_bytes 2 m.msg_count _ _ f.msg_count,
  get_num-le_bytes 1 m.permissions _ _ f.permissions,
  get_num-le_bytes 1 m.job _ _ f.job,
  get_bytes-append 32 _ m.name _ f.name,
)

pub member_fills : (m : Member) → MemberFits m → size (written (member_fields m) []) ≡ member_length
member_fills m f = simp (length-append, length-le_bytes, f.name)

abbrev pub member : Layout Member
member = record {
  length = member_length;
  read = member_read;
  fields = member_fields;
  Fits = MemberFits;
  reads_back = member_reads_back;
  fills = member_fills;
}
