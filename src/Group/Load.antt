-- ===== src/Group/Load.antt =====
-- The loop of `GroupInfo::from_data`: the links of a group that is read from the wire, and its count.
use aim_to_v.Base.{
  ℕ, zero, suc, ◌+◌, ◌-◌, ◌*◌, ◌%◌, ◌^◌, ◌≤◌, ◌<◌, ◌≡◌, ◌≢◌, refl, ltb-false, dec_lt, ◌==◌,
  if◌then◌else◌, Bool-cases, ◌⊎◌, inl, inr, some, [], ◌∷◌, ◌++◌, length, length-append, drop, arith,
}
use aim_to_v.Base.Map.{find}
use aim_to_v.Wire.Bytes.{
  Bytes, Cursor, at, get_num, get_bytes, le_bytes, written, get_num-le_bytes, written-append,
}
use aim_to_v.Wire.Codec
use aim_to_v.Wire.Member.{Member, member, member_init, member_length, member_read}
use aim_to_v.Group.{GroupInfo, empty_group, append_manager, append_member, inc32}
use aim_to_v.Group.Links.{IsLinked, is_manager, append_manager-IsLinked, append_member-IsLinked}
use aim_to_v.Group.Stream.{
  members_bytes, group_length, group_read, store_member, read_members, from_data,
}

-- The links of a group whose count is set aside.
abbrev pub recounted : GroupInfo → GroupInfo
recounted g = record g { member_count = length g.members_list % 2 ^ 32 }

pub store_member-IsLinked :
    (m : Member) (g : GroupInfo) → IsLinked (recounted g) → IsLinked (recounted (store_member m g))
unfolding store_member append_manager append_member
store_member-IsLinked m g l = elim (Bool-cases (is_manager m.job)) [
  | inl j ↦
      let k = append_manager-IsLinked m (recounted g) j l in
      rw j
        (record { rising = k.rising; counted = refl; managers = k.managers; members = k.members })
  | inr j ↦
      let k = append_member-IsLinked m (recounted g) j l in
      rw j
        (record { rising = k.rising; counted = refl; managers = k.managers; members = k.members })
]

length-store_member :
    (m : Member) (g : GroupInfo)
    → length (store_member m g).members_list ≡ length g.members_list + 1
unfolding store_member
length-store_member m g = ground (arith, length-append g.members_list ((g.next_node, m) ∷ []))

-- A member is read in one piece wherever its bytes are there.
member_index :
    (src : Bytes) (left : ℕ)
    → member_length ≤ left
    → (Codec.from_data member (some src) left member_init).1 ≡ member_length
unfolding Codec.from_data Codec.guarded_read member_read get_num get_bytes
member_index src left h = rw (ltb-false left member_length h)

member_refused :
    (src : Bytes) (left : ℕ)
    → left < member_length
    → (Codec.from_data member (some src) left member_init).1 ≡ 0
member_refused src left h = rw (Codec.from_data_short member (some src) left member_init h)

pub read_members-IsLinked :
    (n : ℕ) (src : Bytes) (left i : ℕ) (g : GroupInfo)
    → IsLinked (recounted g)
    → IsLinked (recounted (read_members n src left i g).0)
unfolding read_members
read_members-IsLinked zero src left i g l = l
read_members-IsLinked (suc n) src left i g l =
    let (m, k) = Codec.from_data member (some src) left member_init in
    elim (Bool-cases (k == 0)) [
      | inl e ↦ rw e (read_members-IsLinked n src left i g l)
      | inr e ↦ rw e (
          read_members-IsLinked n (drop member_length src) (left - member_length)
            (i + member_length) (store_member m g) (store_member-IsLinked m g l))
    ]

-- Where the bytes of all members are there, each is stored.
pub read_members_all :
    (n : ℕ) (src : Bytes) (left i : ℕ) (g : GroupInfo)
    → n * member_length ≤ left
    → let (g', i') = read_members n src left i g in
      (length g'.members_list ≡ length g.members_list + n) × (i' ≡ i + n * member_length)
unfolding read_members
read_members_all zero src left i g h = (omega arith, omega arith)
read_members_all (suc n) src left i g h =
    let (m, k) = Codec.from_data member (some src) left member_init in
    let rest =
      read_members_all n (drop member_length src) (left - member_length) (i + member_length)
        (store_member m g) (omega arith) in
    rw (member_index src left (omega arith))
      (omega (arith, rest.0, length-store_member m g), omega (arith, rest.1))

-- Never more members than there are bytes for.
read_members_bound :
    (n : ℕ) (src : Bytes) (left i : ℕ) (g : GroupInfo)
    → length (read_members n src left i g).0.members_list * member_length
      ≤ length g.members_list * member_length + left
unfolding read_members
read_members_bound zero src left i g = omega arith
read_members_bound (suc n) src left i g =
    let (m, k) = Codec.from_data member (some src) left member_init in
    elim (dec_lt left member_length) [
      | yes h ↦ rw (member_refused src left h) (read_members_bound n src left i g)
      | no h ↦ rw (member_index src left (omega arith)) (
          omega (
            arith,
            length-store_member m g,
            read_members_bound n (drop member_length src) (left - member_length) (i + member_length)
                (store_member m g),
          ))
    ]

-- The fields of a group that its members are no part of.
abbrev pub SameHead : GroupInfo → GroupInfo → Type 0
SameHead g g' =
    (g'.group_guid ≡ g.group_guid)
    × (g'.member_count ≡ g.member_count)
    × (g'.learder_guid ≡ g.learder_guid)

store_member-SameHead : (m : Member) (g : GroupInfo) → SameHead g (store_member m g)
unfolding store_member
store_member-SameHead m g = ground arith

pub read_members-SameHead :
    (n : ℕ) (src : Bytes) (left i : ℕ) (g : GroupInfo) → SameHead g (read_members n src left i g).0
unfolding read_members
read_members-SameHead zero src left i g = (refl, refl, refl)
read_members-SameHead (suc n) src left i g =
    let (m, k) = Codec.from_data member (some src) left member_init in
    ground (
      arith,
      store_member-SameHead m g,
      read_members-SameHead n src left i g,
      read_members-SameHead n (drop member_length src) (left - member_length) (i + member_length)
          (store_member m g),
    )

-- `from_data` either stops at a guard, with the index 0, or runs its loop.
from_data_cases :
    (global : ℕ) (src : Bytes) (len : ℕ) (g : GroupInfo)
    → let (g', c) = group_read global g (at 0 src) in
      ((from_data global src len g).1 ≡ 0)
      ⊎ ((members_bytes g'.member_count ≤ len - c.index)
          × (from_data global src len g
              ≡ read_members g'.member_count c.rest (len - c.index) c.index g'))
unfolding from_data
from_data_cases global src len g = ground arith

group_read-IsLinked :
    (global : ℕ) (c : Cursor) → IsLinked (recounted (group_read global empty_group c).0)
unfolding group_read empty_group find
group_read-IsLinked global c = record {
  rising = omega arith;
  counted = refl;
  managers = λ k n h. cc;
  members = λ k n h. cc;
}

length-group_read :
    (global : ℕ) (c : Cursor) → length (group_read global empty_group c).0.members_list ≡ 0
unfolding group_read empty_group
length-group_read global c = refl

read_members_index :
    (n : ℕ) (src : Bytes) (left i : ℕ) (g : GroupInfo) → i ≤ (read_members n src left i g).1
unfolding read_members
read_members_index zero src left i g = omega arith
read_members_index (suc n) src left i g =
    let (m, k) = Codec.from_data member (some src) left member_init in
    ground (
      arith,
      read_members_index n src left i g,
      read_members_index n (drop member_length src) (left - member_length) (i + member_length)
          (store_member m g),
    )

-- The three fields in front of the members are read back.
group_read_back :
    (global guid count leader : ℕ) (g : GroupInfo) (rest : Bytes)
    → guid < 256 ^ 4
    → count < 256 ^ 4
    → leader < 256 ^ 4
    → group_read global g
        (at 0 (written (le_bytes 4 guid ∷ le_bytes 4 count ∷ le_bytes 4 leader ∷ []) rest))
      ≡ (
        record g {
          group_guid = if guid == 0 then inc32 global else guid;
          member_count = count;
          learder_guid = leader;
        },
        at 12 rest,
      )
unfolding group_read
group_read_back global guid count leader g rest fg fc fl = simp (
  get_num-le_bytes 4 guid _ _ fg,
  get_num-le_bytes 4 count _ _ fc,
  get_num-le_bytes 4 leader _ _ fl,
)

pub read_members-counted :
    (n : ℕ) (src : Bytes) (left i : ℕ) (g : GroupInfo)
    → IsLinked (recounted g)
    → length g.members_list ≡ 0
    → g.member_count ≡ n
    → n * member_length ≤ left
    → n * member_length < 2 ^ 32
    → IsLinked (read_members n src left i g).0
read_members-counted n src left i g linked empty c fits small =
    let l = read_members-IsLinked n src left i g linked in
    record {
      rising = l.rising;
      counted = omega (
        arith,
        (read_members_all n src left i g fits).0,
        (read_members-SameHead n src left i g).1,
      );
      managers = l.managers;
      members = l.members;
    }

-- What `from_data` accepts into a new group is linked, the count included, as long as the bytes that
-- its count stands for are fewer than 2 ^ 32.
pub from_data-IsLinked :
    (global : ℕ) (src : Bytes) (len : ℕ)
    → let (g, index) = from_data global src len empty_group in
      index ≢ 0 → g.member_count * member_length < 2 ^ 32 → IsLinked g
from_data-IsLinked global src len accepted small =
    elim (from_data_cases global src len empty_group) [
      | inl e ↦ absurd (accepted e)
      | inr (fits, e) ↦
          let (g, c) = group_read global empty_group (at 0 src) in
          let same = read_members-SameHead g.member_count c.rest (len - c.index) c.index g in
          let small' : g.member_count * member_length < 2 ^ 32 = rw (e, same.1) at small in
          rw e (
            read_members-counted g.member_count c.rest (len - c.index) c.index g
              (group_read-IsLinked global (at 0 src)) (length-group_read global (at 0 src)) refl
              (omega arith) small')
    ]

-- The group that `from_data` starts its loop with.
abbrev pub headed : ℕ → ℕ → ℕ → ℕ → GroupInfo → GroupInfo
headed global guid count leader g = record g {
  group_guid = if guid == 0 then inc32 global else guid;
  member_count = count;
  learder_guid = leader;
}

pub headed-IsLinked :
    (global guid count leader : ℕ)
    → IsLinked (recounted (headed global guid count leader empty_group))
unfolding empty_group find
headed-IsLinked global guid count leader = record {
  rising = omega arith;
  counted = refl;
  managers = λ k n h. cc;
  members = λ k n h. cc;
}

pub from_data_headed :
    (global guid count leader len : ℕ) (g : GroupInfo) (rest : Bytes)
    → guid < 256 ^ 4
    → count < 256 ^ 4
    → leader < 256 ^ 4
    → group_length g ≤ len
    → members_bytes count ≤ len - 12
    → let head = written (le_bytes 4 guid ∷ le_bytes 4 count ∷ le_bytes 4 leader ∷ []) [] in
      from_data global (head ++ rest) len g
      ≡ read_members count rest (len - 12) 12 (headed global guid count leader g)
unfolding from_data
from_data_headed global guid count leader len g rest fg fc fl h k = rw (
  written-append (le_bytes 4 guid ∷ le_bytes 4 count ∷ le_bytes 4 leader ∷ []) [] rest,
  group_read_back global guid count leader g rest fg fc fl,
  ltb-false len (group_length g) h,
  ltb-false (len - 12) (members_bytes count) k,
)

-- The product in the guard wraps: a count that stands for 2 ^ 32 bytes or more is accepted where the
-- bytes that are left over after the wrap are there, and the group has fewer members than it counts.
pub from_data_overcount :
    (global guid count leader len : ℕ) (rest : Bytes)
    → guid < 2 ^ 32
    → count < 2 ^ 32
    → leader < 2 ^ 32
    → 2 ^ 32 ≤ count * member_length
    → 12 + members_bytes count ≤ len
    → len < 2 ^ 32
    → let head = written (le_bytes 4 guid ∷ le_bytes 4 count ∷ le_bytes 4 leader ∷ []) [] in
      let (g, index) = from_data global (head ++ rest) len empty_group in
      (12 ≤ index) × (g.member_count ≡ count) × (length g.members_list < count)
from_data_overcount global guid count leader len rest fg fc fl over room fits =
    let g : GroupInfo = headed global guid count leader empty_group in
    let empty : length g.members_list ≡ 0 = unfold empty_group in refl in
    rw
      (from_data_headed global guid count leader len empty_group rest fg fc fl
        (unfold group_length empty_group in omega arith) (omega arith))
      (
        read_members_index count rest (len - 12) 12 g,
        (read_members-SameHead count rest (len - 12) 12 g).1,
        omega (arith, read_members_bound count rest (len - 12) 12 g, empty),
      )
