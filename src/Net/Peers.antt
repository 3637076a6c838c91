-- ===== src/Net/Peers.antt =====
-- `ipport`, `peerinfo` and the map from one to the other (include/struct_def.h): a `std::map` that
-- `ipport::operator<` orders.
use aim_to_v.Base.{
  ℕ, ◌+◌, ◌%◌, ◌^◌, ◌≡◌, ◌⊎◌, inl, inr, Bool, true, false, ◌&&◌, ◌||◌, ltb, ◌==◌, if◌then◌else◌,
  Option, none, some, List, [], ◌∷◌, Bool-cases, arith,
}

pub record Ipport : Type 0 where
  pub ip : ℕ
  pub port : ℕ

-- `operator<`
unfoldable pub ipport_less : Ipport → Ipport → Bool
ipport_less a b = ltb a.ip b.ip || (a.ip == b.ip && ltb a.port b.port)

-- `operator==`
unfoldable pub ipport_same : Ipport → Ipport → Bool
ipport_same a b = a.ip == b.ip && a.port == b.port

pub record PeerInfo : Type 0 where
  pub fd : ℕ
  pub contime : ℕ
  pub rcvtime : ℕ
  pub rcvbyte : ℕ
  pub sndtime : ℕ
  pub sndbyte : ℕ

abbrev pub PeerMap : Type 0
PeerMap = List (Ipport × PeerInfo)

-- `peer.find(key)`: the map takes two keys for the same when neither is less.
unfoldable pub find_peer : Ipport → PeerMap → Option PeerInfo
find_peer key [] = none
find_peer key ((k, p) ∷ m) =
    let rest = find_peer key m in
    if ipport_less k key then rest else if ipport_less key k then none else some p

-- `peer[key] = info`
unfoldable pub put_peer : Ipport → PeerInfo → PeerMap → PeerMap
put_peer key info [] = (key, info) ∷ []
put_peer key info ((k, p) ∷ m) =
    let rest = put_peer key info m in
    if ipport_less k key
    then (k, p) ∷ rest
    else if ipport_less key k
    then (key, info) ∷ (k, p) ∷ m
    else (k, info) ∷ m

-- `rcvtime = time(NULL); rcvbyte += nread`
abbrev pub received : ℕ → ℕ → PeerInfo → PeerInfo
received now nread p = record p { rcvtime = now; rcvbyte = (p.rcvbyte + nread) % 2 ^ 32 }

-- The order that a `std::map` asks for: of two keys exactly one is less than the other, unless they
-- are the same key.
pub ipport_less_trichotomy :
    (a b : Ipport)
    → ((ipport_less a b ≡ true) × (ipport_less b a ≡ false) × (ipport_same a b ≡ false))
      ⊎ (((ipport_less a b ≡ false) × (ipport_less b a ≡ true) × (ipport_same a b ≡ false))
          ⊎ ((ipport_less a b ≡ false) × (ipport_less b a ≡ false) × (ipport_same a b ≡ true)))
unfolding ipport_less ipport_same
ipport_less_trichotomy a b = elim (Bool-cases (ltb a.ip b.ip)) [
  | inl lower ↦ inl (ground (arith, lower), ground (arith, lower), ground (arith, lower))
  | inr q ↦ elim (Bool-cases (ltb b.ip a.ip)) [
    | inl higher ↦
        inr (inl (ground (arith, higher), ground (arith, higher), ground (arith, higher)))
    | inr q2 ↦ elim (Bool-cases (ltb a.port b.port)) [
      | inl lower ↦ inl (ground arith, ground arith, ground arith)
      | inr q3 ↦ elim (Bool-cases (ltb b.port a.port)) [
        | inl higher ↦ inr (inl (ground arith, ground arith, ground arith))
        | inr q4 ↦ inr (inr (ground arith, ground arith, ground arith))
      ]
    ]
  ]
]

pub ipport_less_trans :
    (a b c : Ipport) → ipport_less a b ≡ true → ipport_less b c ≡ true → ipport_less a c ≡ true
unfolding ipport_less
ipport_less_trans a b c h k = ground (arith, h, k)

ipport_same-true : (a b : Ipport) → ipport_same a b ≡ true → a ≡ b
unfolding ipport_same
ipport_same-true a b h =
    let p : a.ip ≡ b.ip = ground (arith, h) in
    let q : a.port ≡ b.port = ground (arith, h) in ground (arith, p, q)
