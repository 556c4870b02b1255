-- ===== src/Adapter.antt =====
-- src/adapter.rs: which network adapter is used for what. GetAdaptersAddresses is the parameter
-- `gaa`: its answer for a buffer size, at the moment of the call; lower-casing is the parameter
-- `lower`. Reading the linked structures of the answer is left out: an `Entry` has their data.
pub mod Choice
pub mod Link
use text.Mathlib.Text.{find?}
use gdut_net.Base.{
  ℕ, ◌*◌, String, Bool, true, false, not, Option, none, some, List, [], ◌∷◌, map, ◌&&◌, ◌||◌, ◌⊎◌,
  inl, inr, ◌==◌, if◌then◌else◌, is_some, is_none, any, retain, decimal, ◌<+>◌,
}
use gdut_net.Ipv4.{Ipv4Addr}

-- VIRTUAL_KEYWORDS
abbrev pub virtual_keywords : List String
virtual_keywords =
    "wintun" ∷ "tun" ∷ "tap" ∷ "tailscale" ∷ "clash" ∷ "wireguard" ∷ "hyper-v" ∷ "vmware"
    ∷ "virtualbox" ∷ "vethernet" ∷ "loopback" ∷ "wan miniport" ∷ []

unfoldable pub is_virtual : (String → String) → String → Bool
is_virtual lower name_or_desc = any (λ k. is_some (find? (lower name_or_desc) k)) virtual_keywords

pub record AdapterInfo : Type 0 where
  pub name : String
  pub ipv4 : Ipv4Addr
  pub gateway : Option Ipv4Addr
  pub ifindex : ℕ

pub data IfType : Type 0 where
  ethernet_csmacd ppp ieee80211 other_type : IfType

-- A socket address, of the family AF_INET or not.
pub data SocketAddress : Type 0 where
  inet : Ipv4Addr → SocketAddress
  other_family : SocketAddress

-- One IP_ADAPTER_ADDRESSES_LH.
pub record Entry : Type 0 where
  pub friendly_name : String
  pub description : String
  pub if_type : IfType
  pub oper_up : Bool
  pub unicast : List SocketAddress
  pub gateways : List SocketAddress
  pub if_index : ℕ
  pub has_dns : Bool

-- The buffer is too small, an error, or the table.
pub data Gaa : Type 0 where
  buffer_overflow : ℕ → Gaa
  gaa_error : ℕ → Gaa
  table : List Entry → Gaa

pub record RawAdapter : Type 0 where
  pub name : String
  pub desc : String
  pub ipv4 : Option Ipv4Addr
  pub gateway : Option Ipv4Addr
  pub ifindex : ℕ
  pub oper_up : Bool
  pub has_dns : Bool

-- `unicast_ipv4` and `gateway_ipv4`: the first IPv4 address of a chain.
unfoldable pub first_ipv4 : List SocketAddress → Option Ipv4Addr
first_ipv4 [] = none
first_ipv4 (inet ip ∷ rest) = some ip
first_ipv4 (other_family ∷ rest) = first_ipv4 rest

unfoldable pub raw_adapter : Entry → RawAdapter
unfolding first_ipv4
raw_adapter a = record {
  name = a.friendly_name;
  desc = a.description;
  ipv4 = first_ipv4 a.unicast;
  gateway = first_ipv4 a.gateways;
  ifindex = a.if_index;
  oper_up = a.oper_up;
  has_dns = a.has_dns;
}

-- The error of a call that gave no table; ERROR_BUFFER_OVERFLOW is 111.
abbrev pub gaa_failed : ℕ → String ⊎ List RawAdapter
gaa_failed ret = inl ("GetAdaptersAddresses failed: error " <+> decimal ret)

-- What the second call leads to, or the first where its buffer was large enough.
unfoldable pub select : (Entry → Bool) → Gaa → String ⊎ List RawAdapter
unfolding raw_adapter
select selector (buffer_overflow size) = gaa_failed 111
select selector (gaa_error ret) = gaa_failed ret
select selector (table entries) = inr (map raw_adapter (retain selector entries))

-- The answer of the first call, or of the second where the buffer was too small.
abbrev pub answer : (ℕ → Gaa) → Gaa
answer gaa = elim (gaa (15 * 1024)) [
  | buffer_overflow size ↦ gaa size
  | gaa_error ret ↦ gaa_error ret
  | table entries ↦ table entries
]

unfoldable pub adapters : (Entry → Bool) → (ℕ → Gaa) → String ⊎ List RawAdapter
unfolding select
adapters selector gaa = select selector (answer gaa)

abbrev pub is_ethernet : IfType → Bool
is_ethernet ethernet_csmacd = true
is_ethernet _ = false

abbrev pub is_ppp : IfType → Bool
is_ppp ppp = true
is_ppp _ = false

abbrev pub is_wlan : IfType → Bool
is_wlan ieee80211 = true
is_wlan _ = false

-- An adapter with an address.
unfoldable pub with_ipv4 : RawAdapter → Option AdapterInfo
with_ipv4 a = elim a.ipv4 [
  | none ↦ none
  | some ipv4 ↦
      some (record { name = a.name; ipv4 = ipv4; gateway = a.gateway; ifindex = a.ifindex })
]

-- `filter_map`
unfoldable pub filter_map {ℓ κ} : {A : Type ℓ} {B : Type κ} → (A → Option B) → List A → List B
filter_map f [] = []
filter_map f (x ∷ xs) = let rest = filter_map f xs in elim (f x) [ none ↦ rest | some y ↦ y ∷ rest ]

-- One step of the stable sort by `gateway.is_none()`: an adapter goes behind those with a gateway
-- only if it has none itself, and before the others.
unfoldable pub insert : AdapterInfo → List AdapterInfo → List AdapterInfo
insert x [] = x ∷ []
insert x (y ∷ ys) =
    let rest = insert x ys in
    if is_none x.gateway && is_some y.gateway then y ∷ rest else x ∷ y ∷ ys

unfoldable pub sort : List AdapterInfo → List AdapterInfo
unfolding insert
sort [] = []
sort (x ∷ xs) = insert x (sort xs)

-- `into_iter().next()`
abbrev pub head {ℓ} : {A : Type ℓ} → List A → Option A
head [] = none
head (x ∷ xs) = some x

module _ (lower : String → String) where
  -- The adapter is not virtual by its name or its description.
  abbrev pub is_real : RawAdapter → Bool
  is_real a = not (is_virtual lower a.name) && not (is_virtual lower a.desc)

  unfoldable pub candidates : List RawAdapter → List AdapterInfo
  unfolding filter_map with_ipv4
  candidates list = filter_map with_ipv4 (retain is_real list)

  unfoldable pub physical_adapter : (ℕ → Gaa) → String ⊎ AdapterInfo
  unfolding adapters candidates sort
  physical_adapter gaa = elim (adapters (λ a. is_ethernet a.if_type && a.oper_up) gaa) [
    | inl e ↦ inl e
    | inr list ↦ elim (head (sort (candidates list))) [
      | none ↦ inl "No usable physical Ethernet adapter found"
      | some a ↦ inr a
    ]
  ]

  unfoldable pub wlan_adapter : (ℕ → Gaa) → Option AdapterInfo
  unfolding adapters candidates sort
  wlan_adapter gaa = elim (adapters (λ a. is_wlan a.if_type && a.oper_up) gaa) [
    | inl e ↦ none
    | inr list ↦ head (sort (candidates list))
  ]

  -- The loop of `ethernet_link_up`: whether a real adapter was found, and whether one is up.
  unfoldable pub link_scan : Bool × Bool → List RawAdapter → Bool × Bool
  link_scan seen [] = seen
  link_scan (found, up) (a ∷ rest) =
      let next = link_scan (true, up || a.oper_up) rest in
      let skipped = link_scan (found, up) rest in
      if is_virtual lower a.name || is_virtual lower a.desc then skipped else next

  unfoldable pub ethernet_link_up : (ℕ → Gaa) → Option Bool
  unfolding adapters link_scan
  ethernet_link_up gaa = elim (adapters (λ a. is_ethernet a.if_type) gaa) [
    | inl e ↦ none
    | inr list ↦ let (found, up) = link_scan (false, false) list in if found then some up else none
  ]

unfoldable pub ppp_adapter_ip : (ℕ → Gaa) → Option Ipv4Addr
unfolding adapters filter_map
ppp_adapter_ip gaa = elim (adapters (λ a. is_ppp a.if_type) gaa) [
  | inl e ↦ none
  | inr list ↦ head (filter_map (λ a. a.ipv4) list)
]

unfoldable pub ppp_adapter : (ℕ → Gaa) → Option AdapterInfo
unfolding adapters filter_map with_ipv4
ppp_adapter gaa = elim (adapters (λ a. is_ppp a.if_type) gaa) [
  | inl e ↦ none
  | inr list ↦ head (filter_map with_ipv4 list)
]

unfoldable pub other_adapter_has_dns : (ℕ → Gaa) → Bool
unfolding adapters
other_adapter_has_dns gaa = elim (adapters (λ a. not (is_ppp a.if_type) && a.oper_up) gaa) [
  | inl e ↦ false
  | inr list ↦ any (λ a. a.has_dns) list
]
