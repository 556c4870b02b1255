-- ===== src/Heartbeat/Spec.antt =====
-- src/heartbeat/spec.rs: the packets of the heartbeat. A packet is a list of bytes; arrays of two
-- and four bytes are records. The digests of the crates md5, md4 and sha1 are the parameter
-- `Digests`.
pub mod Checksum
pub mod Fields
use Prim.Native.Nat.{bit_and, bit_xor}
use gdut_net.Base.{
  ℕ, zero, suc, ◌+◌, ◌*◌, ◌/◌, ◌%◌, ◌^◌, Bool, true, false, Option, none, some, List, [], ◌∷◌, ◌++◌,
  ◌&&◌, leb, ◌==◌, if◌then◌else◌, length, take, drop,
}

-- An array of four bytes: Seed, HostIp, Key.
pub record Bytes4 : Type 0 where
  pub b0 : ℕ
  pub b1 : ℕ
  pub b2 : ℕ
  pub b3 : ℕ

-- An array of two bytes: Flag.
pub record Bytes2 : Type 0 where
  pub b0 : ℕ
  pub b1 : ℕ

abbrev pub list4 : Bytes4 → List ℕ
list4 x = x.b0 ∷ x.b1 ∷ x.b2 ∷ x.b3 ∷ []

abbrev pub list2 : Bytes2 → List ℕ
list2 x = x.b0 ∷ x.b1 ∷ []

-- The byte at an index, which the callers have bounded.
abbrev pub byte : List ℕ → ℕ → ℕ
byte [] i = 0
byte (x ∷ xs) zero = x
byte (x ∷ xs) (suc i) = byte xs i

-- `pkt[i] = x`
abbrev pub set : ℕ → ℕ → List ℕ → List ℕ
set i x [] = []
set zero x (y ∷ ys) = x ∷ ys
set (suc i) x (y ∷ ys) = y ∷ set i x ys

-- `copy_from_slice` at an offset, where the array is long enough.
abbrev pub copy_at : ℕ → List ℕ → List ℕ → List ℕ
copy_at i [] pkt = pkt
copy_at i (x ∷ xs) pkt = copy_at (suc i) xs (set i x pkt)

-- `[0u8; n]`
abbrev pub zeros : ℕ → List ℕ
zeros zero = []
zeros (suc n) = 0 ∷ zeros n

-- Four bytes from an offset on.
abbrev pub read4 : ℕ → List ℕ → Bytes4
read4 i p = record { b0 = byte p i; b1 = byte p (i + 1); b2 = byte p (i + 2); b3 = byte p (i + 3) }

-- KA1_LEN
abbrev pub ka1_len : ℕ
ka1_len = 96

-- KA2_LEN
abbrev pub ka2_len : ℕ
ka2_len = 40

-- `u32::to_le_bytes`
unfoldable pub to_le_bytes : ℕ → Bytes4
to_le_bytes v = record {
  b0 = v % 256;
  b1 = v / 256 % 256;
  b2 = v / 65536 % 256;
  b3 = v / 16777216 % 256;
}

unfoldable pub next_cnt : ℕ → ℕ
next_cnt cnt = (cnt + 2) % 256 % 128

unfoldable pub ka1_pkt1 : ℕ → List ℕ
ka1_pkt1 cnt = 7 ∷ cnt ∷ 8 ∷ 0 ∷ 1 ∷ 0 ∷ 0 ∷ 0 ∷ []

-- `pkt.first() != Some(&0x07) || pkt.len() < min`, negated
unfoldable pub is_reply : ℕ → List ℕ → Bool
is_reply least [] = false
is_reply least (x ∷ xs) = x == 7 && leb least (length (x ∷ xs))

-- The flag that a file packet carries.
unfoldable pub file_flag : List ℕ → Option Bytes2
file_flag pkt =
    if byte pkt 2 == 16 then some (record { b0 = byte pkt 6; b1 = byte pkt 7 }) else none

pub record Ka1Init : Type 0 where
  pub seed : Bytes4
  pub host_ip : Bytes4
  pub flag : Option Bytes2

unfoldable pub parse_ka1_resp : List ℕ → Option Ka1Init
unfolding is_reply file_flag
parse_ka1_resp pkt =
    if is_reply 30 pkt
    then some (record { seed = read4 8 pkt; host_ip = read4 12 pkt; flag = file_flag pkt })
    else none

pub record Ka2Resp : Type 0 where
  pub key : Bytes4
  pub flag : Option Bytes2

unfoldable pub parse_ka2_resp : List ℕ → Option Ka2Resp
unfolding is_reply file_flag
parse_ka2_resp pkt =
    if is_reply 20 pkt then some (record { key = read4 16 pkt; flag = file_flag pkt }) else none

unfoldable pub plain_bytes : List ℕ
unfolding to_le_bytes
plain_bytes = list4 (to_le_bytes 20000711) ++ list4 (to_le_bytes 126)

pub record Digests : Type 0 where
  pub md5 : List ℕ → List ℕ
  pub md4 : List ℕ → List ℕ
  pub sha1 : List ℕ → List ℕ

-- Eight bytes of a digest.
abbrev pub pick : ℕ → ℕ → ℕ → ℕ → ℕ → ℕ → ℕ → ℕ → List ℕ → List ℕ
pick a b c d e f g h digest =
    byte digest a
    ∷ byte digest b
    ∷ byte digest c
    ∷ byte digest d
    ∷ byte digest e
    ∷ byte digest f
    ∷ byte digest g
    ∷ byte digest h
    ∷ []

-- The 16-bit little-endian words of a packet, all combined by exclusive or.
unfoldable pub xor_words : ℕ → List ℕ → ℕ
xor_words sum [] = sum
xor_words sum (a ∷ []) = sum
xor_words sum (a ∷ b ∷ rest) = xor_words (bit_xor sum (a + b * 256)) rest

unfoldable pub ka2_checksum : List ℕ → Bytes4
unfolding xor_words to_le_bytes
ka2_checksum pkt = to_le_bytes (xor_words 0 pkt * 0x2c7 % 2 ^ 32)

-- `u16::to_be_bytes`
abbrev pub to_be_bytes : ℕ → List ℕ
to_be_bytes rand = rand / 256 ∷ rand % 256 ∷ []

-- The fields that both packets of the second exchange begin with.
unfoldable pub ka2_head : ℕ → ℕ → Bytes2 → ℕ → Bytes4 → List ℕ
ka2_head kind cnt flag rand key =
    let pkt = set 0 7 (zeros ka2_len) in
    let pkt = set 1 cnt pkt in
    let pkt = set 2 0x28 pkt in
    let pkt = set 3 0 pkt in
    let pkt = set 4 0x0b pkt in
    let pkt = set 5 kind pkt in
    let pkt = copy_at 6 (list2 flag) pkt in
    let pkt = copy_at 8 (to_be_bytes rand) pkt in copy_at 16 (list4 key) pkt

unfoldable pub ka2_pkt1 : ℕ → Bytes2 → ℕ → Bytes4 → List ℕ
unfolding ka2_head
ka2_pkt1 cnt flag rand key = ka2_head 1 cnt flag rand key

-- The second packet before its checksum is written.
unfoldable pub ka2_unsummed : ℕ → Bytes2 → ℕ → Bytes4 → Bytes4 → List ℕ
unfolding ka2_head
ka2_unsummed cnt flag rand key host_ip = copy_at 28 (list4 host_ip) (ka2_head 3 cnt flag rand key)

unfoldable pub ka2_pkt2 : ℕ → Bytes2 → ℕ → Bytes4 → Bytes4 → List ℕ
unfolding ka2_unsummed ka2_checksum
ka2_pkt2 cnt flag rand key host_ip =
    let pkt = ka2_unsummed cnt flag rand key host_ip in copy_at 24 (list4 (ka2_checksum pkt)) pkt

module _ (digests : Digests) where
  unfoldable pub md5_bytes : Bytes4 → List ℕ
  md5_bytes seed = pick 2 3 8 9 5 6 13 14 (digests.md5 (list4 seed))

  unfoldable pub md4_bytes : Bytes4 → List ℕ
  md4_bytes seed = pick 1 2 8 9 4 5 11 12 (digests.md4 (list4 seed))

  unfoldable pub sha1_bytes : Bytes4 → List ℕ
  sha1_bytes seed = pick 2 3 9 10 5 6 15 16 (digests.sha1 (list4 seed))

  unfoldable pub crypt_bytes : Bytes4 → List ℕ
  unfolding plain_bytes md5_bytes md4_bytes sha1_bytes
  crypt_bytes seed =
      let mode = bit_and seed.b0 3 in
      if mode == 0
      then plain_bytes
      else if mode == 1
      then md5_bytes seed
      else if mode == 2
      then md4_bytes seed
      else sha1_bytes seed

  unfoldable pub ka1_pkt2 : ℕ → Bool → Bytes4 → Bytes4 → Bytes2 → List ℕ
  unfolding crypt_bytes
  ka1_pkt2 cnt first host_ip seed flag =
      let pkt = set 0 7 (zeros ka1_len) in
      let pkt = set 1 cnt pkt in
      let pkt = set 2 0x60 pkt in
      let pkt = set 3 0 pkt in
      let pkt = set 4 3 pkt in
      let pkt = set 5 0 pkt in
      let pkt = copy_at 12 (list4 host_ip) pkt in
      let pkt = set 16 0 pkt in
      let pkt = set 17 (if first then 0x62 else 0x63) pkt in
      let pkt = copy_at 18 (list2 flag) pkt in
      let pkt = copy_at 20 (list4 seed) pkt in copy_at 24 (crypt_bytes seed) pkt
