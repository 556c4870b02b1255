-- ===== src/Wireless/Address.antt =====
-- The addresses of src/wireless/mod.rs as Windows has them in memory, on a little-endian machine.
use gdut_net.Base.{ℕ, ◌+◌, ◌*◌, ◌/◌, ◌%◌, ◌^◌, ◌<◌, ◌≡◌, ap₂, arith}
use gdut_net.Ipv4.{Ipv4Addr}

-- `u32::from` and `Ipv4Addr::from`
abbrev pub to_number : Ipv4Addr → ℕ
to_number ip = ip.a * 2 ^ 24 + ip.b * 2 ^ 16 + ip.c * 2 ^ 8 + ip.d

abbrev pub of_number : ℕ → Ipv4Addr
of_number v = record { a = v / 2 ^ 24; b = v / 2 ^ 16 % 256; c = v / 2 ^ 8 % 256; d = v % 256 }

abbrev of_pairs : ℕ × ℕ → ℕ × ℕ → Ipv4Addr
of_pairs x y = record { a = x.0; b = x.1; c = y.0; d = y.1 }

-- `to_be`, which swaps the bytes.
abbrev pub to_be : ℕ → ℕ
to_be v = v % 256 * 2 ^ 24 + v / 2 ^ 8 % 256 * 2 ^ 16 + v / 2 ^ 16 % 256 * 2 ^ 8 + v / 2 ^ 24

unfoldable pub ipv4_to_s_addr : Ipv4Addr → ℕ
ipv4_to_s_addr ip = to_be (to_number ip)

unfoldable pub s_addr_to_ipv4 : ℕ → Ipv4Addr
s_addr_to_ipv4 v = of_number (to_be v)

-- The first byte of an address is the lowest of its number.
ipv4_to_s_addr_lem :
    (ip : Ipv4Addr)
    → ip.a < 256
    → ip.b < 256
    → ip.c < 256
    → ip.d < 256
    → ipv4_to_s_addr ip ≡ ip.a + 2 ^ 8 * ip.b + 2 ^ 16 * ip.c + 2 ^ 24 * ip.d
unfolding ipv4_to_s_addr
ipv4_to_s_addr_lem ip ha hb hc hd = omega (arith, ha, hb, hc, hd)

-- An address comes back from its number.
pub s_addr_to_ipv4-ipv4_to_s_addr :
    (a b c d : ℕ)
    → a < 256
    → b < 256
    → c < 256
    → d < 256
    → s_addr_to_ipv4 (ipv4_to_s_addr (record { a = a; b = b; c = c; d = d }))
      ≡ record { a = a; b = b; c = c; d = d }
unfolding s_addr_to_ipv4
s_addr_to_ipv4-ipv4_to_s_addr a b c d ha hb hc hd =
    let v = ipv4_to_s_addr (record { a = a; b = b; c = c; d = d }) in
    let e = ipv4_to_s_addr_lem (record { a = a; b = b; c = c; d = d }) ha hb hc hd in
    let w = to_be v in
    let first : w / 2 ^ 24 ≡ a = omega (arith, e, ha, hb, hc, hd) in
    let second : w / 2 ^ 16 % 256 ≡ b = omega (arith, e, ha, hb, hc, hd) in
    let third : w / 2 ^ 8 % 256 ≡ c = omega (arith, e, ha, hb, hc, hd) in
    let fourth : w % 256 ≡ d = omega (arith, e, ha, hb, hc, hd) in
    ap₂ of_pairs (ap₂ (λ x y. (x, y)) first second) (ap₂ (λ x y. (x, y)) third fourth)
