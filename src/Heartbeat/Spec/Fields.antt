-- ===== src/Heartbeat/Spec/Fields.antt =====
-- The fields of the packets at the offsets where the parsers read them.
use gdut_net.Base.{ℕ, ◌+◌, ◌*◌, ◌≡◌, refl, length, arith}
use gdut_net.Heartbeat.Spec.{
  Bytes4, Bytes2, byte, zeros, copy_at, read4, ka2_checksum, ka2_head, ka2_unsummed, ka2_pkt2,
}

-- The second packet carries, from byte 24 on, the checksum of the same packet with four zero bytes
-- there, which is how a receiver checks it; the address, the key and the length are where they
-- belong.
pub ka2_pkt2_sound :
    (cnt : ℕ) (flag : Bytes2) (rand : ℕ) (key host_ip : Bytes4)
    → let pkt = ka2_pkt2 cnt flag rand key host_ip in
      (read4 24 pkt ≡ ka2_checksum (copy_at 24 (zeros 4) pkt))
      × (read4 16 pkt ≡ key)
      × (read4 28 pkt ≡ host_ip)
      × (byte pkt 8 * 256 + byte pkt 9 ≡ rand)
      × (length pkt ≡ 40)
unfolding ka2_pkt2 ka2_unsummed ka2_head
ka2_pkt2_sound cnt flag rand key host_ip = (refl, refl, refl, omega arith, refl)

-- What is learned from the answer to the probe is what the next packet says: its address and seed
-- are at the same offsets as in the answer, moved by 0 and 12 bytes, and its length is 96.
