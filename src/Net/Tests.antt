-- ===== src/Net/Tests.antt =====
-- Runs of net/ipv4/, and the checksum's theorem at a concrete header.
use relis.Prelude.{ℕ, ◌%◌, ◌^◌, ◌<◌, ◌≡◌, refl, Option, none, some, List, [], ◌∷◌, arith}
use relis.Net.{Iphdr, words, sum, ip_header, ip_checksum, udp_send_packet}
use relis.Net.Checksum.{IsHeader, ip_checksum-receiver}

abbrev header : Iphdr
header = record {
  ihl = 5;
  version = 4;
  tos = 0;
  tot_len = 48;
  id = 1;
  frag_off = 0;
  ttl = 64;
  protocol = 17;
  check = 0;
  saddr = 0x0f02000a;
  daddr = 0x0202000a;
}

header-IsHeader : IsHeader header
header-IsHeader = record {
  ihl = omega arith;
  version = omega arith;
  tos = omega arith;
  tot_len = omega arith;
  id = omega arith;
  frag_off = omega arith;
  ttl = omega arith;
  protocol = omega arith;
  check = omega arith;
  saddr = omega arith;
  daddr = omega arith;
}

built : ip_header 0x0f02000a 0x0202000a 17 28 ≡ header
unfolding ip_header
built = refl

abbrev sent : Option (Iphdr × List ℕ × ℕ) → ℕ
sent none = 0
sent (some packet) = packet.2

-- the eight bytes of the UDP header come before the three of data
sent_length : sent (udp_send_packet 1 2 53 (7 ∷ 8 ∷ 9 ∷ [])) ≡ 31
unfolding udp_send_packet
sent_length = refl

ip_checksum-receiver_example :
    (c : ℕ) × (ip_checksum 3 header ≡ some c
      × c < 2 ^ 16
      × sum (words (record header { check = c })) % 65535 ≡ 0)
ip_checksum-receiver_example = ip_checksum-receiver header header-IsHeader refl
