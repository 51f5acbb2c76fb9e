-- ===== src/Net.antt =====
-- net/ipv4/ip.c and net/ipv4/udp.c: the headers and the checksum.
pub mod Checksum
mod Tests
use relis.Prelude.{
  ℕ, zero, suc, ◌+◌, ◌-◌, ◌*◌, ◌/◌, ◌%◌, ◌^◌, ◌≤◌, ◌<◌, min, bit_and, bit_or, bit_xor, ◌≡◌, refl,
  sym, ap, ◌∙◌, subst, ◌≢◌, ◌↔◌, ◌⊎◌, inl, inr, Bool, true, false, not, ◌&&◌, ◌||◌, Option, none,
  some, List, [], ◌∷◌, ◌++◌, map, append_assoc, append-nil, arith, ltb, leb, ◌==◌, if◌then◌else◌,
  ltb→lt, lt→ltb, leb→le, ==_iff, tests, Bool-cases, Option-cases, if_lem, length, get_elem?,
  get_or, set, take, drop, replicate, length-append, length-set, get_or-set_self, get_or-set_ne,
  length-take, length-drop, take-append-drop, length-replicate, get_or-replicate, update,
  update_self, update_ne, test_bit, not64, bit_and_step, bit_or_step, test_bit-and, test_bit-or,
  test_bit-pow, test_bit-not64, bit_and-zero, bit_and-pow, bit_or-lt, bit_and-le, pow-lt,
  bit_and-ones, test_bit-zero, bit_and_align, bit_and_high, ℤ, pos, negsuc, minus_one, sub_ℕ,
}

-- `struct iphdr`, a byte or a word in memory order; the words of two bytes hold what a little-endian
-- machine stores.
pub record Iphdr : Type 0 where
  pub ihl : ℕ
  pub version : ℕ
  pub tos : ℕ
  pub tot_len : ℕ
  pub id : ℕ
  pub frag_off : ℕ
  pub ttl : ℕ
  pub protocol : ℕ
  pub check : ℕ
  pub saddr : ℕ
  pub daddr : ℕ

-- the ten words of 16 bits at `(uint16_t *)hdr`
unfoldable pub words : Iphdr → List ℕ
words h =
    (h.ihl + h.version * 2 ^ 4 + h.tos * 2 ^ 8)
    ∷ h.tot_len
    ∷ h.id
    ∷ h.frag_off
    ∷ (h.ttl + h.protocol * 2 ^ 8)
    ∷ h.check
    ∷ (h.saddr % 2 ^ 16)
    ∷ (h.saddr / 2 ^ 16)
    ∷ (h.daddr % 2 ^ 16)
    ∷ (h.daddr / 2 ^ 16)
    ∷ []

abbrev pub sum : List ℕ → ℕ
sum [] = 0
sum (w ∷ ws) = w + sum ws

-- The loop `while (sum >> 16)`, on fuel: `none` if it has not ended by then.
unfoldable pub fold : ℕ → ℕ → Option ℕ
fold zero s = none
fold (suc fuel) s =
    let rest = fold fuel ((s % 2 ^ 16 + s / 2 ^ 16) % 2 ^ 32) in
    if s / 2 ^ 16 == 0 then some s else rest

-- `(uint16_t)(~sum)` of a folded sum
abbrev pub complement : ℕ → ℕ
complement s = 2 ^ 16 - 1 - s % 2 ^ 16

unfoldable pub ip_checksum : ℕ → Iphdr → Option ℕ
unfolding fold words
ip_checksum fuel h = elim (fold fuel (sum (words h) % 2 ^ 32)) [
  | none ↦ none
  | some s ↦ some (complement s)
]

-- The header that ip_send_packet builds, before and with its checksum; `net_ip` is the global.
unfoldable pub ip_header : ℕ → ℕ → ℕ → ℕ → Iphdr
ip_header net_ip dest_ip protocol len = record {
  ihl = 5;
  version = 4;
  tos = 0;
  tot_len = (20 + len) % 2 ^ 16;
  id = 1;
  frag_off = 0;
  ttl = 64;
  protocol = protocol;
  check = 0;
  saddr = net_ip;
  daddr = dest_ip;
}

-- The packet handed on: its header, its data and `skb->len`. Three rounds are enough for the checksum.
unfoldable pub ip_send_packet : ℕ → ℕ → ℕ → List ℕ → Option (Iphdr × List ℕ × ℕ)
unfolding ip_header ip_checksum
ip_send_packet net_ip dest_ip protocol bytes =
    let h = ip_header net_ip dest_ip protocol (length bytes) in
    elim (ip_checksum 3 h) [
      | none ↦ none
      | some c ↦ some (record h { check = c }, bytes, h.tot_len)
    ]

-- `struct udphdr` of udp_send_packet, as its bytes
unfoldable pub udp_header : ℕ → ℕ → List ℕ
udp_header dest_port len =
    let udp_len = (8 + len) % 2 ^ 16 in
    (1234 % 256)
    ∷ (1234 / 256)
    ∷ (dest_port % 256)
    ∷ (dest_port / 256)
    ∷ (udp_len % 256)
    ∷ (udp_len / 256)
    ∷ 0
    ∷ 0
    ∷ []

-- `udp->len` bytes of the buffer go to ip_send_packet.
unfoldable pub udp_send_packet : ℕ → ℕ → ℕ → List ℕ → Option (Iphdr × List ℕ × ℕ)
unfolding udp_header ip_send_packet
udp_send_packet net_ip dest_ip dest_port bytes =
    ip_send_packet net_ip dest_ip 17
      (take ((8 + length bytes) % 2 ^ 16) (udp_header dest_port (length bytes) ++ bytes))
