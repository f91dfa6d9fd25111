-- ===== src/Udp/Codec.antt =====
-- src/backend/udp/codec.rs, and `decrement_ttl` of src/backend/udp/udp.rs. A packet is the list of
-- its bytes. The accesses are unchecked in the source; `IpSlice` values come from `new`, which
-- makes sure that all the bytes read are there.
pub mod Ttl
use flannel_ng.Base.{
  ℕ, zero, suc, ◌+◌, ◌-◌, ◌*◌, ◌/◌, ◌^◌, ◌≤◌, ◌<◌, ◌≡◌, ◌≢◌, refl, ap, Option, none, some, List, [],
  ◌∷◌, arith, length, get_elem?, set, ltb, ◌==◌, if◌then◌else◌,
}
use flannel_ng.Base.Outcome.{Outcome, ok, err, ◌>>=◌, ◌>>◌, bail_if, short_ip_slice}

abbrev pub serialized_size : ℕ
serialized_size = 20

pub record IpSlice : Type 0 where
  pub slice : List ℕ

-- `get_unchecked`, within bounds
abbrev pub byte_at : List ℕ → ℕ → ℕ
byte_at bytes i = elim (get_elem? bytes i) [ none ↦ 0 | some b ↦ b ]

unfoldable pub new : List ℕ → Outcome IpSlice
new slice = do
  bail_if (ltb (length slice) serialized_size) short_ip_slice
  ok (record { slice = slice })

unfoldable pub version : IpSlice → ℕ
version packet = byte_at packet.slice 0 / 2 ^ 4

unfoldable pub ttl : IpSlice → ℕ
ttl packet = byte_at packet.slice 8

-- A write through `ttl_mut`.
unfoldable pub set_ttl : IpSlice → ℕ → IpSlice
set_ttl packet n = record { slice = set packet.slice 8 n }

-- `Ipv4Addr::from(destination())`: four bytes, the first one highest.
unfoldable pub destination : IpSlice → ℕ
destination packet =
    byte_at packet.slice 16 * 2 ^ 24
    + byte_at packet.slice 17 * 2 ^ 16
    + byte_at packet.slice 18 * 2 ^ 8
    + byte_at packet.slice 19

unfoldable pub decrement_ttl : IpSlice → IpSlice
decrement_ttl packet = if ltb 0 (ttl packet) then set_ttl packet (ttl packet - 1) else packet
