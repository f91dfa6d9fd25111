-- ===== src/Udp/Codec/Ttl.antt =====
-- What `decrement_ttl` does to a packet.
use flannel_ng.Base.{
  ℕ, zero, suc, ◌-◌, ◌<◌, ◌≡◌, ◌≢◌, refl, ap, some, List, [], ◌∷◌, arith, length, get_elem?, set,
  ◌==◌, if◌then◌else◌,
}
use flannel_ng.Base.Outcome.{ok}
use flannel_ng.Udp.Codec.{IpSlice, byte_at, new, version, ttl, set_ttl, destination, decrement_ttl}

get_elem?-set :
    (xs : List ℕ) (i j v : ℕ)
    → i < length xs
    → get_elem? (set xs i v) j ≡ (if i == j then some v else get_elem? xs j)
get_elem?-set [] i j v h = absurd (omega arith)
get_elem?-set (x ∷ xs) zero zero v h = refl
get_elem?-set (x ∷ xs) zero (suc j) v h = ground arith
get_elem?-set (x ∷ xs) (suc i) zero v h = ground arith
get_elem?-set (x ∷ xs) (suc i) (suc j) v h = ground (arith, get_elem?-set xs i j v (omega arith))

length-set : (xs : List ℕ) (i v : ℕ) → length (set xs i v) ≡ length xs
length-set [] i v = refl
length-set (x ∷ xs) zero v = refl
length-set (x ∷ xs) (suc i) v = ap suc (length-set xs i v)

byte_present : (xs : List ℕ) (i : ℕ) → i < length xs → get_elem? xs i ≡ some (byte_at xs i)
byte_present [] i h = absurd (omega arith)
byte_present (x ∷ xs) zero h = refl
byte_present (x ∷ xs) (suc i) h = byte_present xs i (omega arith)

pub slice_of_new :
    (bytes : List ℕ) (packet : IpSlice) → new bytes ≡ ok packet → packet.slice ≡ bytes
unfolding new
slice_of_new bytes packet made = ground arith

-- Of a packet that `new` accepts, `decrement_ttl` takes one from the ninth byte, down to 0 at
-- least, and leaves the length and every other byte.
pub decrement_ttl_lem :
    (bytes : List ℕ) (packet : IpSlice) (j : ℕ)
    → new bytes ≡ ok packet
    → (get_elem? (decrement_ttl packet).slice j
        ≡ (if 8 == j then some (byte_at bytes 8 - 1) else get_elem? bytes j))
      × (length (decrement_ttl packet).slice ≡ length bytes)
unfolding new decrement_ttl set_ttl ttl
decrement_ttl_lem bytes packet j made =
    let long : 8 < length bytes = ground arith in
    (
      ground (arith, get_elem?-set bytes 8 j (byte_at bytes 8 - 1) long, byte_present bytes 8 long),
      ground (arith, length-set bytes 8 (byte_at bytes 8 - 1)),
    )

byte-decrement_ttl :
    (bytes : List ℕ) (packet : IpSlice) (j : ℕ)
    → new bytes ≡ ok packet
    → j ≢ 8
    → byte_at (decrement_ttl packet).slice j ≡ byte_at bytes j
byte-decrement_ttl bytes packet j made other = ground (arith, decrement_ttl_lem bytes packet j made)

-- So a packet keeps its destination and its version on the way.
pub destination-decrement_ttl :
    (bytes : List ℕ) (packet : IpSlice)
    → new bytes ≡ ok packet
    → (destination (decrement_ttl packet) ≡ destination packet)
      × (version (decrement_ttl packet) ≡ version packet)
unfolding destination version
destination-decrement_ttl bytes packet made = ground (
  arith,
  slice_of_new bytes packet made,
  byte-decrement_ttl bytes packet 0 made (omega arith),
  byte-decrement_ttl bytes packet 16 made (omega arith),
  byte-decrement_ttl bytes packet 17 made (omega arith),
  byte-decrement_ttl bytes packet 18 made (omega arith),
  byte-decrement_ttl bytes packet 19 made (omega arith),
)
