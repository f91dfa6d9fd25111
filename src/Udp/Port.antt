-- ===== src/Udp/Port.antt =====
-- `get_port_from_config` of src/backend/udp/udp.rs.
use flannel_ng.Base.{ℕ, ◌%◌, ◌^◌, Option, none, some}
use flannel_ng.Crates.{Crates}
use flannel_ng.Subnet.Config.{Config}

abbrev pub default_port : ℕ
default_port = 8285

abbrev pub encap_overhead : ℕ
encap_overhead = 28

-- `Option::unwrap_or`
abbrev pub unwrap_or {ℓ} : {A : Type ℓ} → Option A → A → A
unwrap_or none d = d
unwrap_or (some a) d = a

-- `Option::and_then`
abbrev pub and_then {ℓ κ} : {A : Type ℓ} {B : Type κ} → Option A → (A → Option B) → Option B
and_then none f = none
and_then (some a) f = f a

module _ (c : Crates) where
  -- `as u16` keeps the sixteen lowest bits.
  abbrev pub port_of : Option (c.Value) → ℕ
  port_of none = default_port
  port_of (some backend) =
      unwrap_or (and_then (and_then (c.as_object backend) (λ it. c.get it "Port")) c.as_u64)
        default_port
      % 2 ^ 16

  unfoldable pub get_port_from_config : Config c → ℕ
  get_port_from_config config = port_of config.backend
