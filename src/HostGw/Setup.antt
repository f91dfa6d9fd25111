-- ===== src/HostGw/Setup.antt =====
-- How the host gateway of src/backend/hostgw/hostgw.rs registers.
use flannel_ng.Base.{ℕ, String, Option, some}
use flannel_ng.Base.Outcome.{unwrap}
use flannel_ng.Base.Io.{Io, pure, lift, ◌>>=◌}
use flannel_ng.Crates.{Crates}
use flannel_ng.Lease.{Lease, LeaseAttrs, default_attrs}
use flannel_ng.Etcd.{Client}
use flannel_ng.Iface.{ExternalInterface}
use flannel_ng.Subnet.Config.{Config}
use flannel_ng.Subnet.Acquire.{acquire_lease}

module _ (c : Crates) where
  -- The fields of `RouterNetwork` that are values of the program. Its routes are none at first.
  pub record RouterNetwork : Type 0 where
    pub subnet_lease : Lease c
    pub ext_iface : ExternalInterface
    pub backend_type : String
    pub mtu : ℕ
    pub link_index : ℕ

  abbrev pub gateway_attrs : ℕ → LeaseAttrs c
  gateway_attrs ext_addr = record (default_attrs c) {
    backend_type = some "host-gw";
    public_ip = ext_addr;
  }

module _ (c : Crates) (client : Client c) (prefix : String) (from_str : String → Option (Config c))
    (pick : ℕ → ℕ) where
  open client use {World}

  unfoldable pub register_network : ExternalInterface → Io World (RouterNetwork c)
  unfolding ◌>>=◌ acquire_lease
  register_network ext_iface = do
    ext_addr ← lift (unwrap ext_iface.ext_addr)
    l ← acquire_lease c client prefix from_str pick (gateway_attrs c ext_addr)
    pure (record {
      subnet_lease = l;
      ext_iface = ext_iface;
      backend_type = "host-gw";
      mtu = ext_iface.iface.mtu;
      link_index = ext_iface.iface.index;
    })
