-- ===== src/Samples.antt =====
-- Sample networks, leases and configurations for the tests.
use flannel_ng.Base.{ℕ, true, false, none, some, arith}
use flannel_ng.Crates.Reference.{Block, reference}
use flannel_ng.Lease.{Lease, default_attrs}
use flannel_ng.Subnet.Config.{Config}

-- 172.17.0.0/16
abbrev pub sample_network : Block
sample_network = ((0xAC110000, 16), (omega arith, omega arith))

-- 172.17.n.0/24
abbrev pub third : Block
third = ((0xAC110300, 24), (omega arith, omega arith))

abbrev pub fifth : Block
fifth = ((0xAC110500, 24), (omega arith, omega arith))

abbrev pub sample_lease : Block → ℕ → Lease reference
sample_lease subnet public_ip = record {
  enable_ipv4 = true;
  subnet = subnet;
  enable_ipv6 = false;
  ipv6_subnet = none;
  attrs = record (default_attrs reference) { public_ip = public_ip };
  expiration = 86400;
}

abbrev pub bare_config : Config reference
bare_config = record {
  enable_ipv4 = true;
  enable_ipv6 = false;
  network = some sample_network;
  ipv6_network = none;
  subnet_min = none;
  subnet_max = none;
  ipv6_subnet_min = none;
  ipv6_subnet_max = none;
  subnet_len = 0;
  ipv6_subnet_len = 0;
  backend_type = none;
  backend = none;
}

-- What the check makes of it: from 172.17.1.0 to 172.17.255.0.
abbrev pub full_config : Config reference
full_config = record bare_config {
  subnet_len = 24;
  subnet_min = some 0xAC110100;
  subnet_max = some 0xAC11FF00;
}
