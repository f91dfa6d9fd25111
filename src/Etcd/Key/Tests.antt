-- ===== src/Etcd/Key/Tests.antt =====
-- A key on the concrete reader of keys.
use flannel_ng.Base.{◌≡◌, none}
use flannel_ng.Base.Outcome.{ok}
use flannel_ng.Crates.Reference.{Block, reference, reference_laws}
use flannel_ng.Samples.{third}
use flannel_ng.Etcd.Key.{subnet_key, extract_ip_and_subnet}
use flannel_ng.Etcd.Key.RoundTrip.{extract_ip_and_subnet-subnet_key}
use flannel_ng.Etcd.Key.Reference.{key_client, key_client_laws}

extract_ip_and_subnet-subnet_key_example :
    (m : Block) × (m.0.0 ≡ third.0.0)
    × (m.0.1 ≡ third.0.1)
    × (extract_ip_and_subnet reference key_client (subnet_key reference "/net" third)
        ≡ ok (m, none))
extract_ip_and_subnet-subnet_key_example =
    extract_ip_and_subnet-subnet_key reference reference_laws key_client key_client_laws "/net"
      third
