-- ===== src/Start/Tests.antt =====
-- The choice of a back end at a type in mixed case, and a start of the program with the UDP back end.
use native.Mathlib.Decide.{dec_lt, dec_le}
use flannel_ng.Base.{
  if◌then◌else◌, str_eq, ◌==◌, map, retain, List, ◌∙◌, ℕ, String, ◌-◌, ◌≡◌, ◌↔◌, refl, sym, ap,
  Option, none, some, true, [], ◌∷◌, arith,
}
use flannel_ng.Base.Outcome.{ok, some_inj}
use flannel_ng.Base.Io.{on_left, on_right, caught}
use flannel_ng.Iface.{ExternalInterface}
use flannel_ng.Start.{host_gw_backend, lower_eq, get_backend, Started, start}
use flannel_ng.Start.Ready.{IsReady, start-IsReady}
use flannel_ng.Base.Word.{size}
use flannel_ng.Crates.Reference.{Block, reference, reference_laws, make, base, meet}
use flannel_ng.Samples.{third, sample_network, sample_lease, bare_config}
use flannel_ng.Etcd.Regex.{captures}
use flannel_ng.Etcd.{Client, KeyValue, GetResponse}
use flannel_ng.Lease.{LeaseAttrs}
use flannel_ng.Subnet.Acquire.Held.{GetLaws, HoldsConfig}
use flannel_ng.Etcd.Reference.{Entry, to_kv, Store, store_client, commit}
use flannel_ng.Etcd.Key.{push, extract_ip_and_subnet}
use flannel_ng.Etcd.Registry.{get_subnets}
use flannel_ng.Netlink.{Link, other, net4}
use flannel_ng.Netlink.Reference.{
  Tables, tables_netlink, empty_tables, named, indexed, of_link, resized,
}
use flannel_ng.Subnet.Config.{Config}
use flannel_ng.Subnet.Config.Check.{
  check_network_config, check_ipv4, choose_len, choose_min, choose_max, check_alignment,
}
use flannel_ng.Subnet.Network.{next_network}
use flannel_ng.Subnet.Allocate.{allocate_subnet, collect, overlaps_any}
use flannel_ng.Subnet.Allocate.Sound.{IsPick}
use flannel_ng.Subnet.Acquire.Within.{IsNetwork}
use flannel_ng.Vxlan.{Formats}
use flannel_ng.Base.Integer.{pos}
use flannel_ng.Tun.{Os, done, pending}
use flannel_ng.Udp.Setup.{Devices}
use flannel_ng.Env.Decimal.{parse_block, show_block, block_text, numbers, is_digit}
use flannel_ng.Start.Command.{split_commas}
use flannel_ng.Start.Choice.{name_of, Fits, get_backend_iff}

abbrev eth0 : ExternalInterface
eth0 = record {
  iface = record { index = 2; mtu = 1500; name = "eth0" };
  iface_addr = 9;
  iface_v6_addr = none;
  ext_addr = some 9;
  ext_v6_addr = none;
}

get_backend_iff_example :
    (get_backend "Host-GW" eth0 ≡ ok host_gw_backend)
    ↔ ((lower_eq "Host-GW" (name_of host_gw_backend) ≡ true) × Fits host_gw_backend eth0)
get_backend_iff_example = get_backend_iff "Host-GW" eth0 host_gw_backend

abbrev last_pick : ℕ → ℕ
last_pick n = n - 1

last_pick-IsPick : IsPick last_pick
last_pick-IsPick n h = omega arith

abbrev client : Client reference
client = record store_client {
  to_str = λ v. if v.public_ip == 7 then some "{}" else some "other";
  parse_ipv4 = parse_block;
}

abbrev block_of_eth0 : Block
block_of_eth0 = ((0x0A000009, 8), (omega arith, omega arith))

abbrev any : Block
any = ((0, 0), (omega arith, omega arith))

abbrev link_of : ℕ → String → Link
link_of index name = record {
  index = index;
  name = name;
  mtu = 1500;
  hardware_addr = none;
  link_kind = other "device";
}

abbrev connected : Tables
connected = record empty_tables {
  routes = record (tables_netlink.default_route) { link_index = 2 } ∷ [];
  links = link_of 2 "eth0" ∷ [];
  addrs = (2, record { ipnet = net4 block_of_eth0; label = "" }) ∷ [];
}

-- The kernel names the first device "flannel0".
abbrev os : Os Tables
os = record {
  Errno = Unit {0};
  last_os_error = λ k. tt;
  would_block = λ e. true;
  open_path = λ path flags k. (pos 5, k);
  close = λ fd k. (pos 0, k);
  fcntl = λ fd command arg k. (pos 0, k);
  tunsetiff = λ fd req k. (done req, record k { links = link_of 7 "flannel0" ∷ k.links });
  read = λ fd buf k. ((pos 0, buf), k);
  readv = λ fd bufs n k. ((pos 0, bufs), k);
  write = λ fd buf k. (pos 0, k);
  writev = λ fd bufs n k. (pos 0, k);
  ifnamsiz = 16;
  o_rdwr = 2;
  o_nonblock = 2048;
  f_getfl = 3;
  f_setfl = 4;
  iff_tun = 1;
  iff_no_pi = 4096;
  as_bytes = λ s. 102 ∷ [];
  to_str = λ bytes. some "flannel0";
}

abbrev devices : Devices reference tables_netlink
devices = record {
  os = os;
  async = record {
    Fd = Unit {0};
    Guard = Unit {0};
    new = λ fd k. (done tt, k);
    get_mut = λ inner. pos 5;
    poll_read_ready_mut = λ inner k. (pending, k);
    poll_write_ready_mut = λ inner k. (pending, k);
    try_io = λ guard f s. let (r, s') = f guard s in (some r, s');
  };
  bind = λ address port k. (some tt, k);
}

abbrev formats : Formats reference
formats = record {
  to_config = λ v. none;
  to_lease_attrs = λ v. none;
  from_lease_attrs = λ a. none;
  show_mac = λ mac. "";
  parse_mac = λ s. none;
  show_number = λ n. "";
}

abbrev stored : String → Option (Config reference)
stored s =
    if str_eq s "{}"
    then some bare_config
    else if str_eq s "other"
    then some (record bare_config { network = some third })
    else none

abbrev store : Store
store = record {
  clock = 1000;
  entries = ("/net/config", (sample_lease third 7).attrs, 0) ∷ [];
  granted = [];
  next_id = 1;
}

started :
    (st : Started reference tables_netlink formats devices client "/net" stored last_pick [])
    × (w' : Store × Tables) × (start reference tables_netlink formats devices client "/net" stored
          last_pick [] none true show_block any
          (store, connected)
        ≡ (ok st, w'))
unfolding start commit get_subnets extract_ip_and_subnet captures check_network_config check_ipv4
    choose_len choose_min choose_max check_alignment allocate_subnet collect next_network
    overlaps_any make meet base dec_lt dec_le named indexed of_link resized numbers is_digit on_left
    on_right caught
started = (_, _, refl)

sample_network-IsNetwork : IsNetwork reference reference_laws sample_network
unfolding size
sample_network-IsNetwork = record { short = omega arith; aligned = refl; room = omega arith }

-- The value of the one entry there is.
abbrev only : List Entry → Option (LeaseAttrs reference)
only (e ∷ []) = some (e.1)
only es = none

only-some :
    (es : List Entry) (v : LeaseAttrs reference)
    → only es ≡ some v
    → (kv : KeyValue (LeaseAttrs reference)) × (map to_kv es ≡ kv ∷ []) × (kv.value ≡ v)
only-some [] v h = absurd (cc h)
only-some (e ∷ []) v h = (to_kv e, refl, some_inj h)
only-some (e ∷ e' ∷ es) v h = absurd (cc h)

abbrev client_gets : GetLaws reference client
client_gets = record {
  value = λ w k. only (retain (λ (e : Entry). str_eq e.0 k) w.entries);
  get-value = λ k w v resp h answered.
      let (kv, sole, same) = only-some (retain (λ (e : Entry). str_eq e.0 k) w.entries) v h in
      (
        kv,
        ap (λ (r : GetResponse (LeaseAttrs reference)). r.kvs) (sym (some_inj answered)) ∙ sole,
        same,
      );
  get-same = λ k k' w. refl;
}

stored_network : HoldsConfig reference client client_gets "/net" stored sample_network store
unfolding push
stored_network = record {
  bytes = (sample_lease third 7).attrs;
  text = "{}";
  config = bare_config;
  held = refl;
  decoded = refl;
  parsed = refl;
  for_network = refl;
}

start-IsReady_example :
    IsReady reference reference_laws tables_netlink formats devices client "/net" stored last_pick
      last_pick-IsPick [] show_block block_text client_gets sample_network started.0
start-IsReady_example =
    start-IsReady reference reference_laws tables_netlink formats devices client "/net" stored
      last_pick last_pick-IsPick [] show_block block_text client_gets sample_network none true any
      (store, connected) sample_network-IsNetwork stored_network (started.2)

endpoints_run : split_commas "10.0.0.1:2379,10.0.0.2:2379" ≡ "10.0.0.1:2379" ∷ "10.0.0.2:2379" ∷ []
unfolding split_commas
endpoints_run = refl
