-- ===== src/Netlink/Reference.antt =====
-- A concrete kernel for the tests: lists of routes, links, addresses and neighbours.
use flannel_ng.Base.{
  ℕ, String, Bool, true, false, not, ◌&&◌, Option, none, some, List, [], ◌∷◌, find, retain, ◌==◌,
  str_eq, if◌then◌else◌,
}
use flannel_ng.Crates.Reference.{Block, reference}
use flannel_ng.Netlink.{
  v4, IpNetwork, net4, net6, Route, Addr, LinkKind, vxlan, other, Link, Neigh, AddReply, added,
  already_exists, Netlink,
}

pub record Tables : Type 0 where
  pub routes : List (Route reference)
  pub links : List Link
  pub addrs : List (ℕ × Addr reference)
  pub neighs : List Neigh

unfoldable pub same_block : Block → Block → Bool
same_block b d = (b.0.0 == d.0.0) && (b.0.1 == d.0.1)

abbrev pub same_dst : Option Block → Option Block → Bool
same_dst none d = false
same_dst (some b) none = false
same_dst (some b) (some d) = same_block b d

abbrev pub same_gw : Option ℕ → Option ℕ → Bool
same_gw (some a) (some b) = a == b
same_gw (some a) none = false
same_gw none b = false

abbrev pub same_ipnet : IpNetwork reference → IpNetwork reference → Bool
same_ipnet (net4 b) (net4 d) = same_block b d
same_ipnet (net4 b) (net6 u) = false
same_ipnet (net6 u) (net4 d) = false
same_ipnet (net6 u) (net6 w) = true

unfoldable pub same_addr : Addr reference → Addr reference → Bool
unfolding same_block
same_addr a b = same_ipnet a.ipnet b.ipnet && str_eq a.label b.label

unfoldable pub to_dst : Option Block → List (Route reference) → List (Route reference)
unfolding same_block
to_dst d rs = retain (λ (r : Route reference). same_dst r.dst d) rs

unfoldable pub without : Route reference → List (Route reference) → List (Route reference)
unfolding same_block
without r rs = retain (λ (x : Route reference). not (same_dst x.dst r.dst && same_gw x.gw r.gw)) rs

unfoldable pub not_to : Option Block → List (Route reference) → List (Route reference)
unfolding same_block
not_to d rs = retain (λ (x : Route reference). not (same_dst x.dst d)) rs

unfoldable pub named : String → List Link → Option Link
named n ls = find (λ (l : Link). str_eq l.name n) ls

unfoldable pub indexed : ℕ → List Link → Option Link
indexed i ls = find (λ (l : Link). l.index == i) ls

unfoldable pub of_link : ℕ → List (ℕ × Addr reference) → List (Addr reference)
of_link i [] = []
of_link i ((j, a) ∷ rest) = let found = of_link i rest in if j == i then a ∷ found else found

unfoldable pub drop_addr :
    ℕ → Addr reference → List (ℕ × Addr reference) → List (ℕ × Addr reference)
unfolding same_addr
drop_addr i a rest = retain (λ (p : ℕ × Addr reference). not ((p.0 == i) && same_addr p.1 a)) rest

unfoldable pub resized : ℕ → ℕ → List Link → List Link
resized i mtu [] = []
resized i mtu (l ∷ ls) =
    let rest = resized i mtu ls in if l.index == i then record l { mtu = mtu } ∷ rest else l ∷ rest

abbrev pub put_link : Link → Option Link → Tables → AddReply × Tables
put_link l none k = (added, record k { links = record l { index = 5 } ∷ k.links })
put_link l (some old) k = (already_exists, k)

abbrev pub kind_of : LinkKind → String
kind_of (vxlan v) = "vxlan"
kind_of (other s) = s

abbrev pub tables_netlink : Netlink reference
tables_netlink = record {
  Kernel = Tables;
  default_route = record { dst = none; gw = none; link_index = 0; flags = 0; scope = 0 };
  default_label = "";
  default_vxlan = record {
    vxlan_id = 0;
    vtep_dev_index = 0;
    src_addr = none;
    group = none;
    l2miss = false;
    port = 0;
    gbp = false;
  };
  default_index = 0;
  default_neigh = record {
    link_index = 0;
    family = 0;
    state = 0;
    type_ = 0;
    flags = 0;
    ip = v4 0;
    hardware_addr = [];
  };
  equal_addr = same_addr;
  kind = kind_of;
  as_index = λ l. l.index;
  route_list = λ k. (some (k.routes), k);
  route_list_filtered = λ d k. (some (to_dst d k.routes), k);
  route_add = λ r k. (some tt, record k { routes = r ∷ k.routes });
  route_del = λ r k. (some tt, record k { routes = without r k.routes });
  route_replace = λ r k. (some tt, record k { routes = r ∷ not_to r.dst k.routes });
  link_add = λ l k. put_link l (named l.name k.links) k;
  link_del =
      λ i k. (some tt, record k { links = retain (λ (l : Link). not (l.index == i)) k.links });
  link_by_name = λ n k. (some (named n k.links), k);
  link_by_index = λ i k. (some (indexed i k.links), k);
  link_set_up = λ i k. (some tt, k);
  link_set_mtu = λ i m k. (some tt, record k { links = resized i m k.links });
  addr_list = λ i k. (some (of_link i k.addrs), k);
  addr_add = λ i a k. (some tt, record k { addrs = (i, a) ∷ k.addrs });
  addr_del = λ i a k. (some tt, record k { addrs = drop_addr i a k.addrs });
  neigh_set = λ n k. (some tt, record k { neighs = n ∷ k.neighs });
}

abbrev pub empty_tables : Tables
empty_tables = record { routes = []; links = []; addrs = []; neighs = [] }
