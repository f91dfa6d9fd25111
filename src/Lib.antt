-- ===== src/Lib.antt =====
-- flannel-ng gives each node of a cluster a subnet of one network, and routes packets between the
-- nodes. The subnets are leases in etcd. Each node acquires one, watches those of the others, and
-- tells its back end of every change.
--
-- The parts, and where they are modelled:
--   Base      tests, lists and outcomes: a Rust computation ends with a value, an `anyhow` error or
--             a panic (Base/Outcome), may act on a world (Base/Io), and computes on machine words
--             (Base/Word) with the wrap-around of a release build, which is what the README builds
--   Crates    `ipnetwork` and `serde_json`, a parameter of the definitions; what the program relies
--             on of `ipnetwork` is `NetworkLaws`, and Crates/Reference has a concrete instance
--   Lease     src/lease/lease.rs, and the events of src/etcd/registry.rs
--   Etcd      src/etcd/registry.rs: keys (Key), readers (Registry), writers (Create) and watchers
--             (Events, Watch) of subnets. etcd, the clock, `regex` and `serde_json` are the
--             parameter `Client`, what is relied on of them is in Laws, Key/RoundTrip and Stored,
--             and Etcd/Reference and Key/Reference have concrete instances. Regex has patterns and
--             the matches that the crate documents of them, Key the program's one pattern, and
--             Key/Captured and Key/Directory what it captures. Exclusive, Leaks and Stored are about
--             the writers, Key/RoundTrip about the keys
--   Subnet    src/subnet/subnet.rs and src/subnet/config.rs: the configuration and its check
--             (Config, Network), the search for a free subnet (Allocate), the acquisition of a lease
--             (Acquire), its renewal (Renew) and the watcher of leases (Watcher)
--   Netlink   `netlink_ng`, by which the back ends act on the kernel: its types, and its calls as a
--             parameter, with a concrete instance in Netlink/Reference
--   Udp       src/backend/udp: the view of a packet (Codec), the routes (Routes), the sending of a
--             packet (Packet), the event loop (Run), the port (Port), and the registration and the
--             TUN device (Setup)
--   Tun       src/tun: the opening of the TUN device (Open), its calls (Io) and its polls (Async).
--             libc is the parameter `Os`, and `AsyncFd` and `ReadBuf` of `tokio` are parameters;
--             what is relied on of them is in Laws, and Reference has a concrete machine
--   HostGw    src/backend/hostgw: routes in the kernel, and the registration (Setup); Installs and
--             Kept are about one event and many, Watched about the network behind the watcher
--   Vxlan     src/backend/vxlan and src/mac/mac.rs: the link (Links), the device and its neighbours
--             (Device), the lease events (Network) and the registration (Setup). JSON and the text
--             of MAC addresses are the parameter `Formats`
--   Iface     src/ip/iface.rs, and the choice of the external interface in src/main.rs
--   Env       the subnet file, which src/subnet/subnet.rs writes and src/main.rs reads
--   Start     src/backend/manager.rs, src/backend/common.rs and src/main.rs: the command line and
--             the configuration of etcd (Command), the choice of a back end, and the start up to the
--             tasks
--   Samples   sample networks and leases for the tests, which are in modules named Tests
--
-- A struct is a record with the fields' names, an enum a data type, and a function or method has the
-- name that it has in the source; a loop or a `match` that is a definition of its own is named for
-- what it does. An `Ipv4Addr` is a number below 2 ^ 32. A `SystemTime` is in seconds. A channel is
-- the list of the messages sent, and its receiver stays open. The stream of a watch is the list of
-- its responses, and `select!` takes its inputs from a list, in any order. `println!` is left out.
--
-- Fuel: the `while` loop of `allocate_subnet` has 2 ^ 32 + 1 rounds (`loop_fuel`), one for each
-- address and one to leave the loop. Each round goes on by at least an address, so that the loop
-- ends before the fuel does where the last subnet ends below the end of the address space. The loops
-- of the TUN device's polls take any fuel, and more than there are notifications of readiness is
-- enough, as each round that blocks takes one.
--
-- Not modelled: how `clap` reads the command line; the connection to etcd; the spawning of the
-- tasks by `tokio`; the directories of the subnet file; and IPv6, which the program only carries
-- along.

mod Base
pub mod Crates
mod Samples
pub mod Lease
pub mod Netlink
pub mod Subnet
pub mod Udp
pub mod Etcd
pub mod HostGw
pub mod Vxlan
pub mod Iface
pub mod Env
pub mod Start
pub mod Tun
