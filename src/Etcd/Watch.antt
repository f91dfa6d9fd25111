-- ===== src/Etcd/Watch.antt =====
-- The watches that `watch_subnet` and `watch_subnets` of src/etcd/registry.rs open: their keys, and
-- the revision from which they tell of changes. The opening of a watch on the keys that start with a
-- text is a parameter.
use flannel_ng.Base.{ℕ, String, Option, none, some, List, [], ◌∷◌}
use flannel_ng.Base.Outcome.{Outcome, ok, err, panic, out_of_fuel, external}
use flannel_ng.Crates.{Crates}
use flannel_ng.Lease.{LeaseWatchEvent, LeaseWatchResult}
use flannel_ng.Etcd.{Client, WatchResponse}
use flannel_ng.Etcd.Key.{join_path, subnet_key}
use flannel_ng.Etcd.Registry.{leases_watch_reset}
use flannel_ng.Etcd.Events.{Sent, send, watch_subnet, watch_subnets}

-- The responses of a watch, where `none` is an error of its stream.
abbrev pub Responses : Type 0 → Type 0
Responses B = List (Option (WatchResponse B))

-- `watch(..).await?`, and the loop over the stream.
abbrev pub follow :
    {A W B : Type 0} → Option (Responses B) × W → (Responses B → W → Sent A × W) → Sent A × W
follow (none, w) loop = (([], err external), w)
follow (some stream, w) loop = loop stream w

module _ (c : Crates) (client : Client c) (prefix : String)
    (watch : String → ℕ → client.World → Option (Responses client.Bytes) × client.World) where
  open client use {World}

  unfoldable pub watch_subnet_since : c.Ipv4Network → ℕ → World → Sent (LeaseWatchEvent c) × World
  unfolding subnet_key watch_subnet
  watch_subnet_since sn since w =
      follow (watch (subnet_key c prefix sn) since w) (watch_subnet c client)

  unfoldable pub watch_subnets_since : ℕ → World → Sent (LeaseWatchResult c) × World
  unfolding join_path watch_subnets
  watch_subnets_since since w =
      follow (watch (join_path (prefix ∷ "subnets" ∷ []) "") since w) (watch_subnets c client)

  -- The snapshot is sent, and then the changes since.
  abbrev begin_watch :
      Outcome (LeaseWatchResult c)
      → (ℕ → World → Sent (LeaseWatchResult c) × World)
      → World
      → Sent (LeaseWatchResult c) × World
  begin_watch (ok wr) changes w =
      let (later, w') = changes wr.cursor w in (send c client (wr ∷ []) later, w')
  begin_watch (err e) changes w = (([], err e), w)
  begin_watch panic changes w = (([], panic), w)
  begin_watch out_of_fuel changes w = (([], out_of_fuel), w)

  -- `watch_leases_inner` of src/subnet/subnet.rs
  unfoldable pub watch_leases_inner : World → Sent (LeaseWatchResult c) × World
  unfolding leases_watch_reset watch_subnets_since
  watch_leases_inner w =
      let (wr, w') = leases_watch_reset c client prefix w in begin_watch wr watch_subnets_since w'
