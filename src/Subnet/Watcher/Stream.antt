-- ===== src/Subnet/Watcher/Stream.antt =====
-- `watch_leases` of src/subnet/subnet.rs, over a whole stream of results.
use flannel_ng.Base.{
  ◌≡◌, refl, sym, subst, inl, inr, true, false, List, [], ◌∷◌, arith, Bool-cases, if◌then◌else◌,
}
use flannel_ng.Crates.{Crates, NetworkLaws}
use flannel_ng.Lease.{LeaseWatchEvent, LeaseWatchResult}
use flannel_ng.Subnet.Watcher.{LeaseWatcher, reset, update, handle, watch_leases, is_empty}
use flannel_ng.Subnet.Watcher.Table.{IsDistinct}
use flannel_ng.Subnet.Watcher.Consumer.{Table, Covers, receive_all}
use flannel_ng.Subnet.Watcher.Updates.{update-Covers}
use flannel_ng.Subnet.Watcher.Snapshots.{reset-Covers}

module _ (c : Crates) where
  -- The table of a receiver of all the batches that were sent.
  unfoldable pub receive_batches : Table c → List (List (LeaseWatchEvent c)) → Table c
  receive_batches table [] = table
  receive_batches table (batch ∷ rest) = receive_batches (receive_all c table batch) rest

  -- Every snapshot has one lease a subnet, as the keys of the registry are distinct.
  abbrev pub AllDistinct : List (LeaseWatchResult c) → Type 0
  AllDistinct [] = Unit
  AllDistinct (wr ∷ rest) = IsDistinct c wr.snapshot × AllDistinct rest

  receive_batches-push :
      (table : Table c) (batch : List (LeaseWatchEvent c)) (sent : List (List (LeaseWatchEvent c)))
      → receive_batches table (if is_empty batch then sent else batch ∷ sent)
        ≡ receive_batches (receive_all c table batch) sent
  unfolding receive_batches receive_all
  receive_batches-push table [] sent = refl
  receive_batches-push table (e ∷ es) sent = refl

  -- After a handled result the receiver's table covers the watcher.
  abbrev Kept : Table c → LeaseWatcher c × List (LeaseWatchEvent c) → Type 0
  Kept table p = Covers c (receive_all c table p.1) p.0 × IsDistinct c p.0.leases

module _ (c : Crates) (laws : NetworkLaws c) where
  handle-Kept :
      (table : Table c) (w : LeaseWatcher c) (wr : LeaseWatchResult c)
      → IsDistinct c w.leases
      → IsDistinct c wr.snapshot
      → Covers c table w
      → Kept c table (handle c w wr)
  unfolding handle receive_all
  handle-Kept table w wr d f h = elim (Bool-cases (is_empty wr.events)) [
    | inl quiet ↦ elim (Bool-cases (is_empty wr.snapshot)) [
      | inl nothing ↦ subst (Kept c table) (sym (unchanged quiet nothing)) (h, d)
      | inr full ↦
          let (covered, held) = reset-Covers c laws table w wr.snapshot d f h in
          subst (Kept c table) (sym (taken quiet full)) (covered, subst (IsDistinct c) (sym held) f)
    ]
    | inr changes ↦
        subst (Kept c table) (sym (changed changes)) (update-Covers c laws table w wr.events d h)
  ]
    where
      unchanged : is_empty wr.events ≡ true → is_empty wr.snapshot ≡ true → handle c w wr ≡ (w, [])
      unchanged a b = ground arith

      taken :
          is_empty wr.events ≡ true
          → is_empty wr.snapshot ≡ false
          → handle c w wr ≡ reset c w wr.snapshot
      taken a b = ground arith

      changed : is_empty wr.events ≡ false → handle c w wr ≡ update c w wr.events
      changed a = ground arith

  -- From a watcher with one lease a subnet, over any stream of results whose snapshots have one
  -- lease a subnet: a receiver's table that has the subnets of the watcher, but for the node's
  -- own, has those of the watcher again once it has taken the batches that `watch_leases` sent.
  pub watch_leases-Covers :
      (table : Table c) (w : LeaseWatcher c) (results : List (LeaseWatchResult c))
      → IsDistinct c w.leases
      → AllDistinct c results
      → Covers c table w
      → Covers c (receive_batches c table (watch_leases c w results).1) (watch_leases c w results).0
  unfolding watch_leases receive_batches
  watch_leases-Covers table w [] d f h = h
  watch_leases-Covers table w (wr ∷ rest) d f h =
      let (covered, distinct) = handle-Kept table w wr d f.0 h in
      rw receive_batches-push (
        watch_leases-Covers (receive_all c table (handle c w wr).1) (handle c w wr).0 rest distinct
          f.1 covered)
