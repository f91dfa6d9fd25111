-- ===== src/Subnet/Watcher/Snapshots.antt =====
-- `LeaseWatcher::reset` of src/subnet/subnet.rs, and the receiver of its batch.
use flannel_ng.Base.{
  ◌≡◌, refl, ap, ◌∙◌, ◌⊎◌, inl, inr, true, false, not, ◌&&◌, ◌||◌, some, List, [], ◌∷◌, ◌++◌, arith,
  Bool-cases, if◌then◌else◌,
}
use flannel_ng.Crates.{Crates, NetworkLaws}
use flannel_ng.Lease.{Lease, LeaseWatchEvent}
use flannel_ng.Subnet.Watcher.{LeaseWatcher, reset_round, reset_loop, reset, put_event}
use flannel_ng.Subnet.Watcher.Table.{
  has, without, IsDistinct, position_cases, has-without, without-IsDistinct,
}
use flannel_ng.Subnet.Watcher.Consumer.{
  Table, Covers, is_some, receive, receive_all, receive_all-append, receive_all-delete,
  receive_all-nil,
}

module _ (c : Crates) where
  -- What a round of the loop does, in terms of the table.
  abbrev Turn : Lease c → Lease c → List (Lease c) → List (LeaseWatchEvent c) → Type 0
  Turn own nl old batch =
      ((c.equal nl.subnet own.subnet ≡ true) × (reset_round c own nl (old, batch) ≡ (old, batch)))
      ⊎ ((c.equal nl.subnet own.subnet ≡ false)
          × (has c nl.subnet old ≡ false)
          × (reset_round c own nl (old, batch) ≡ (old, batch ++ put_event c nl ∷ [])))
      ⊎ ((c.equal nl.subnet own.subnet ≡ false)
          × (has c nl.subnet old ≡ true)
          × (reset_round c own nl (old, batch) ≡ (without c nl.subnet old, batch)))

  reset_round-Turn :
      (own nl : Lease c) (old : List (Lease c)) (batch : List (LeaseWatchEvent c))
      → Turn own nl old batch
  unfolding reset_round
  reset_round-Turn own nl old batch = elim (Bool-cases (c.equal nl.subnet own.subnet)) [
    | inl mine ↦ inl (mine, ground arith)
    | inr other ↦ elim (position_cases c nl.subnet old nl) [
      | inl (p, h, q) ↦ inr (inl (other, h, ground arith))
      | inr (i, p, h, q, r, e) ↦ inr (inr (other, h, ground arith))
    ]
  ]

  receive_all-put :
      (table : Table c) (batch : List (LeaseWatchEvent c)) (nl : Lease c) (t : c.Ipv4Network)
      → receive_all c table (batch ++ put_event c nl ∷ []) t
        ≡ (if c.equal nl.subnet t then some nl else receive_all c table batch t)
  unfolding receive_all receive
  receive_all-put table batch nl t = rw receive_all-append refl

module _ (c : Crates) (laws : NetworkLaws c) where
  -- The leases that are left are those of the old ones that the snapshot lacks.
  left_over :
      (own : Lease c) (snapshot old : List (Lease c)) (batch : List (LeaseWatchEvent c))
      (t : c.Ipv4Network)
      → IsDistinct c old
      → c.equal own.subnet t ≡ false
      → has c t (reset_loop c own snapshot (old, batch)).0 ≡ (has c t old && not (has c t snapshot))
  unfolding reset_loop has
  left_over own [] old batch t d other = ground arith
  left_over own (nl ∷ rest) old batch t d other =
      let left =
        λ (st : List (Lease c) × List (LeaseWatchEvent c)). has c t (reset_loop c own rest st).0 in
      elim (reset_round-Turn c own nl old batch) [
        | inl (mine, e) ↦
            ap left e
            ∙ ground
                (arith, laws.equal_iff nl.subnet own.subnet, left_over own rest old batch t d other)
        | inr (inl (_, absent, e)) ↦
            ap left e
            ∙ ground (
              arith,
              laws.equal_iff nl.subnet t,
              left_over own rest old (batch ++ put_event c nl ∷ []) t d other,
            )
        | inr (inr (_, present, e)) ↦
            let fewer = without-IsDistinct c laws nl.subnet old d in
            ap left e
            ∙ ground (
              arith,
              laws.equal_iff nl.subnet t,
              has-without c laws nl.subnet t old d,
              left_over own rest (without c nl.subnet old) batch t fewer other,
            )
      ]

  -- The batch of the loop brings in the subnets of the snapshot that the old leases lack.
  brought_in :
      (table : Table c) (own : Lease c) (snapshot old : List (Lease c))
      (batch : List (LeaseWatchEvent c)) (t : c.Ipv4Network)
      → IsDistinct c old
      → IsDistinct c snapshot
      → c.equal own.subnet t ≡ false
      → is_some (receive_all c table (reset_loop c own snapshot (old, batch)).1 t)
        ≡ (is_some (receive_all c table batch t) || has c t snapshot && not (has c t old))
  unfolding reset_loop has
  brought_in table own [] old batch t d f other = ground arith
  brought_in table own (nl ∷ rest) old batch t d f other =
      let out = λ (st : List (Lease c) × List (LeaseWatchEvent c)).
        is_some (receive_all c table (reset_loop c own rest st).1 t) in
      elim (reset_round-Turn c own nl old batch) [
        | inl (mine, e) ↦
            ap out e
            ∙ ground (
              arith,
              laws.equal_iff nl.subnet own.subnet,
              brought_in table own rest old batch t d f.1 other,
            )
        | inr (inl (_, absent, e)) ↦
            ap out e
            ∙ ground (
              arith,
              laws.equal_iff nl.subnet t,
              receive_all-put c table batch nl t,
              brought_in table own rest old (batch ++ put_event c nl ∷ []) t d f.1 other,
            )
        | inr (inr (_, present, e)) ↦
            let fewer = without-IsDistinct c laws nl.subnet old d in
            ap out e
            ∙ ground (
              arith,
              laws.equal_iff nl.subnet t,
              has-without c laws nl.subnet t old d,
              brought_in table own rest (without c nl.subnet old) batch t fewer f.1 other,
            )
      ]

  -- For a watcher and a snapshot with one lease a subnet each: a receiver's table that had the
  -- subnets of the watcher has those of the snapshot after the batch of `reset`, but for the
  -- node's own, and the watcher holds the snapshot.
  pub reset-Covers :
      (table : Table c) (w : LeaseWatcher c) (snapshot : List (Lease c))
      → IsDistinct c w.leases
      → IsDistinct c snapshot
      → Covers c table w
      → Covers c (receive_all c table (reset c w snapshot).1) (reset c w snapshot).0
        × ((reset c w snapshot).0.leases ≡ snapshot)
  unfolding reset
  reset-Covers table w snapshot d f h =
      let own = w.own_lease in
      (
        λ t other.
            ap is_some (ap (λ (g : Table c). g t) (receive_all-append c table _ _))
            ∙ ap is_some (
                receive_all-delete c
                  (receive_all c table (reset_loop c own snapshot (w.leases, [])).1)
                  (reset_loop c own snapshot (w.leases, [])).0 t)
            ∙ ground (
              arith,
              h t other,
              receive_all-nil c table t,
              left_over own snapshot w.leases [] t d other,
              brought_in table own snapshot w.leases [] t d f other,
            ),
        refl,
      )
