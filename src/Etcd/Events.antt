-- ===== src/Etcd/Events.antt =====
-- Watching the registry (src/etcd/registry.rs): events are parsed, and sent in batches. The responses
-- of the watch stream are a list, in which `none` is an error of the stream, and the messages that
-- a loop sends are a list that it gives back beside its end.
use flannel_ng.Base.{ℕ, true, false, Option, none, some, List, [], ◌∷◌, map}
use flannel_ng.Base.Outcome.{Outcome, ok, err, panic, out_of_fuel, ok_or, external, invalid_kv}
use flannel_ng.Base.Io.{Io, pure, lift, call, ◌>>=◌}
use flannel_ng.Crates.{Crates}
use flannel_ng.Lease.{LeaseAttrs, LeaseWatchEvent, LeaseWatchResult, EventType, put, delete}
use flannel_ng.Etcd.{Client, ℤ, pos, negsuc, KeyValue, Event, WatchResponse}
use flannel_ng.Etcd.Key.{extract_ip_and_subnet}
use flannel_ng.Etcd.Registry.{as_u64, or_zero, time_in, new_lease}

-- What a loop has sent, and how it ended.
abbrev pub Sent : Type 0 → Type 0
Sent A = List (List A) × Outcome (Unit {0})

module _ (c : Crates) (client : Client c) where
  open client use {World, Bytes}

  -- A put, given the time to live of its etcd lease.
  unfoldable pub put_event_of :
      c.Ipv4Network → LeaseAttrs c → ℤ → Io World (Option (LeaseWatchEvent c))
  unfolding ◌>>=◌ time_in new_lease
  put_event_of sn4 attrs (negsuc n) = pure none
  put_event_of sn4 attrs (pos n) = do
    exp ← time_in c client (as_u64 (pos n))
    base ← new_lease c client
    pure (
        some (record {
          lease = record base { enable_ipv4 = true; subnet = sn4; expiration = exp; attrs = attrs };
          event_type = put;
        }))

  unfoldable pub parse_kind :
      c.Ipv4Network → KeyValue Bytes → EventType → Io World (Option (LeaseWatchEvent c))
  unfolding ◌>>=◌ new_lease put_event_of
  parse_kind sn4 kv delete = do
    base ← new_lease c client
    pure (
        some (record {
          lease = record base { enable_ipv4 = true; subnet = sn4 };
          event_type = delete;
        }))
  parse_kind sn4 kv put = do
    attrs ← lift (ok_or (client.from_slice kv.value) external)
    ttl ← call (client.lease_time_to_live kv.lease)
    put_event_of sn4 attrs ttl

  unfoldable pub parse_subnet_watch_resp : Event Bytes → Io World (Option (LeaseWatchEvent c))
  unfolding ◌>>=◌ parse_kind
  parse_subnet_watch_resp ev = do
    kv ← lift (ok_or ev.kv invalid_kv)
    key ← lift (ok_or kv.key external)
    (sn4, sn6) ← lift (extract_ip_and_subnet c client key)
    parse_kind sn4 kv ev.event_type

  abbrev pub prepend {ℓ} : {A : Type ℓ} → Option A → List A → List A
  prepend none rest = rest
  prepend (some e) rest = e ∷ rest

  unfoldable pub parse_events : List (Event Bytes) → Io World (List (LeaseWatchEvent c))
  unfolding ◌>>=◌ parse_subnet_watch_resp
  parse_events [] = pure []
  parse_events (ev ∷ evs) = do
    subnet_event ← parse_subnet_watch_resp ev
    rest ← parse_events evs
    pure (prepend subnet_event rest)

  -- `if !events.is_empty() { tx.send(events) }`, before the messages that follow.
  abbrev pub send : {A : Type 0} → List A → Sent A → Sent A
  send [] later = later
  send (e ∷ es) (batches, end) = ((e ∷ es) ∷ batches, end)

  abbrev pub send_or_stop :
      {A : Type 0} → Outcome (List A) → (World → Sent A × World) → World → Sent A × World
  send_or_stop (ok events) later w = let (sent, w') = later w in (send events sent, w')
  send_or_stop (err e) later w = (([], err e), w)
  send_or_stop panic later w = (([], panic), w)
  send_or_stop out_of_fuel later w = (([], out_of_fuel), w)

  -- The loop of `watch_subnet` skips a cancelled response.
  unfoldable pub watch_subnet :
      List (Option (WatchResponse Bytes)) → World → Sent (LeaseWatchEvent c) × World
  unfolding parse_events
  watch_subnet [] w = (([], ok tt), w)
  watch_subnet (none ∷ later) w = (([], err external), w)
  watch_subnet (some resp ∷ later) w = elim resp.canceled [
    | true ↦ watch_subnet later w
    | false ↦
        let (events, w') = parse_events resp.events w in send_or_stop events (watch_subnet later) w'
  ]

  abbrev pub result_of : ℕ → LeaseWatchEvent c → LeaseWatchResult c
  result_of cursor event = record { snapshot = []; events = event ∷ []; cursor = cursor }

  -- The loop of `watch_subnets` ends at a cancelled response, and sends each event in a result.
  unfoldable pub watch_subnets :
      List (Option (WatchResponse Bytes)) → World → Sent (LeaseWatchResult c) × World
  unfolding ◌>>=◌ parse_events
  watch_subnets [] w = (([], ok tt), w)
  watch_subnets (none ∷ later) w = (([], err external), w)
  watch_subnets (some resp ∷ later) w = elim resp.canceled [
    | true ↦ (([], ok tt), w)
    | false ↦
        let (results, w') =
          (parse_events resp.events >>= λ events.
          pure (map (result_of (or_zero resp.revision)) events))
            w in
        send_or_stop results (watch_subnets later) w'
  ]
