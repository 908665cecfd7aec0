-- ===== src/NetworkInterface/Requests/Time.antt =====
-- What the passing of time in libsponge/network_interface.cc does to the addresses asked for: a request
-- is sent again, and none is dropped.
use csed353_sponge.Common.{
  leb, Bool-cases, OnSuccess, OnSuccess-bind, ℕ, ◌-◌, inl, inr, Option, none, some, List, [], ◌∷◌,
  ◌++◌,
}
use csed353_sponge.ArpMessage.{opcode_request}
use csed353_sponge.EthernetHeader.{EthernetFrame}
use csed353_sponge.NetworkInterface.{
  PendingIp, NetworkInterface, arp_frame, push_frame, keep_ip, retry, expire, tick,
  generate_arp_message, default_arp_timeout,
}
use csed353_sponge.NetworkInterface.Requests.Steps.{
  history, HasAsked, queued-AllRequested, queued-Requested,
}
use csed353_sponge.NetworkInterface.Requests.{Requested, AllRequested}

-- With the frames that were taken from the queue before.
module _ (sent : List EthernetFrame) where
  -- `retry` drops no frame.
  record Retried (n t : NetworkInterface) : Type 0 where
    asked : HasAsked sent t
    kept : (ip : ℕ) → Requested ip (history sent n) → Requested ip (history sent t)

  keep_ip-Retried :
      (e : PendingIp) (n : NetworkInterface) (o : Option NetworkInterface)
      → Requested e.ip (history sent n)
      → OnSuccess (Retried n) o
      → OnSuccess (Retried n) (keep_ip e o)
  keep_ip-Retried e n none r h = tt
  keep_ip-Retried e n (some t) r h = record { asked = (h.kept e.ip r, h.asked); kept = h.kept }

  push-Retried :
      (frame : Option EthernetFrame) (es : List PendingIp) (n : NetworkInterface)
      (f : NetworkInterface → Option NetworkInterface)
      → ((t : NetworkInterface) → AllRequested es (history sent t) → OnSuccess (Retried t) (f t))
      → AllRequested es (history sent n)
      → OnSuccess (Retried n) (elim (push_frame frame n) [ none ↦ none | some t ↦ f t ])
  unfolding push_frame
  push-Retried none es n f r h = tt
  push-Retried (some frame) es n f r h =
      let t : NetworkInterface = record n { frames_out = n.frames_out ++ frame ∷ [] } in
      earlier (f t) (r t (queued-AllRequested sent es n.frames_out (frame ∷ []) h))
    where
      earlier :
          (o : Option NetworkInterface)
          → OnSuccess (Retried (record n { frames_out = n.frames_out ++ frame ∷ [] })) o
          → OnSuccess (Retried n) o
      earlier none x = tt
      earlier (some u) x = record {
        asked = x.asked;
        kept = λ ip q. x.kept ip (queued-Requested sent ip n.frames_out (frame ∷ []) q);
      }

  retry-Retried :
      (ms : ℕ) (es : List PendingIp) (n : NetworkInterface)
      → AllRequested es (history sent n)
      → OnSuccess (Retried n) (retry ms es n)
  unfolding retry
  retry-Retried ms [] n h = record { asked = tt; kept = λ ip q. q }
  retry-Retried ms (e ∷ es) n h = elim (Bool-cases (leb e.ttl ms)) [
    | inl k ↦ rw k (
        push-Retried (arp_frame e.ip (generate_arp_message e.ip opcode_request n) n) (e ∷ es) n
          (λ t. keep_ip (record e { ttl = default_arp_timeout }) (retry ms es t))
          (λ t x.
            keep_ip-Retried (record e { ttl = default_arp_timeout }) t (retry ms es t) x.0
              (retry-Retried ms es t x.1))
          h)
    | inr k ↦ rw k (
        keep_ip-Retried (record e { ttl = e.ttl - ms }) n (retry ms es n) h.0
          (retry-Retried ms es n h.1))
  ]

  pub tick-HasAsked :
      (ms : ℕ) (n : NetworkInterface) → HasAsked sent n → OnSuccess (HasAsked sent) (tick ms n)
  unfolding tick
  tick-HasAsked ms n h =
      OnSuccess-bind (Retried n) (HasAsked sent) (retry ms n.pending_ips n)
        (λ t. some (record t { arp_table = expire ms t.arp_table }))
        (retry-Retried ms n.pending_ips n h) (λ t x. x.asked)
