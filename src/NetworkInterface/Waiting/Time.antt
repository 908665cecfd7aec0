-- ===== src/NetworkInterface/Waiting/Time.antt =====
-- The passing of time in libsponge/network_interface.cc gives up no request.
use csed353_sponge.Common.{
  leb, Bool-cases, OnSuccess, ℕ, ◌-◌, ◌≡◌, refl, sym, ◌∙◌, subst, inl, inr, Option, none, some,
  List, [], ◌∷◌, ◌++◌, arith,
}
use csed353_sponge.ArpMessage.{opcode_request}
use csed353_sponge.EthernetHeader.{EthernetFrame}
use csed353_sponge.NetworkInterface.{
  PendingIp, PendingDatagram, NetworkInterface, arp_frame, push_frame, any_pending, keep_ip, retry,
  expire, tick, generate_arp_message, default_arp_timeout,
}
use csed353_sponge.NetworkInterface.Waiting.{Covered, IsWaiting}

-- `retry` keeps the datagrams, and which addresses have a request.
record Retried (es : List PendingIp) (n t : NetworkInterface) : Type 0 where
  datagrams : t.pending_datagrams ≡ n.pending_datagrams
  requests : (ip : ℕ) → any_pending ip t.pending_ips ≡ any_pending ip es

keep_ip-Retried :
    (e f : PendingIp) (es : List PendingIp) (n : NetworkInterface) (o : Option NetworkInterface)
    → f.ip ≡ e.ip
    → OnSuccess (Retried es n) o
    → OnSuccess (Retried (e ∷ es) n) (keep_ip f o)
keep_ip-Retried e f es n none same r = tt
keep_ip-Retried e f es n (some t) same r = record {
  datagrams = r.datagrams;
  requests = λ ip. ground (arith, same, r.requests ip);
}

push-Retried :
    (frame : Option EthernetFrame) (e : PendingIp) (es : List PendingIp) (n m : NetworkInterface)
    (f : NetworkInterface → Option NetworkInterface)
    → ((t : NetworkInterface)
        → t.pending_datagrams ≡ n.pending_datagrams
        → OnSuccess (Retried es n) (f t))
    → m.pending_datagrams ≡ n.pending_datagrams
    → OnSuccess (Retried (e ∷ es) n) (elim (push_frame frame m) [
      | none ↦ none
      | some t ↦ keep_ip (record e { ttl = default_arp_timeout }) (f t)
    ])
unfolding push_frame
push-Retried none e es n m f r same = tt
push-Retried (some frame) e es n m f r same =
    let t : NetworkInterface = record m { frames_out = m.frames_out ++ frame ∷ [] } in
    keep_ip-Retried e (record e { ttl = default_arp_timeout }) es n (f t) refl (r t same)

retry-Retried :
    (ms : ℕ) (es : List PendingIp) (n m : NetworkInterface)
    → m.pending_datagrams ≡ n.pending_datagrams
    → OnSuccess (Retried es n) (retry ms es m)
unfolding retry
retry-Retried ms [] n m same = record { datagrams = same; requests = λ ip. refl }
retry-Retried ms (e ∷ es) n m same = elim (Bool-cases (leb e.ttl ms)) [
  | inl h ↦ rw h (
      push-Retried (arp_frame e.ip (generate_arp_message e.ip opcode_request m) m) e es n m
        (retry ms es) (λ t s. retry-Retried ms es n t s) same)
  | inr h ↦ rw h (
      keep_ip-Retried e (record e { ttl = e.ttl - ms }) es n (retry ms es m) refl
        (retry-Retried ms es n m same))
]

Covered-requests :
    (ds : List PendingDatagram) (xs ys : List PendingIp)
    → ((ip : ℕ) → any_pending ip ys ≡ any_pending ip xs)
    → Covered ds xs
    → Covered ds ys
Covered-requests [] xs ys same c = tt
Covered-requests (d ∷ ds) xs ys same c = (same d.ip ∙ c.0, Covered-requests ds xs ys same c.1)

-- The passing of time keeps every waiting datagram covered: a request that is due is sent again and
-- not given up.
pub tick-IsWaiting : (ms : ℕ) (n : NetworkInterface) → IsWaiting n → OnSuccess IsWaiting (tick ms n)
unfolding tick
tick-IsWaiting ms n w = go (retry ms n.pending_ips n) (retry-Retried ms n.pending_ips n n refl)
  where
    go :
        (o : Option NetworkInterface)
        → OnSuccess (Retried n.pending_ips n) o
        → OnSuccess IsWaiting (elim o [
          | none ↦ none
          | some t ↦ some (record t { arp_table = expire ms t.arp_table })
        ])
    go none r = tt
    go (some t) r =
        subst (λ ds. Covered ds t.pending_ips) (sym r.datagrams)
          (Covered-requests n.pending_datagrams n.pending_ips t.pending_ips r.requests w)
