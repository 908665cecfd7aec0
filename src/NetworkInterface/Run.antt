-- ===== src/NetworkInterface/Run.antt =====
-- Sequences of calls of the interface of libsponge/network_interface.cc.
use csed353_sponge.Common.{
  OnSuccess, OnSuccess-bind, ℕ, sym, subst, Option, none, some, List, [], ◌∷◌, ◌++◌, append-nil,
}
use csed353_sponge.ArpMessage.{EthernetAddress}
use csed353_sponge.EthernetHeader.{EthernetFrame}
use csed353_sponge.Ipv4.{Ipv4Datagram}
use csed353_sponge.NetworkInterface.{
  NetworkInterface, new_interface, send_datagram, recv_frame, tick,
}
use csed353_sponge.NetworkInterface.Waiting.{IsWaiting, send_datagram-IsWaiting}
use csed353_sponge.NetworkInterface.Waiting.Time.{tick-IsWaiting}
use csed353_sponge.NetworkInterface.Waiting.Arrival.{recv_frame-IsWaiting}
use csed353_sponge.NetworkInterface.Requests.{AllRequested, AreAsked, Covered-AreAsked}
use csed353_sponge.NetworkInterface.Requests.Steps.{
  HasAsked, send_datagram-HasAsked, recv_frame-HasAsked,
}
use csed353_sponge.NetworkInterface.Requests.Time.{tick-HasAsked}

-- The calls that change an interface. The owner takes frames out of the queue at any time.
pub data Call : Type 0 where
  send : Ipv4Datagram → ℕ → Call
  receive : EthernetFrame → Call
  pass : ℕ → Call
  take_frames : Call

-- The frames that the owner has taken, and the interface.
pub record Run : Type 0 where
  pub sent : List EthernetFrame
  pub interface : NetworkInterface

abbrev pub new_run : EthernetAddress → ℕ → Run
new_run ethernet_address ip_address = record {
  sent = [];
  interface = new_interface ethernet_address ip_address;
}

abbrev pub step : Call → Run → Option Run
step (send datagram next_hop) r = elim (send_datagram datagram next_hop r.interface) [
  | none ↦ none
  | some t ↦ some (record r { interface = t })
]
step (receive frame) r = elim (recv_frame frame r.interface) [
  | none ↦ none
  | some t ↦ some (record r { interface = t.0 })
]
step (pass ms) r = elim (tick ms r.interface) [
  | none ↦ none
  | some t ↦ some (record r { interface = t })
]
step take_frames r = some (record {
  sent = r.sent ++ r.interface.frames_out;
  interface = record r.interface { frames_out = [] };
})

abbrev pub run : List Call → Run → Option Run
run [] r = some r
run (c ∷ cs) r = elim (step c r) [ none ↦ none | some t ↦ run cs t ]

-- Each waiting datagram is covered, and each address that is noted has been asked for.
record IsSound (r : Run) : Type 0 where
  waiting : IsWaiting r.interface
  asked : HasAsked r.sent r.interface

-- A call, of what keeps both.
kept-IsSound :
    {A : Type 0} (r : Run) (f : A → NetworkInterface) (o : Option A)
    → OnSuccess (λ a. IsWaiting (f a)) o
    → OnSuccess (λ a. HasAsked r.sent (f a)) o
    → OnSuccess IsSound (elim o [ none ↦ none | some a ↦ some (record r { interface = f a }) ])
kept-IsSound r f none w h = tt
kept-IsSound r f (some a) w h = record { waiting = w; asked = h }

step-IsSound : (c : Call) (r : Run) → IsSound r → OnSuccess IsSound (step c r)
step-IsSound (send datagram next_hop) r s =
    let n = r.interface in
    kept-IsSound r (λ t. t) (send_datagram datagram next_hop n)
      (send_datagram-IsWaiting datagram next_hop n s.waiting)
      (send_datagram-HasAsked r.sent datagram next_hop n s.asked)
step-IsSound (receive frame) r s =
    let n = r.interface in
    kept-IsSound r (λ t. t.0) (recv_frame frame n) (recv_frame-IsWaiting frame n s.waiting)
      (recv_frame-HasAsked r.sent frame n s.asked)
step-IsSound (pass ms) r s =
    let n = r.interface in
    kept-IsSound r (λ t. t) (tick ms n) (tick-IsWaiting ms n s.waiting)
      (tick-HasAsked r.sent ms n s.asked)
step-IsSound take_frames r s = record {
  waiting = s.waiting;
  asked =
      subst (AllRequested r.interface.pending_ips)
        (sym (append-nil (r.sent ++ r.interface.frames_out))) s.asked;
}

run_kept-IsSound : (cs : List Call) (r : Run) → IsSound r → OnSuccess IsSound (run cs r)
run_kept-IsSound [] r s = s
run_kept-IsSound (c ∷ cs) r s =
    OnSuccess-bind IsSound IsSound (step c r) (run cs) (step-IsSound c r s)
      (λ t x. run_kept-IsSound cs t x)

-- Every datagram that waits has its next hop listed among the addresses asked for, and an ARP request
-- for it stands among the frames sent and queued.
abbrev pub IsAsked : Run → Type 0
IsAsked r =
    AreAsked r.interface.pending_datagrams r.interface.pending_ips
      (r.sent ++ r.interface.frames_out)

sound-IsAsked : (o : Option Run) → OnSuccess IsSound o → OnSuccess IsAsked o
sound-IsAsked none s = tt
sound-IsAsked (some r) s =
    Covered-AreAsked r.interface.pending_datagrams r.interface.pending_ips
      (r.sent ++ r.interface.frames_out) s.waiting s.asked

-- After any sequence of calls of a new interface, with frames of any kind, if none has thrown: every
-- datagram that waits has its next hop listed among the addresses asked for, and a frame with an ARP
-- request for its next hop stands among those that were taken from the queue or are in it.
pub run-IsAsked :
    (ethernet_address : EthernetAddress) (ip_address : ℕ) (cs : List Call)
    → OnSuccess IsAsked (run cs (new_run ethernet_address ip_address))
run-IsAsked ethernet_address ip_address cs =
    let start = new_run ethernet_address ip_address in
    sound-IsAsked (run cs start) (run_kept-IsSound cs start (record { waiting = tt; asked = tt }))
