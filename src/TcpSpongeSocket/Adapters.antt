-- ===== src/TcpSpongeSocket/Adapters.antt =====
-- The adapters with which libsponge/tcp_helpers/tcp_sponge_socket.cc instantiates its sockets.
use csed353_sponge.Common.{if◌then◌else◌, ℕ, true, false, Option, none, some, List, [], ◌∷◌}
use csed353_sponge.TcpSegment.{TcpSegment}
use csed353_sponge.TcpConfig.{FdAdapterConfig}
use csed353_sponge.FdAdapter.{
  FdAdapter, ReceivedDatagram, SentDatagram, set_listening, udp_read, udp_write, should_drop,
}
use csed353_sponge.TcpOverIp.{tun_read, tun_write}
use csed353_sponge.TapAdapter.{TapAdapter, tap_read, tap_write, tap_tick}
use csed353_sponge.TcpSpongeSocket.{AdapterOps}

-- A read that throws nothing and writes nothing.
abbrev pure_read :
    {A : Type 0} {O : Type 0} → A × Option TcpSegment → Option (A × Option TcpSegment × List O)
pure_read (a, seg) = some (a, seg, [])

abbrev one_write : {A : Type 0} {O : Type 0} → A → Option O → Option (A × List O)
one_write a none = none
one_write a (some o) = some (a, o ∷ [])

-- `TCPOverUDPSocketAdapter`
abbrev pub udp_ops : AdapterOps FdAdapter ReceivedDatagram SentDatagram
udp_ops = record {
  read = λ datagram a. pure_read (udp_read datagram a);
  write = λ seg a. one_write a (udp_write seg a);
  tick = λ ms a. some (a, []);
  set_config = λ cfg a. record a { cfg = cfg };
  set_listening = set_listening;
}

-- `TCPOverIPv4OverTunFdAdapter`
abbrev pub tun_ops : AdapterOps FdAdapter (List ℕ) (List ℕ)
tun_ops = record {
  read = λ bytes a. pure_read (tun_read bytes a);
  write = λ seg a. one_write a (tun_write seg a);
  tick = λ ms a. some (a, []);
  set_config = λ cfg a. record a { cfg = cfg };
  set_listening = set_listening;
}

-- `TCPOverIPv4OverEthernetAdapter`
abbrev pub tap_ops : AdapterOps TapAdapter (List ℕ) (List ℕ)
tap_ops = record {
  read = tap_read;
  write = tap_write;
  tick = tap_tick;
  set_config = λ cfg a. record a { base = record a.base { cfg = cfg } };
  set_listening = λ l a. record a { base = set_listening l a.base };
}

-- `LossyFdAdapter` of an adapter: with it goes what the generator will yield, a number for each read
-- and write.
abbrev pub lossy_read :
    {A I O : Type 0}
    → (A → FdAdapterConfig)
    → AdapterOps A I O
    → I
    → A × List ℕ
    → Option ((A × List ℕ) × Option TcpSegment × List O)
lossy_read config ops i (a, []) = none
lossy_read config ops i (a, random ∷ rest) = elim (ops.read i a) [
  | none ↦ none
  | some (b, ret, os) ↦
      some ((b, rest), (if should_drop false random (config b) then none else ret), os)
]

abbrev with_randoms : {A O : Type 0} → List ℕ → Option (A × List O) → Option ((A × List ℕ) × List O)
with_randoms randoms none = none
with_randoms randoms (some (a, os)) = some ((a, randoms), os)

abbrev pub lossy_write :
    {A I O : Type 0}
    → (A → FdAdapterConfig)
    → AdapterOps A I O
    → TcpSegment
    → A × List ℕ
    → Option ((A × List ℕ) × List O)
lossy_write config ops seg (a, []) = none
lossy_write config ops seg (a, random ∷ rest) =
    if should_drop true random (config a)
    then some ((a, rest), [])
    else with_randoms rest (ops.write seg a)

abbrev pub lossy_tick :
    {A I O : Type 0} → AdapterOps A I O → ℕ → A × List ℕ → Option ((A × List ℕ) × List O)
lossy_tick ops ms (a, randoms) = with_randoms randoms (ops.tick ms a)

abbrev pub lossy_ops :
    {A I O : Type 0} → (A → FdAdapterConfig) → AdapterOps A I O → AdapterOps (A × List ℕ) I O
lossy_ops config ops = record {
  read = lossy_read config ops;
  write = lossy_write config ops;
  tick = lossy_tick ops;
  set_config = λ cfg a. (ops.set_config cfg a.0, a.1);
  set_listening = λ l a. (ops.set_listening l a.0, a.1);
}

abbrev pub lossy_udp_ops : AdapterOps (FdAdapter × List ℕ) ReceivedDatagram SentDatagram
lossy_udp_ops = lossy_ops (λ a. a.cfg) udp_ops

abbrev pub lossy_tun_ops : AdapterOps (FdAdapter × List ℕ) (List ℕ) (List ℕ)
lossy_tun_ops = lossy_ops (λ a. a.cfg) tun_ops
