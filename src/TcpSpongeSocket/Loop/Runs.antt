-- ===== src/TcpSpongeSocket/Loop/Runs.antt =====
-- Runs of the loop of libsponge/tcp_helpers/tcp_sponge_socket.cc.
use csed353_sponge.Common.{
  OnSuccess, OnSuccess-if, OnSuccess-bind, OnSuccess-any, length, All, take, ℕ, ◌-◌, ◌^◌, ◌≤◌, ◌<◌,
  ◌≡◌, sym, subst, Bool, true, ◌||◌, Option, none, some, List, [], ◌∷◌, ◌++◌, arith,
}
use csed353_sponge.WrappingIntegers.{WrappingInt32, IsU32}
use csed353_sponge.TcpReceiver
use csed353_sponge.TcpReceiver.{first_unassembled}
use csed353_sponge.TcpReceiver.Segments.{Tracks, Tracks-failed, Tracks-init}
use csed353_sponge.TcpConnection.{active}
use csed353_sponge.TcpConnection.Inbound.{inbound_bytes, tick-kept}
use csed353_sponge.EventLoop.{is_exit, Rule, wait_next_event}
use csed353_sponge.EventLoop.Rounds.{Keeps, wait_next_event-Keeps}
use csed353_sponge.TcpSpongeSocket.{AdapterOps, SpongeSocket, rules}
use csed353_sponge.TcpSpongeSocket.Inbound.{
  Arrives, InStep, receive-InStep, end_outbound-InStep, take_outbound-InStep, deliver-InStep,
  send_segments-InStep,
}
use csed353_sponge.TcpSpongeSocket.Loop.{Round, pass_time, tcp_loop}

module _ {A I O : Type 0} (ops : AdapterOps A I O) (stream : List ℕ) (isn : WrappingInt32)
    (short : length stream < 2 ^ 31 - 1) (fits : IsU32 isn) where
  abbrev Good : SpongeSocket A I O → Type 0
  Good = InStep ops stream isn short fits

  rules-Keeps : All (Keeps Good) (rules ops)
  unfolding rules
  rules-Keeps = (
    record { callback = receive-InStep ops stream isn short fits; cancel = λ s x. x },
    (
      record {
        callback = take_outbound-InStep ops stream isn short fits;
        cancel = end_outbound-InStep ops stream isn short fits;
      },
      (
        record { callback = deliver-InStep ops stream isn short fits; cancel = λ s x. x },
        (
          record {
            callback = λ s x. send_segments-InStep ops stream isn short fits s.tcp.segments_out s x;
            cancel = λ s x. x;
          },
          tt,
        ),
      ),
    ),
  )

  pass_time-InStep :
      (elapsed : ℕ) (s : SpongeSocket A I O) → Good s → OnSuccess Good (pass_time ops elapsed s)
  unfolding pass_time
  pass_time-InStep elapsed s x =
      OnSuccess-if Good (active s.tcp) _ (some s)
        (OnSuccess-bind (λ _. Unit {0}) Good (ops.tick elapsed s.adapter) _
          (OnSuccess-any (ops.tick elapsed s.adapter))
          (λ r _. record {
            tracks =
                tick-kept (λ r. Tracks stream isn r s.delivered) (λ r u. Tracks-failed stream isn u)
                  elapsed s.tcp x.tracks;
            arriving = x.arriving;
          }))
        x

  tcp_loop_kept-InStep :
      (condition : SpongeSocket A I O → Bool) (rounds : List (Round A I O))
      (rs : List (Rule (SpongeSocket A I O))) (s : SpongeSocket A I O)
      → All (Keeps Good) rs
      → Good s
      → OnSuccess (λ r. Good r.0) (tcp_loop ops condition rounds rs s)
  unfolding tcp_loop
  tcp_loop_kept-InStep condition [] rs s k x = x
  tcp_loop_kept-InStep condition (round ∷ rounds) rs s k x =
      OnSuccess-if (λ r. Good r.0) (condition s) _ (some (s, rs, true))
        (OnSuccess-bind (λ r. Good r.0 × All (Keeps Good) r.1) (λ r. Good r.0)
          (wait_next_event round.poll rs s) _ (wait_next_event-Keeps Good round.poll rs s k x)
          (λ r y.
            OnSuccess-if (λ r. Good r.0) (is_exit r.2 || round.abort) _ _ y.0
              (OnSuccess-bind Good (λ r. Good r.0) (pass_time ops round.elapsed r.0) _
                (pass_time-InStep round.elapsed r.0 y.0)
                (λ u z. tcp_loop_kept-InStep condition rounds r.1 u y.1 z))))
        x

  -- What was delivered to the owner, followed by what can be read, is the beginning of the stream, as
  -- long as what the receiver has assembled.
  abbrev pub HasPrefix : SpongeSocket A I O → Type 0
  HasPrefix s =
      (s.delivered ++ inbound_bytes s.tcp ≡ take (first_unassembled s.tcp.receiver) stream)
      × (first_unassembled s.tcp.receiver ≤ length stream)

  Good-HasPrefix :
      (o : Option (SpongeSocket A I O × List (Rule (SpongeSocket A I O)) × Bool))
      → OnSuccess (λ r. Good r.0) o
      → OnSuccess (λ r. HasPrefix r.0) o
  Good-HasPrefix none x = tt
  Good-HasPrefix (some r) x = (x.tracks.follows.assembled, x.tracks.follows.within)

  -- From a socket with a fresh receiver (of a capacity below 2^63) that has delivered nothing, where
  -- every segment that the adapter can read from what is to arrive is one of the peer's stream, of
  -- fewer than 2^31 - 1 bytes and numbered from `isn` on: after any number of rounds of the loop,
  -- whatever the system calls and `poll` do, if none has thrown, what was delivered to the owner,
  -- followed by what can be read, is exactly the beginning of the peer's stream, as long as what the
  -- receiver has assembled.
  pub tcp_loop-HasPrefix :
      (condition : SpongeSocket A I O → Bool) (rounds : List (Round A I O)) (s : SpongeSocket A I O)
      (capacity : ℕ)
      → s.tcp.receiver ≡ TcpReceiver.init capacity
      → capacity < 2 ^ 63
      → s.delivered ≡ []
      → All (Arrives ops stream isn short fits) s.arrivals
      → OnSuccess (λ r. HasPrefix r.0) (tcp_loop ops condition rounds (rules ops) s)
  tcp_loop-HasPrefix condition rounds s capacity fresh small nothing arriving =
      Good-HasPrefix (tcp_loop ops condition rounds (rules ops) s) (
        tcp_loop_kept-InStep condition rounds (rules ops) s rules-Keeps (record {
          tracks = subst (Tracks stream isn s.tcp.receiver) (sym nothing) (
              subst (λ r. Tracks stream isn r []) (sym fresh)
                (Tracks-init stream isn capacity small (omega (arith, short, small))));
          arriving = arriving;
        }))
