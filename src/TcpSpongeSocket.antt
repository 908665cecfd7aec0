-- ===== src/TcpSpongeSocket.antt =====
-- libsponge/tcp_helpers/tcp_sponge_socket.hh and tcp_sponge_socket.cc: the loop that connects a TCP
-- connection with the owner's stream and with the datagrams, for any adapter. What the system calls
-- will return, and what was given to them, are members of the state.
pub mod Loop
pub mod Adapters
pub mod Streams
pub mod Inbound
mod Tests
use csed353_sponge.Common.{
  ltb, ◌==◌, if◌then◌else◌, length, take, ℕ, min, Bool, true, false, not, ◌&&◌, ◌||◌, Option, none,
  some, List, [], ◌∷◌, ◌++◌,
}
use csed353_sponge.ByteStream
use csed353_sponge.ByteStream.{ByteStream}
use csed353_sponge.TcpConfig.{TcpConfig, FdAdapterConfig}
use csed353_sponge.TcpSegment.{TcpSegment}
use csed353_sponge.TcpReceiver.{stream_out}
use csed353_sponge.TcpConnection
use csed353_sponge.TcpConnection.{
  TcpConnection, active, remaining_outbound_capacity, bytes_in_flight, segment_received, write,
  end_input_stream,
}
use csed353_sponge.TcpState.{State, listen, syn_rcvd, syn_sent, official, state, same_state}
use csed353_sponge.FileDescriptor
use csed353_sponge.FileDescriptor.{
  FileDescriptor, WriteResult, returned, failed, waiting, register_read, register_write,
  shutdown_write,
}
use csed353_sponge.EventLoop.{
  Direction, in_, out, Rule, Polled, PollResult, Result, exit, wait_next_event,
}

-- The parameter `AdaptT`: an adapter of type `A` that reads what the device yields, an `I`, and
-- writes `O`s to it. Every read is one read of the device.
pub record AdapterOps (A I O : Type 0) : Type 0 where
  pub read : I → A → Option (A × Option TcpSegment × List O)
  pub write : TcpSegment → A → Option (A × List O)
  pub tick : ℕ → A → Option (A × List O)
  pub set_config : FdAdapterConfig → A → A
  pub set_listening : Bool → A → A

-- The members of the class, with the connection that `_initialize_TCP` has made; `arrivals`,
-- `thread_reads` and `thread_writes` are what the device, read and writev will yield, `sent` and
-- `delivered` what was written to the device and to the owner.
pub record SpongeSocket (A I O : Type 0) : Type 0 where
  pub tcp : TcpConnection
  pub thread_data : FileDescriptor
  pub adapter : A
  pub adapter_fd : FileDescriptor
  pub inbound_shutdown : Bool
  pub outbound_shutdown : Bool
  pub fully_acked : Bool
  pub arrivals : List I
  pub thread_reads : List (Option (List ℕ))
  pub thread_writes : List (Option ℕ)
  pub sent : List O
  pub delivered : List ℕ

abbrev pub inbound : TcpConnection → ByteStream
inbound c = stream_out c.receiver

-- The stream that `inbound_stream` gives a reference to is changed through it.
abbrev pub with_inbound : ByteStream → TcpConnection → TcpConnection
with_inbound stream c = record c {
  receiver = record c.receiver { reassembler = record c.receiver.reassembler { output = stream } };
}

-- One write to the device for each of the outputs.
abbrev pub register_writes : {O : Type 0} → List O → FileDescriptor → FileDescriptor
register_writes [] fd = fd
register_writes (o ∷ os) fd = register_writes os (register_write fd)

abbrev pub give_segment : Option TcpSegment → TcpConnection → TcpConnection
give_segment none c = c
give_segment (some seg) c = segment_received seg c

module _ {A I O : Type 0} where
  abbrev pub emit : List O → SpongeSocket A I O → SpongeSocket A I O
  emit os s = record s { sent = s.sent ++ os; adapter_fd = register_writes os s.adapter_fd }

  -- The debugging output is left out, the flag that it sets is not.
  abbrev pub note_acked : SpongeSocket A I O → SpongeSocket A I O
  note_acked s = record s {
    fully_acked =
        if s.thread_data.eof && (bytes_in_flight s.tcp == 0) && not s.fully_acked
        then true
        else s.fully_acked;
  }

  -- Rule 1. A callback of a rule is `none` when it throws, and when the results are used up.
  pub receive : AdapterOps A I O → SpongeSocket A I O → Option (SpongeSocket A I O)
  receive ops s = elim s.arrivals [
    | [] ↦ none
    | i ∷ is ↦ elim (ops.read i s.adapter) [
      | none ↦ none
      | some (adapter, seg, os) ↦ some (
          note_acked (
            emit os (record s {
              tcp = give_segment seg s.tcp;
              adapter = adapter;
              adapter_fd = register_read s.adapter_fd;
              arrivals = is;
            })))
    ]
  ]

  abbrev pub receive_interest : SpongeSocket A I O → Bool
  receive_interest s = active s.tcp

  -- Rule 2, its cancelling and its interest.
  abbrev pub end_outbound : SpongeSocket A I O → SpongeSocket A I O
  end_outbound s = record s { tcp = end_input_stream s.tcp; outbound_shutdown = true }

  -- What follows the read. `none` is the exception that less is accepted than was advertised.
  pub hand_to_tcp : FileDescriptor → List ℕ → SpongeSocket A I O → Option (SpongeSocket A I O)
  hand_to_tcp fd bytes s =
      let (tcp, amount_written) = write bytes s.tcp in
      let written = record s { tcp = tcp; thread_data = fd } in
      if not (amount_written == length bytes)
      then none
      else if fd.eof
      then some (end_outbound written)
      else some written

  pub take_outbound : SpongeSocket A I O → Option (SpongeSocket A I O)
  take_outbound s = elim s.thread_reads [
    | [] ↦ none
    | result ∷ results ↦
        elim (FileDescriptor.read (remaining_outbound_capacity s.tcp) result s.thread_data) [
          | none ↦ none
          | some (fd, bytes) ↦ hand_to_tcp fd bytes (record s { thread_reads = results })
        ]
  ]

  abbrev pub outbound_interest : SpongeSocket A I O → Bool
  outbound_interest s =
      active s.tcp && not s.outbound_shutdown && ltb 0 (remaining_outbound_capacity s.tcp)

  -- Rule 3.
  abbrev pub note_inbound_end : SpongeSocket A I O → SpongeSocket A I O
  note_inbound_end s =
      let shut = record s { thread_data = shutdown_write s.thread_data; inbound_shutdown = true } in
      if ByteStream.eof (inbound s.tcp) || (inbound s.tcp).error then shut else s

  -- The bytes that are offered to the owner.
  abbrev pub offered : SpongeSocket A I O → List ℕ
  offered s =
      ByteStream.peek_output (min 65536 (ByteStream.buffer_size (inbound s.tcp))) (inbound s.tcp)

  -- `delivered` is extended by the bytes that writev took.
  abbrev pub pop_delivered : WriteResult → SpongeSocket A I O → Option (SpongeSocket A I O)
  pop_delivered (returned fd bytes_written) s = some (
      note_inbound_end (record s {
        tcp = with_inbound (ByteStream.pop_output bytes_written (inbound s.tcp)) s.tcp;
        thread_data = fd;
        delivered = s.delivered ++ take bytes_written (offered s);
      }))
  pop_delivered failed s = none
  pop_delivered waiting s = none

  pub deliver : SpongeSocket A I O → Option (SpongeSocket A I O)
  deliver s = elim s.thread_writes [
    | [] ↦ none
    | result ∷ results ↦
        pop_delivered (FileDescriptor.write false (result ∷ []) (offered s ∷ []) s.thread_data)
          (record s { thread_writes = results })
  ]

  abbrev pub deliver_interest : SpongeSocket A I O → Bool
  deliver_interest s =
      not (ByteStream.buffer_empty (inbound s.tcp))
      || ((ByteStream.eof (inbound s.tcp) || (inbound s.tcp).error) && not s.inbound_shutdown)

  -- Rule 4: the loop, on the queue of the connection.
  pub send_segments :
      AdapterOps A I O → List TcpSegment → SpongeSocket A I O → Option (SpongeSocket A I O)
  send_segments ops [] s = some s
  send_segments ops (seg ∷ segs) s = elim (ops.write seg s.adapter) [
    | none ↦ none
    | some (adapter, os) ↦
        send_segments ops segs
          (emit os (record s { adapter = adapter; tcp = record s.tcp { segments_out = segs } }))
  ]

  abbrev pub send_all : AdapterOps A I O → SpongeSocket A I O → Option (SpongeSocket A I O)
  send_all ops s = send_segments ops s.tcp.segments_out s

  abbrev pub send_interest : SpongeSocket A I O → Bool
  send_interest s = not (length s.tcp.segments_out == 0)

  -- `_initialize_TCP`, but for the connection.
  pub rules : AdapterOps A I O → List (Rule (SpongeSocket A I O))
  rules ops =
      record {
        fd = λ s. s.adapter_fd;
        direction = in_;
        callback = receive ops;
        interest = receive_interest;
        cancel = λ s. some s;
      }
      ∷ record {
        fd = λ s. s.thread_data;
        direction = in_;
        callback = take_outbound;
        interest = outbound_interest;
        cancel = λ s. some (end_outbound s);
      }
      ∷ record {
        fd = λ s. s.thread_data;
        direction = out;
        callback = deliver;
        interest = deliver_interest;
        cancel = λ s. some s;
      }
      ∷ record {
        fd = λ s. s.adapter_fd;
        direction = out;
        callback = send_all ops;
        interest = send_interest;
        cancel = λ s. some s;
      }
      ∷ []
