-- ===== src/TcpConnection.antt =====
-- libsponge/tcp_connection.hh and tcp_connection.cc: a TCP endpoint, which is a receiver, a sender,
-- and the queue of segments to hand to the network.
pub mod Send
pub mod Failure
pub mod Closing
pub mod Invariant
pub mod Reach
pub mod Start
pub mod Outbound
pub mod Inbound
mod Tests
use csed353_sponge.Common.{
  ltb, leb, ◌==◌, if◌then◌else◌, is_some, add64, to_u32, length, ℕ, ◌*◌, min, Bool, true, false,
  not, ◌&&◌, ◌||◌, none, some, List, [], ◌∷◌, ◌++◌,
}
use csed353_sponge.ByteStream
use csed353_sponge.StreamReassembler.{StreamReassembler}
use csed353_sponge.WrappingIntegers.{WrappingInt32, same, minus}
use csed353_sponge.TcpConfig.{TcpConfig, max_retx_attempts}
use csed353_sponge.TcpSegment.{TcpSegment, length_in_sequence_space}
use csed353_sponge.TcpReceiver
use csed353_sponge.TcpReceiver.{TcpReceiver, stream_out, ackno, window_size}
use csed353_sponge.TcpSender
use csed353_sponge.TcpSender.{TcpSender, fill_window, ack_received, send_empty_segment}

pub record TcpConnection : Type 0 where
  pub cfg : TcpConfig
  pub receiver : TcpReceiver
  pub sender : TcpSender
  pub segments_out : List TcpSegment
  pub linger_after_streams_finish : Bool
  pub error : Bool
  pub fin : Bool
  pub time_since_last_segment_received : ℕ

-- `random` is what `std::random_device` yields for the sender.
pub init : TcpConfig → ℕ → TcpConnection
init cfg random = record {
  cfg = cfg;
  receiver = TcpReceiver.init cfg.recv_capacity;
  sender = TcpSender.init cfg.send_capacity cfg.rt_timeout cfg.fixed_isn random;
  segments_out = [];
  linger_after_streams_finish = true;
  error = false;
  fin = false;
  time_since_last_segment_received = 0;
}

abbrev pub check_prereqs : TcpConnection → Bool
check_prereqs c =
    if not (c.fin && ByteStream.eof c.sender.stream)
      || not (TcpSender.bytes_in_flight c.sender == 0)
    then false
    else if not (ByteStream.eof (stream_out c.receiver))
    then false
    else true

abbrev pub active : TcpConnection → Bool
active c =
    if c.error
    then false
    else if not (check_prereqs c) || c.linger_after_streams_finish
    then true
    else false

unfoldable pub remaining_outbound_capacity : TcpConnection → ℕ
remaining_outbound_capacity c =
    if active c then ByteStream.remaining_capacity c.sender.stream else 0

pub bytes_in_flight : TcpConnection → ℕ
bytes_in_flight c = if active c then TcpSender.bytes_in_flight c.sender else 0

pub unassembled_bytes : TcpConnection → ℕ
unassembled_bytes c = if active c then TcpReceiver.unassembled_bytes c.receiver else 0

pub report : TcpConnection → TcpConnection
report c = record c {
  error = true;
  sender = record c.sender { stream = ByteStream.set_error c.sender.stream };
  receiver = record c.receiver {
    reassembler = record c.receiver.reassembler {
      output = ByteStream.set_error (stream_out c.receiver);
    };
  };
}

-- What a round of the loop in `_send` writes into the header of a segment.
abbrev pub stamp : TcpConnection → TcpSegment → TcpSegment
stamp c segment =
    let number = ackno c.receiver in
    record segment {
      header = record segment.header {
        ack = is_some number || segment.header.ack;
        ackno = elim number [ some a ↦ a | none ↦ segment.header.ackno ];
        win = min (window_size c.receiver) 0xFFFF;
        rst = c.error;
      };
    }

-- The loop of `_send`, on the sender's queue.
pub send_queue : List TcpSegment → TcpConnection → TcpConnection
send_queue [] c = c
send_queue (segment ∷ segments) c = send_queue segments (record c {
  sender = record c.sender { segments_out = segments };
  fin = segment.header.fin || c.fin;
  segments_out = c.segments_out ++ stamp c segment ∷ [];
})

pub send : TcpConnection → TcpConnection
send c = send_queue c.sender.segments_out c

-- The condition for a keep-alive segment.
abbrev pub is_keep_alive : TcpSegment → TcpConnection → Bool
is_keep_alive seg c =
    (length_in_sequence_space seg == 0)
    && elim (ackno c.receiver) [ some a ↦ same seg.header.seqno (minus a 1) | none ↦ false ]

-- The parts of `segment_received` for an ordinary segment: the receiver, the sender, the answer if
-- nothing else is to be sent, and the end of lingering. `take_in` is the whole.
abbrev pub hand_over : TcpSegment → TcpConnection → TcpConnection
hand_over seg c = record c {
  receiver = TcpReceiver.segment_received seg c.receiver;
  sender =
      if seg.header.ack
      then ack_received seg.header.ackno seg.header.win c.sender
      else fill_window c.sender;
}

abbrev pub answer : TcpSegment → TcpConnection → TcpConnection
answer seg c = record c {
  sender =
      if not (length_in_sequence_space seg == 0) && (length c.sender.segments_out == 0)
      then send_empty_segment c.sender
      else c.sender;
}

abbrev pub note_remote_end : TcpConnection → TcpConnection
note_remote_end c = record c {
  linger_after_streams_finish =
      if ByteStream.eof (stream_out c.receiver) && not (ByteStream.eof c.sender.stream && c.fin)
      then false
      else c.linger_after_streams_finish;
}

abbrev pub take_in : TcpSegment → TcpConnection → TcpConnection
take_in seg c =
    if is_keep_alive seg c
    then record c { sender = send_empty_segment c.sender }
    else note_remote_end (answer seg (hand_over seg c))

pub segment_received : TcpSegment → TcpConnection → TcpConnection
segment_received seg c =
    let heard = record c { time_since_last_segment_received = 0 } in
    let noted = if seg.header.rst then report heard else heard in
    if not (active noted) then noted else send (take_in seg noted)

-- The new state, and the number of bytes accepted.
pub write : List ℕ → TcpConnection → TcpConnection × ℕ
write bytes c =
    let (stream, size) = ByteStream.write bytes c.sender.stream in
    if not (active c)
    then (c, 0)
    else (send (record c { sender = fill_window (record c.sender { stream = stream }) }), size)

abbrev pub pass_time : ℕ → TcpConnection → TcpConnection
pass_time ms c = record c {
  time_since_last_segment_received = add64 c.time_since_last_segment_received ms;
  sender = TcpSender.tick ms c.sender;
}

-- `consecutive_retransmissions()` returns an `unsigned int`.
abbrev pub give_up : TcpConnection → TcpConnection
give_up c =
    if ltb max_retx_attempts (to_u32 c.sender.consecutive_retransmissions) then report c else c

abbrev pub stop_lingering : TcpConnection → TcpConnection
stop_lingering c = record c {
  linger_after_streams_finish =
      if check_prereqs c && leb (10 * c.cfg.rt_timeout) c.time_since_last_segment_received
      then false
      else c.linger_after_streams_finish;
}

pub tick : ℕ → TcpConnection → TcpConnection
tick ms_since_last_tick c =
    if not (active c) then c else send (stop_lingering (give_up (pass_time ms_since_last_tick c)))

pub end_input_stream : TcpConnection → TcpConnection
end_input_stream c =
    if not (active c)
    then c
    else send (record c {
      sender = fill_window (record c.sender { stream = ByteStream.end_input c.sender.stream });
    })

pub connect : TcpConnection → TcpConnection
connect c = send (record c { sender = fill_window c.sender })

-- The destructor, and the segments that it still queues.
pub destroy : TcpConnection → TcpConnection
destroy c =
    if not (active c)
    then c
    else let reported = report c in
      send (record reported { sender = send_empty_segment reported.sender })
