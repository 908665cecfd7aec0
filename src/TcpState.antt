-- ===== src/TcpState.antt =====
-- libsponge/tcp_helpers/tcp_state.hh and tcp_state.cc: the summary of a connection, and the official
-- states of TCP. The summaries, which are distinct strings in the code, are constructors.
pub mod Official
pub mod Summary
mod Tests
use csed353_sponge.Common.{
  ltb, ◌==◌, if◌then◌else◌, to_ℕ, is_some, add64, ℕ, Bool, true, false, not, ◌&&◌,
}
use csed353_sponge.ByteStream
use csed353_sponge.TcpReceiver.{TcpReceiver, stream_out, ackno}
use csed353_sponge.TcpSender.{TcpSender, bytes_in_flight}
use csed353_sponge.TcpConnection.{TcpConnection, active}

-- `TCPReceiverStateSummary`
pub data ReceiverSummary : Type 0 where
  receiver_error : ReceiverSummary
  receiver_listen : ReceiverSummary
  receiver_syn_recv : ReceiverSummary
  receiver_fin_recv : ReceiverSummary

-- `TCPSenderStateSummary`
pub data SenderSummary : Type 0 where
  sender_error : SenderSummary
  sender_closed : SenderSummary
  sender_syn_sent : SenderSummary
  sender_syn_acked : SenderSummary
  sender_fin_sent : SenderSummary
  sender_fin_acked : SenderSummary

-- `TCPState::State`
pub data State : Type 0 where
  listen : State
  syn_rcvd : State
  syn_sent : State
  established : State
  close_wait : State
  last_ack : State
  fin_wait_1 : State
  fin_wait_2 : State
  closing : State
  time_wait : State
  closed : State
  reset : State

pub record TcpState : Type 0 where
  pub sender : SenderSummary
  pub receiver : ReceiverSummary
  pub active : Bool
  pub linger_after_streams_finish : Bool

-- The constructor from an official state.
pub official : State → TcpState
official listen = record {
  sender = sender_closed;
  receiver = receiver_listen;
  active = true;
  linger_after_streams_finish = true;
}
official syn_rcvd = record {
  sender = sender_syn_sent;
  receiver = receiver_syn_recv;
  active = true;
  linger_after_streams_finish = true;
}
official syn_sent = record {
  sender = sender_syn_sent;
  receiver = receiver_listen;
  active = true;
  linger_after_streams_finish = true;
}
official established = record {
  sender = sender_syn_acked;
  receiver = receiver_syn_recv;
  active = true;
  linger_after_streams_finish = true;
}
official close_wait = record {
  sender = sender_syn_acked;
  receiver = receiver_fin_recv;
  active = true;
  linger_after_streams_finish = false;
}
official last_ack = record {
  sender = sender_fin_sent;
  receiver = receiver_fin_recv;
  active = true;
  linger_after_streams_finish = false;
}
official closing = record {
  sender = sender_fin_sent;
  receiver = receiver_fin_recv;
  active = true;
  linger_after_streams_finish = true;
}
official fin_wait_1 = record {
  sender = sender_fin_sent;
  receiver = receiver_syn_recv;
  active = true;
  linger_after_streams_finish = true;
}
official fin_wait_2 = record {
  sender = sender_fin_acked;
  receiver = receiver_syn_recv;
  active = true;
  linger_after_streams_finish = true;
}
official time_wait = record {
  sender = sender_fin_acked;
  receiver = receiver_fin_recv;
  active = true;
  linger_after_streams_finish = true;
}
official reset = record {
  sender = sender_error;
  receiver = receiver_error;
  active = false;
  linger_after_streams_finish = false;
}
official closed = record {
  sender = sender_fin_acked;
  receiver = receiver_fin_recv;
  active = false;
  linger_after_streams_finish = false;
}

pub receiver_summary : TcpReceiver → ReceiverSummary
receiver_summary receiver =
    if (stream_out receiver).error
    then receiver_error
    else if not (is_some (ackno receiver))
    then receiver_listen
    else if (stream_out receiver).input_ended
    then receiver_fin_recv
    else receiver_syn_recv

pub sender_summary : TcpSender → SenderSummary
sender_summary sender =
    if sender.stream.error
    then sender_error
    else if sender.next_seqno == 0
    then sender_closed
    else if sender.next_seqno == bytes_in_flight sender
    then sender_syn_sent
    else if not (ByteStream.eof sender.stream)
    then sender_syn_acked
    else if ltb sender.next_seqno (add64 sender.stream.bytes_written 2)
    then sender_syn_acked
    else if not (bytes_in_flight sender == 0)
    then sender_fin_sent
    else sender_fin_acked

-- The constructor from a sender, a receiver and the two flags of a connection.
pub summary : TcpSender → TcpReceiver → Bool → Bool → TcpState
summary sender receiver active linger = record {
  sender = sender_summary sender;
  receiver = receiver_summary receiver;
  active = active;
  linger_after_streams_finish = if active then linger else false;
}

-- `TCPConnection::state`
pub state : TcpConnection → TcpState
state c = summary c.sender c.receiver (active c) c.linger_after_streams_finish

-- The comparison of two summaries, by the place of each part in its list.
abbrev sender_code : SenderSummary → ℕ
sender_code sender_error = 0
sender_code sender_closed = 1
sender_code sender_syn_sent = 2
sender_code sender_syn_acked = 3
sender_code sender_fin_sent = 4
sender_code sender_fin_acked = 5

abbrev receiver_code : ReceiverSummary → ℕ
receiver_code receiver_error = 0
receiver_code receiver_listen = 1
receiver_code receiver_syn_recv = 2
receiver_code receiver_fin_recv = 3

abbrev pub same_state : TcpState → TcpState → Bool
same_state a b =
    (sender_code a.sender == sender_code b.sender)
    && (receiver_code a.receiver == receiver_code b.receiver)
    && (to_ℕ a.active == to_ℕ b.active)
    && (to_ℕ a.linger_after_streams_finish == to_ℕ b.linger_after_streams_finish)
