-- ===== src/Lib.antt =====
-- A model of sponge, a TCP endpoint with the network below it.
--
-- The program is a library of classes in libsponge/. A writer puts bytes into a `ByteStream`, the
-- `TCPSender` cuts them into segments and numbers them, a `TCPConnection` stamps the segments with
-- what its `TCPReceiver` acknowledges and hands them to the network; a segment that comes in goes to
-- the receiver, whose `StreamReassembler` puts the bytes in order into another `ByteStream`, and its
-- acknowledgment goes to the sender. Sequence numbers on the wire are `WrappingInt32`.
--
-- Below TCP, an adapter turns segments into UDP datagrams, IPv4 datagrams or Ethernet frames and
-- filters what comes in. A `NetworkInterface` puts IPv4 datagrams into Ethernet frames and finds the
-- addresses by ARP, and a `Router` forwards datagrams between interfaces. Above, a `TCPSpongeSocket`
-- runs a connection in a thread: an `EventLoop` polls the device of the adapter and the stream to the
-- owner, and calls the rules that move bytes and segments between them and the connection.
--
-- Files, and the code that they model:
--   Common                shared names, tests on numbers, words of 64, 32 and 16 bits, bit masks,
--                         lists
--   ByteStream            libsponge/byte_stream.{hh,cc}; Spec: the history that it stands for
--   WrappingIntegers      libsponge/wrapping_integers.{hh,cc}
--   StreamReassembler     libsponge/stream_reassembler.{hh,cc}; `store` and `retrieve` are the two
--                         loops of push_substring; Store, Retrieve and Push: what they do; Stream:
--                         runs of arrivals and reads
--   TcpHeader, TcpSegment libsponge/tcp_helpers/tcp_header.hh, tcp_segment.hh: the fields; Wire:
--                         tcp_header.cc, tcp_segment.cc, parsing and serialising
--   TcpConfig             libsponge/tcp_helpers/tcp_config.hh, and the addresses in it
--   TcpReceiver           libsponge/tcp_receiver.{hh,cc}
--   TcpSender             libsponge/tcp_sender.{hh,cc}; `send_segments` is the loop of fill_window,
--                         `pop_acked` that of ack_received; Sent: what sending does; Invariant
--   TcpConnection         libsponge/tcp_connection.{hh,cc}; `send_queue` is the loop of _send;
--                         Reach: the states that calls lead to
--   TcpState              libsponge/tcp_helpers/tcp_state.{hh,cc}
--   Parser, Checksum      libsponge/util/parser.{hh,cc}; InternetChecksum of libsponge/util/util.cc
--   Buffer                libsponge/util/buffer.{hh,cc}; Views: the list of views of a buffer
--   ArpMessage            libsponge/tcp_helpers/arp_message.{hh,cc}
--   EthernetHeader        libsponge/tcp_helpers/ethernet_header.{hh,cc}, ethernet_frame.{hh,cc}
--   Ipv4                  libsponge/tcp_helpers/ipv4_header.{hh,cc}, ipv4_datagram.{hh,cc}
--   NetworkInterface      libsponge/network_interface.{hh,cc}; Waiting, Requests, Run: its
--                         invariant; Answer: ARP messages; Exchange: two interfaces
--   Router                libsponge/router.{hh,cc}; `drain` is the inner loop of route, `route_from`
--                         the outer one
--   FdAdapter             libsponge/tcp_helpers/fd_adapter.{hh,cc}, and the choice of
--                         lossy_fd_adapter.hh whether to drop
--   TcpOverIp             libsponge/tcp_helpers/tcp_over_ip.cc, and the TUN adapter of
--                         tuntap_adapter.hh
--   TapAdapter            libsponge/tcp_helpers/tuntap_adapter.cc
--   FileDescriptor        libsponge/util/file_descriptor.{hh,cc}: reading, writing, the counts and
--                         flags
--   EventLoop             libsponge/util/eventloop.{hh,cc}; `set_up` and `dispatch` are the two loops
--                         of wait_next_event
--   TcpSpongeSocket       libsponge/tcp_helpers/tcp_sponge_socket.{hh,cc}: the four rules; Adapters:
--                         the adapters that it runs with; Inbound: what the rules do to the stream
--                         of the peer; Loop: the loop and the calls that run it
--   StreamCopy            apps/bidirectional_stream_copy.cc: the four rules and the loop, over a `Pipe`
--                         for each direction; Whole: the bytes that pass
-- A class is a record of its members, a method is a function from the old state to the new one, with
-- what it returns beside it; `none` is an exception. A file named Tests holds concrete runs.
--
-- Numbers. A member of 64, 32 or 16 bits is a number, and where the code may wrap the model has the
-- remainder by 2^64, 2^32 or 2^16 (add64, sub64, add32, sub32, to_u32, to_u16). The theorems say
-- which numbers they take to be small: capacities and all bytes of a stream below 2^63 or 2^64, and
-- distances of sequence numbers below 2^31, as in TCP. The counts of reads and writes of a descriptor
-- are not wrapped; they are only compared before and after one callback.
--
-- Loops are structural: over the bytes of a substring, over the room of the output, over the rounds
-- of fill_window (`num_segments`, computed before the loop as in the code), over queues, rules,
-- buffers and interfaces. The loop of InternetChecksum::value has three rounds of fuel, which are
-- proved to be enough, and the queue that `drain` empties has as many rounds as it has datagrams at
-- the start: routing one datagram adds none to a queue of datagrams that came in.
--
-- Buffers. Outside of Buffer, a payload is the list of its bytes. So the conversion of a BufferList
-- into a Buffer, which throws for several buffers, is the identity: the interface meets it only for a
-- frame that came off the wire, whose payload is one buffer. With a capacity of 0 the second loop of
-- push_substring reads the front of an empty deque, which C++ leaves undefined; `retrieve` stops.
--
-- Parameters. Random numbers (the initial sequence number, whether a lossy adapter drops) are
-- arguments. So is what the kernel returns: the results of `read` and `writev`, one for each call,
-- what `poll` reports, what a device holds when it is read, and the time that has passed between two
-- rounds of the loop. `TcpSpongeSocket` and `StreamCopy` keep the results that are still to come in
-- lists, about which nothing is assumed; a list that is used up is `none`, as an exception is. `close`
-- and `shutdown` are taken to succeed. An address is its number and its port, which `inet_ntoa` and
-- `getaddrinfo` keep.
--
-- Not modelled: sockets, TUN and TAP devices and the resolver, which wrap system calls; the second
-- thread of TCPSpongeSocket but for its abort flag; the command line programs; printing.
pub mod Common
pub mod Buffer
pub mod FileDescriptor
pub mod EventLoop
pub mod ByteStream
pub mod WrappingIntegers
pub mod StreamReassembler
pub mod TcpHeader
pub mod TcpSegment
pub mod TcpReceiver
pub mod StreamCopy
pub mod TcpConfig
pub mod TcpSender
pub mod TcpConnection
pub mod TcpState
pub mod Parser
pub mod ArpMessage
pub mod EthernetHeader
pub mod Checksum
pub mod Ipv4
pub mod NetworkInterface
pub mod Router
pub mod FdAdapter
pub mod TcpOverIp
pub mod TapAdapter
pub mod TcpSpongeSocket
