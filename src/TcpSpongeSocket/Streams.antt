-- ===== src/TcpSpongeSocket/Streams.antt =====
-- What the rules of libsponge/tcp_helpers/tcp_sponge_socket.cc take from the owner.
use csed353_sponge.Common.{
  ◌==◌, if◌then◌else◌, length, ℕ, ◌≤◌, ◌≡◌, refl, Bool, true, false, Option, some, List, ◌∷◌, arith,
}
use csed353_sponge.TcpConnection.{remaining_outbound_capacity, write}
use csed353_sponge.TcpConnection.Outbound.{write_all_lem}
use csed353_sponge.FileDescriptor
use csed353_sponge.FileDescriptor.{FileDescriptor, WriteResult, returned, failed, waiting}
use csed353_sponge.FileDescriptor.Read.{read-le}
use csed353_sponge.TcpSpongeSocket.{SpongeSocket, end_outbound, hand_to_tcp, take_outbound}

module _ {A I O : Type 0} where
  some-if :
      (t : Bool) (a b : SpongeSocket A I O)
      → (if t then some a else some b) ≡ some (if t then a else b)
  some-if true a b = refl
  some-if false a b = refl

  hand_to_tcp-eq :
      (fd : FileDescriptor) (bytes : List ℕ) (s : SpongeSocket A I O)
      → length bytes ≤ remaining_outbound_capacity s.tcp
      → hand_to_tcp fd bytes s ≡ (
          let written : SpongeSocket A I O = record s {
            tcp = (write bytes s.tcp).0;
            thread_data = fd;
          } in
          some (if fd.eof then end_outbound written else written))
  unfolding hand_to_tcp
  hand_to_tcp-eq fd bytes s h =
      let written : SpongeSocket A I O = record s {
        tcp = (write bytes s.tcp).0;
        thread_data = fd;
      } in
      let e : ((write bytes s.tcp).1 == length bytes) ≡ true =
        ground (arith, write_all_lem bytes s.tcp h) in
      rw e (some-if fd.eof (end_outbound written) written)

  -- Whatever the state, a read of the owner's bytes that does not throw is handed to the connection
  -- whole: the exception that the connection accepts less than it advertised is never thrown.
  pub take_outbound_lem :
      (s : SpongeSocket A I O) (result : Option (List ℕ)) (results : List (Option (List ℕ)))
      (fd : FileDescriptor) (bytes : List ℕ)
      → s.thread_reads ≡ result ∷ results
      → FileDescriptor.read (remaining_outbound_capacity s.tcp) result s.thread_data
        ≡ some (fd, bytes)
      → ((write bytes s.tcp).1 ≡ length bytes)
        × (take_outbound s ≡ (
            let written : SpongeSocket A I O = record s {
              tcp = (write bytes s.tcp).0;
              thread_data = fd;
              thread_reads = results;
            } in
            some (if fd.eof then end_outbound written else written)))
  unfolding take_outbound
  take_outbound_lem s result results fd bytes next found =
      let le = read-le (remaining_outbound_capacity s.tcp) result s.thread_data fd bytes found in
      (
        write_all_lem bytes s.tcp le,
        rw (next, take_outbound, found)
            (hand_to_tcp-eq fd bytes (record s { thread_reads = results }) le),
      )
