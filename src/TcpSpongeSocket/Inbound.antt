-- ===== src/TcpSpongeSocket/Inbound.antt =====
-- What the rules of libsponge/tcp_helpers/tcp_sponge_socket.cc do to the inbound stream.
use csed353_sponge.Common.{
  Bool-cases, OnSuccess, OnSuccess-if, OnSuccess-bind, OnSuccess-list, OnSuccess-any,
  OnSuccess-found, OnSuccess-cons, length, All, take, ℕ, ◌-◌, ◌^◌, ◌<◌, min, ◌≡◌, refl, ap, ◌∙◌,
  subst, inl, inr, false, ◌||◌, Option, none, some, List, [], ◌∷◌, ◌++◌, arith,
}
use csed353_sponge.ByteStream
use csed353_sponge.ByteStream.Taken.{offered-read, pop_output-read, peek-short}
use csed353_sponge.WrappingIntegers.{WrappingInt32, IsU32}
use csed353_sponge.TcpSegment.{TcpSegment}
use csed353_sponge.TcpReceiver.Segments.{
  IsSegment, Tracks, Tracks-receive, Tracks-failed, Tracks-consumed,
}
use csed353_sponge.TcpConnection.{TcpConnection, remaining_outbound_capacity, write}
use csed353_sponge.TcpConnection.Inbound.{
  inbound_bytes, segment_received-kept, write-kept, end_input_stream-kept,
}
use csed353_sponge.FileDescriptor
use csed353_sponge.FileDescriptor.{FileDescriptor, WriteResult, returned, failed, waiting}
use csed353_sponge.FileDescriptor.Write.{Written, write_one}
use csed353_sponge.TcpSpongeSocket.{
  AdapterOps, SpongeSocket, receive, give_segment, end_outbound, hand_to_tcp, take_outbound,
  offered, pop_delivered, deliver, note_inbound_end, with_inbound, inbound, send_segments,
}

module _ {A I O : Type 0} (ops : AdapterOps A I O) (stream : List ℕ) (isn : WrappingInt32)
    (short : length stream < 2 ^ 31 - 1) (fits : IsU32 isn) where
  -- Whatever segment the adapter reads from this input is one of the peer's stream.
  abbrev pub Arrives : I → Type 0
  Arrives i =
      (a b : A) (seg : TcpSegment) (os : List O)
      → ops.read i a ≡ some (b, some seg, os)
      → IsSegment stream isn seg

  -- The receiver and the bytes that were delivered follow the peer's stream, and what is still to
  -- arrive is of it.
  pub record InStep (s : SpongeSocket A I O) : Type 0 where
    pub tracks : Tracks stream isn s.tcp.receiver s.delivered
    pub arriving : All Arrives s.arrivals

  give_segment-Tracks :
      (seg : Option TcpSegment) (c : TcpConnection) (delivered : List ℕ)
      → ((t : TcpSegment) → seg ≡ some t → IsSegment stream isn t)
      → Tracks stream isn c.receiver delivered
      → Tracks stream isn (give_segment seg c).receiver delivered
  give_segment-Tracks none c delivered h t = t
  give_segment-Tracks (some seg) c delivered h t =
      segment_received-kept (λ r. Tracks stream isn r delivered) (λ r u. Tracks-failed stream isn u)
        seg c (λ r u. Tracks-receive stream isn seg short fits (h seg refl) u) t

  pub receive-InStep : (s : SpongeSocket A I O) → InStep s → OnSuccess InStep (receive ops s)
  unfolding receive
  receive-InStep s x = OnSuccess-cons InStep s.arrivals _ (λ i is e.
      let arriving = subst (All Arrives) e x.arriving in
      OnSuccess-found InStep (ops.read i s.adapter) _ (λ r found. record {
        tracks =
            give_segment-Tracks r.1 s.tcp s.delivered
              (λ t same. arriving.0 s.adapter r.0 t r.2 (found ∙ ap (λ g. some (r.0, g, r.2)) same))
              x.tracks;
        arriving = arriving.1;
      }))

  pub end_outbound-InStep : (s : SpongeSocket A I O) → InStep s → InStep (end_outbound s)
  end_outbound-InStep s x = record {
    tracks =
        end_input_stream-kept (λ r. Tracks stream isn r s.delivered)
          (λ r u. Tracks-failed stream isn u) s.tcp x.tracks;
    arriving = x.arriving;
  }

  hand_to_tcp-InStep :
      (fd : FileDescriptor) (bytes : List ℕ) (s : SpongeSocket A I O)
      → InStep s
      → OnSuccess InStep (hand_to_tcp fd bytes s)
  unfolding hand_to_tcp
  hand_to_tcp-InStep fd bytes s x =
      let written : SpongeSocket A I O = record s {
        tcp = (write bytes s.tcp).0;
        thread_data = fd;
      } in
      let y : InStep written = record {
        tracks =
            write-kept (λ r. Tracks stream isn r s.delivered) (λ r u. Tracks-failed stream isn u)
              bytes s.tcp x.tracks;
        arriving = x.arriving;
      } in
      OnSuccess-if InStep _ none _ tt (
        OnSuccess-if InStep fd.eof (some (end_outbound written)) (some written)
          (end_outbound-InStep written y) y)

  pub take_outbound-InStep :
      (s : SpongeSocket A I O) → InStep s → OnSuccess InStep (take_outbound s)
  unfolding take_outbound
  take_outbound-InStep s x = OnSuccess-list InStep s.thread_reads _ (λ result results.
      let o = FileDescriptor.read (remaining_outbound_capacity s.tcp) result s.thread_data in
      OnSuccess-bind (λ _. Unit {0}) InStep o _ (OnSuccess-any o)
        (λ r _.
          hand_to_tcp-InStep r.0 r.1 (record s { thread_reads = results })
            (record { tracks = x.tracks; arriving = x.arriving })))

  note_inbound_end-InStep : (s : SpongeSocket A I O) → InStep s → InStep (note_inbound_end s)
  note_inbound_end-InStep s x =
      elim (Bool-cases (ByteStream.eof (inbound s.tcp) || (inbound s.tcp).error)) [
        | inl h ↦ rw h (record { tracks = x.tracks; arriving = x.arriving })
        | inr h ↦ rw h x
      ]

  pop_delivered-InStep :
      (result : Option ℕ) (w : WriteResult) (s : SpongeSocket A I O)
      → InStep s
      → Written false (result ∷ []) (length (offered s)) w
      → OnSuccess InStep (pop_delivered w s)
  pop_delivered-InStep result (returned fd n) s x w =
      let limit = min 65536 (length (inbound_bytes s.tcp)) in
      note_inbound_end-InStep
        (record s {
          tcp = with_inbound (ByteStream.pop_output n (inbound s.tcp)) s.tcp;
          thread_data = fd;
          delivered = s.delivered ++ take n (offered s);
        })
        (record {
          tracks = rw (pop_output-read n (inbound s.tcp)) (
              subst
                (λ bytes.
                  Tracks stream isn
                    (with_inbound (ByteStream.read n (inbound s.tcp)).0 s.tcp).receiver
                    (s.delivered ++ bytes))
                (offered-read n limit (inbound s.tcp) w.bounded)
                (Tracks-consumed stream isn n x.tracks));
          arriving = x.arriving;
        })
  pop_delivered-InStep result failed s x w = tt
  pop_delivered-InStep result waiting s x w = tt

  pub deliver-InStep : (s : SpongeSocket A I O) → InStep s → OnSuccess InStep (deliver s)
  unfolding deliver
  deliver-InStep s x =
      let limit = min 65536 (length (inbound_bytes s.tcp)) in
      OnSuccess-list InStep s.thread_writes _ (λ result results.
        pop_delivered-InStep result _ (record s { thread_writes = results })
          (record { tracks = x.tracks; arriving = x.arriving })
          (write_one result (offered s) s.thread_data
            (omega (arith, peek-short limit (inbound s.tcp)))))

  pub send_segments-InStep :
      (segs : List TcpSegment) (s : SpongeSocket A I O)
      → InStep s
      → OnSuccess InStep (send_segments ops segs s)
  unfolding send_segments
  send_segments-InStep [] s x = x
  send_segments-InStep (seg ∷ segs) s x =
      OnSuccess-bind (λ _. Unit {0}) InStep (ops.write seg s.adapter) _
        (OnSuccess-any (ops.write seg s.adapter))
        (λ r _. send_segments-InStep segs _ (record { tracks = x.tracks; arriving = x.arriving }))
