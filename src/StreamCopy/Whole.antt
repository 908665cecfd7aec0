-- ===== src/StreamCopy/Whole.antt =====
-- The copying of apps/bidirectional_stream_copy.cc loses no byte.
use csed353_sponge.Common.{
  Bool-cases, OnSuccess, OnSuccess-if, OnSuccess-bind, OnSuccess-list, OnSuccess-found, length, All,
  take, ℕ, min, ◌≡◌, sym, ap, ◌∙◌, inl, inr, false, Option, List, [], ◌∷◌, ◌++◌, append_assoc,
  arith,
}
use csed353_sponge.ByteStream
use csed353_sponge.ByteStream.{ByteStream}
use csed353_sponge.ByteStream.Taken.{offered-pop, peek-short, write_whole}
use csed353_sponge.FileDescriptor
use csed353_sponge.FileDescriptor.{FileDescriptor, WriteResult, returned, failed, waiting}
use csed353_sponge.FileDescriptor.Read.{read-le}
use csed353_sponge.FileDescriptor.Write.{Written, write_one}
use csed353_sponge.EventLoop.{Rule, Polled, PollResult, is_exit, wait_next_event}
use csed353_sponge.EventLoop.Rounds.{Keeps, wait_next_event-Keeps}
use csed353_sponge.StreamCopy.{
  Pipe, Copy, end_pipe, note_eof, fill, offered, popped, drain, read_input, shut_socket,
  write_socket, read_socket, close_output, write_output, rules, copy_loop,
}

-- Every byte that was read has been written, or waits, in the order in which it was read.
abbrev pub IsPipe : Pipe → Type 0
IsPipe p = p.taken ≡ p.given ++ p.stream.buffer

abbrev pub IsCopy : Copy → Type 0
IsCopy c = IsPipe c.outbound × IsPipe c.inbound

end_pipe-IsPipe : (p : Pipe) → IsPipe p → IsPipe (end_pipe p)
unfolding ByteStream.end_input
end_pipe-IsPipe p i = i

note_eof-IsPipe : (fd : FileDescriptor) (p : Pipe) → IsPipe p → IsPipe (note_eof fd p)
note_eof-IsPipe fd p i = elim (Bool-cases fd.eof) [
  | inl h ↦ rw h (end_pipe-IsPipe p i)
  | inr h ↦ rw h i
]

fill-IsPipe : (fd : FileDescriptor) (p : Pipe) → IsPipe p → OnSuccess (λ r. IsPipe r.1) (fill fd p)
unfolding fill
fill-IsPipe fd p i =
    OnSuccess-list (λ r. IsPipe r.1) p.reads _
      (λ result results.
        OnSuccess-found (λ r. IsPipe r.1)
          (FileDescriptor.read (ByteStream.remaining_capacity p.stream) result fd) _
          (λ r e. note_eof-IsPipe r.0 _ (
            ap (λ b. b ++ r.1) i
            ∙ append_assoc p.given p.stream.buffer r.1
            ∙ ap (λ b. p.given ++ b)
                (sym (
                  write_whole r.1 p.stream
                    (read-le (ByteStream.remaining_capacity p.stream) result fd r.0 r.1 e))))))

popped-IsPipe :
    (result : Option ℕ) (w : WriteResult) (p : Pipe)
    → IsPipe p
    → Written false (result ∷ []) (length (offered p)) w
    → OnSuccess (λ r. IsPipe r.1) (popped w p)
unfolding popped
popped-IsPipe result (returned fd n) p i w =
    i
    ∙ ap (λ b. p.given ++ b)
        (sym (offered-pop n (min 65536 (length p.stream.buffer)) p.stream w.bounded))
    ∙ sym (append_assoc p.given (take n (offered p)) (ByteStream.pop_output n p.stream).buffer)
popped-IsPipe result failed p i w = tt
popped-IsPipe result waiting p i w = tt

drain-IsPipe :
    (fd : FileDescriptor) (p : Pipe) → IsPipe p → OnSuccess (λ r. IsPipe r.1) (drain fd p)
unfolding drain
drain-IsPipe fd p i =
    OnSuccess-list (λ r. IsPipe r.1) p.writes _
      (λ result results.
        popped-IsPipe result _ (record p { writes = results }) i
          (write_one result (offered p) fd
            (omega (arith, peek-short (min 65536 (length p.stream.buffer)) p.stream))))

shut_socket-IsCopy :
    (fd : FileDescriptor) (p : Pipe) (c : Copy) → IsPipe p → IsCopy c → IsCopy (shut_socket fd p c)
shut_socket-IsCopy fd p c i k = elim (Bool-cases (ByteStream.eof p.stream)) [
  | inl h ↦ rw h (i, k.1)
  | inr h ↦ rw h (i, k.1)
]

close_output-IsCopy :
    (fd : FileDescriptor) (p : Pipe) (c : Copy) → IsPipe p → IsCopy c → IsCopy (close_output fd p c)
close_output-IsCopy fd p c i k = elim (Bool-cases (ByteStream.eof p.stream)) [
  | inl h ↦ rw h (k.0, i)
  | inr h ↦ rw h (k.0, i)
]

rules-Keeps : All (Keeps IsCopy) rules
unfolding rules read_input write_socket read_socket write_output
rules-Keeps = (
  record {
    callback = λ c k.
        OnSuccess-bind (λ r. IsPipe r.1) IsCopy (fill c.input c.outbound) _
          (fill-IsPipe c.input c.outbound k.0) (λ r i. (i, k.1));
    cancel = λ c k. (end_pipe-IsPipe c.outbound k.0, k.1);
  },
  (
    record {
      callback = λ c k.
          OnSuccess-bind (λ r. IsPipe r.1) IsCopy (drain c.socket c.outbound) _
            (drain-IsPipe c.socket c.outbound k.0) (λ r i. shut_socket-IsCopy r.0 r.1 c i k);
      cancel = λ c k. (end_pipe-IsPipe c.outbound k.0, k.1);
    },
    (
      record {
        callback = λ c k.
            OnSuccess-bind (λ r. IsPipe r.1) IsCopy (fill c.socket c.inbound) _
              (fill-IsPipe c.socket c.inbound k.1) (λ r i. (k.0, i));
        cancel = λ c k. (k.0, end_pipe-IsPipe c.inbound k.1);
      },
      (
        record {
          callback = λ c k.
              OnSuccess-bind (λ r. IsPipe r.1) IsCopy (drain c.output c.inbound) _
                (drain-IsPipe c.output c.inbound k.1) (λ r i. close_output-IsCopy r.0 r.1 c i k);
          cancel = λ c k. (k.0, end_pipe-IsPipe c.inbound k.1);
        },
        tt,
      ),
    ),
  ),
)

copy_loop_kept-IsCopy :
    (polls : List (List (Polled Copy) → PollResult)) (rs : List (Rule Copy)) (c : Copy)
    → All (Keeps IsCopy) rs
    → IsCopy c
    → OnSuccess (λ r. IsCopy r.0) (copy_loop polls rs c)
unfolding copy_loop
copy_loop_kept-IsCopy [] rs c k i = i
copy_loop_kept-IsCopy (poll ∷ polls) rs c k i =
    OnSuccess-bind (λ r. IsCopy r.0 × All (Keeps IsCopy) r.1) (λ r. IsCopy r.0)
      (wait_next_event poll rs c) _ (wait_next_event-Keeps IsCopy poll rs c k i)
      (λ r j.
        OnSuccess-if (λ r. IsCopy r.0) (is_exit r.2) _ _ j.0
          (copy_loop_kept-IsCopy polls r.1 r.0 j.1 j.0))

-- Whatever `poll`, `read` and `writev` return: after any number of rounds of the loop, from a state
-- in which it holds, if none has thrown, in each direction the bytes that were read are those that
-- were written, followed by those that wait in the stream.
pub copy_loop-IsCopy :
    (polls : List (List (Polled Copy) → PollResult)) (c : Copy)
    → IsCopy c
    → OnSuccess (λ r. IsCopy r.0) (copy_loop polls rules c)
copy_loop-IsCopy polls c i = copy_loop_kept-IsCopy polls rules c rules-Keeps i
