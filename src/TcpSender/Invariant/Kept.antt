-- ===== src/TcpSender/Invariant/Kept.antt =====
-- Steps that leave most of the sender alone.
use csed353_sponge.Common.{ℕ, ◌^◌, ◌≤◌, ◌<◌, ◌≡◌, sym, ap, subst, List, arith}
use csed353_sponge.ByteStream.{ByteStream}
use csed353_sponge.ByteStream.Laws
use csed353_sponge.WrappingIntegers.{IsU32}
use csed353_sponge.TcpSegment.{TcpSegment}
use csed353_sponge.TcpSender.{TcpSender}
use csed353_sponge.TcpSender.Sent.{Chain}
use csed353_sponge.TcpSender.Invariant.{Core, IsValid}

-- The fields that the invariant reads are the same in both states, but for the outstanding
-- segments, which are now `queue`.
pub record Kept (queue : List TcpSegment) (s t : TcpSender) : Type 0 where
  pub isn : t.isn ≡ s.isn
  pub window : t.window_size ≡ s.window_size
  pub stream : t.stream ≡ s.stream
  pub fin : t.fin ≡ s.fin
  pub current : t.current_seqno ≡ s.current_seqno
  pub next : t.next_seqno ≡ s.next_seqno
  pub outstanding : t.outstanding_segments ≡ queue
  pub timer : t.is_timer_on ≡ s.is_timer_on

pub Kept-Core :
    {queue : List TcpSegment} {s t : TcpSender} (a : ℕ)
    → Kept queue s t
    → a ≤ s.current_seqno
    → Chain s.isn a queue s.next_seqno
    → Core s
    → Core t
Kept-Core {queue} {s} {t} a k le chain c = record {
  stream = subst Laws.IsValid (sym k.stream) c.stream;
  total = subst (λ (o : ByteStream). o.bytes_written < 2 ^ 63) (sym k.stream) c.total;
  isn = subst IsU32 (sym k.isn) c.isn;
  window = omega (arith, k.window, c.window);
  syn_fits = λ e. omega (arith, k.window, k.next, e, c.syn_fits);
  accounted =
      ground (arith, k.next, k.fin, ap (λ (o : ByteStream). o.bytes_read) k.stream, c.accounted);
  acked = omega (arith, k.current, k.next, c.acked);
  oldest = a;
  oldest_le = omega (arith, le, k.current);
  flight =
      subst (λ w. Chain w a t.outstanding_segments t.next_seqno) (sym k.isn)
        (subst (λ q. Chain s.isn a q t.next_seqno) (sym k.outstanding)
          (subst (Chain s.isn a queue) (sym k.next) chain));
}

pub Kept-IsValid : {s t : TcpSender} → Kept s.outstanding_segments s t → IsValid s → IsValid t
Kept-IsValid k v = record {
  core = Kept-Core v.core.oldest k v.core.oldest_le v.core.flight v.core;
  timer = ground (arith, k.timer, k.outstanding, v.timer);
}
