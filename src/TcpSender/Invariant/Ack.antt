-- ===== src/TcpSender/Invariant/Ack.antt =====
-- Acknowledgments keep the invariant of libsponge/tcp_sender.cc.
use csed353_sponge.Common.{
  leb, ◌==◌, if◌then◌else◌, leb→le, Bool-cases, length, ℕ, ◌+◌, ◌^◌, ◌≤◌, ◌<◌, ◌≡◌, refl, sym, ap,
  ◌∙◌, subst, ◌⊎◌, inl, inr, true, not, arith,
}
use csed353_sponge.WrappingIntegers.{WrappingInt32, unwrap}
use csed353_sponge.TcpSender.{TcpSender, note_ack, pop_acked, stop_timer, fill_window, ack_received}
use csed353_sponge.TcpSender.Invariant.{Core, TimerFits, IsValid, Core-Valid}
use csed353_sponge.TcpSender.Invariant.Steps.{fill_window-Core, fill_window-timer}
use csed353_sponge.TcpSender.Invariant.Popped.{pop_acked-Core}

pub note_ack-Core :
    (absolute_ackno win : ℕ) {s : TcpSender} (c : Core s)
    → absolute_ackno ≤ s.next_seqno
    → win < 2 ^ 16
    → (d : Core (note_ack absolute_ackno win s)) × (d.oldest ≡ c.oldest)
note_ack-Core absolute_ackno win {s} c le hw = (
  record {
    stream = c.stream;
    total = c.total;
    isn = c.isn;
    window = omega arith;
    syn_fits = λ e. omega (arith, c.acked);
    accounted = c.accounted;
    acked = omega (arith, c.acked);
    oldest = c.oldest;
    oldest_le = omega (arith, c.oldest_le);
    flight = c.flight;
  },
  refl,
)

stop_timer-IsValid :
    {s : TcpSender} → Core s → (s.is_timer_on ≡ true) ⊎ TimerFits s → IsValid (stop_timer s)
unfolding stop_timer
stop_timer-IsValid {s} c h = elim (Bool-cases (length s.outstanding_segments == 0)) [
  | inl e ↦ rw e (record {
    core = record {
      stream = c.stream;
      total = c.total;
      isn = c.isn;
      window = c.window;
      syn_fits = c.syn_fits;
      accounted = c.accounted;
      acked = c.acked;
      oldest = c.oldest;
      oldest_le = c.oldest_le;
      flight = c.flight;
    };
    timer = ap not (sym e);
  })
  | inr e ↦ rw e (record { core = c; timer = ground (arith, e, h) })
]

accept :
    {s : TcpSender} (c : Core s)
    → TimerFits s
    → s.next_seqno < c.oldest + 2 ^ 31
    → IsValid (
        if not s.is_timer_on
        then s
        else stop_timer (fill_window (pop_acked s.outstanding_segments s)))
accept {s} c timer near =
    let after = stop_timer (fill_window (pop_acked s.outstanding_segments s)) in
    elim (Bool-cases s.is_timer_on) [
      | inl on ↦
          let (popped_core, kept_on) = pop_acked-Core c (omega (arith, (Core-Valid c).2)) near in
          subst (λ b. IsValid (if not b then s else after)) (sym on)
            (stop_timer-IsValid (fill_window-Core popped_core)
              (inl (fill_window-timer popped_core (kept_on ∙ on))))
      | inr off ↦
          subst (λ b. IsValid (if not b then s else after)) (sym off)
            (record { core = c; timer = timer })
    ]

-- An acknowledgment with a 16-bit window keeps the invariant of the sender, whether it is accepted or
-- not, if the outstanding segments take up fewer than 2^31 numbers.
pub ack_received-IsValid :
    (ackno : WrappingInt32) (win : ℕ) {s : TcpSender} (v : IsValid s)
    → win < 2 ^ 16
    → s.next_seqno < v.core.oldest + 2 ^ 31
    → IsValid (ack_received ackno win s)
unfolding ack_received
ack_received-IsValid ackno win {s} v hw near =
    let absolute_ackno = unwrap ackno s.isn s.next_seqno in
    let noted = note_ack absolute_ackno win s in
    elim (Bool-cases (leb absolute_ackno s.next_seqno)) [
      | inl ok ↦
          let (d, same) =
            note_ack-Core absolute_ackno win v.core (leb→le absolute_ackno s.next_seqno ok) hw in
          rw ok (accept d v.timer (omega (arith, near, same)))
      | inr past ↦ rw past (stop_timer-IsValid v.core (inr v.timer))
    ]
