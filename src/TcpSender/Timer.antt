-- ===== src/TcpSender/Timer.antt =====
-- The retransmission timer of libsponge/tcp_sender.cc: what `tick` sends again, and its
-- exponential backoff.
use csed353_sponge.Common.{
  ltb, leb, ◌==◌, if◌then◌else◌, to_ℕ, Bool-cases, length, ℕ, suc, ◌+◌, ◌-◌, ◌*◌, ◌%◌, ◌^◌, ◌<◌,
  ◌≡◌, refl, sym, ap, ◌∙◌, ◌⊎◌, inl, inr, Bool, true, false, not, List, [], ◌∷◌, ◌++◌, arith,
}
use native.Mathlib.Nat.{pow-suc, mul_assoc}
use csed353_sponge.TcpSegment.{TcpSegment}
use csed353_sponge.TcpSender.{TcpSender, front, tick}
use csed353_sponge.TcpSender.Invariant.{IsValid}

abbrev pub timed_out : ℕ → TcpSender → Bool
timed_out ms s = leb s.retransmission_timeout (s.timer_elapsed + ms)

abbrev backs_off : TcpSender → Bool
backs_off s = ltb 0 s.receiver_window_size

-- The timer has not expired: only the time counts on.
pub Waits : ℕ → TcpSender → Type 0
Waits ms s = tick ms s ≡ record s { timer_elapsed = s.timer_elapsed + ms }

-- The oldest outstanding segment is sent again as it was, and the timer starts over, with twice the
-- timeout exactly if the peer's window is open.
pub record Retransmits (ms : ℕ) (s : TcpSender) : Type 0 where
  pub oldest : TcpSegment
  pub others : List TcpSegment
  pub outstanding : s.outstanding_segments ≡ oldest ∷ others
  pub sent : tick ms s ≡ record s {
    segments_out = s.segments_out ++ oldest ∷ [];
    timer_elapsed = 0;
    retransmission_timeout =
        if backs_off s then 2 * s.retransmission_timeout else s.retransmission_timeout;
    consecutive_retransmissions = s.consecutive_retransmissions + to_ℕ (backs_off s);
  }

split_front :
    (xs : List TcpSegment)
    → not (length xs == 0) ≡ true
    → (others : List TcpSegment) × (xs ≡ front xs ∷ others)
split_front [] h = ground (arith, h)
split_front (x ∷ xs) h = (xs, refl)

waits :
    (ms : ℕ) (s : TcpSender)
    → s.is_timer_on ≡ true
    → s.timer_elapsed + ms < 2 ^ 64
    → timed_out ms s ≡ false
    → Waits ms s
unfolding tick Waits
waits ms s on he e = ground (arith, on, he, e)

retransmits :
    (ms : ℕ) (s : TcpSender)
    → IsValid s
    → s.is_timer_on ≡ true
    → s.timer_elapsed + ms < 2 ^ 64
    → s.retransmission_timeout < 2 ^ 31
    → s.consecutive_retransmissions < 2 ^ 64 - 1
    → timed_out ms s ≡ true
    → Retransmits ms s
unfolding tick
retransmits ms s v on he hr hc e =
    let split = split_front s.outstanding_segments (ground (arith, v.timer, on)) in
    record {
      oldest = front s.outstanding_segments;
      others = split.0;
      outstanding = split.1;
      sent = ground (arith, on, he, hr, hc, e);
    }

-- While the timer runs, `tick` either waits, if the timeout is not reached, or retransmits: the
-- queue `front()` is called on is not empty, its first segment is queued once more, unchanged, and
-- the timer starts over, with twice the timeout and one more retransmission counted exactly if the
-- peer's window is open. Nothing else changes. (For a valid sender whose numbers are not about to
-- overflow.)
pub tick_lem :
    (ms : ℕ) (s : TcpSender)
    → IsValid s
    → s.is_timer_on ≡ true
    → s.timer_elapsed + ms < 2 ^ 64
    → s.retransmission_timeout < 2 ^ 31
    → s.consecutive_retransmissions < 2 ^ 64 - 1
    → ((timed_out ms s ≡ false) × Waits ms s) ⊎ ((timed_out ms s ≡ true) × Retransmits ms s)
tick_lem ms s v on he hr hc = elim (Bool-cases (timed_out ms s)) [
  | inl e ↦ inr (e, retransmits ms s v on he hr hc e)
  | inr e ↦ inl (e, waits ms s on he e)
]

-- The timeout is the initial one, doubled once for each retransmission in a row.
abbrev pub Backoff : TcpSender → Type 0
Backoff s =
    s.retransmission_timeout
    ≡ s.initial_retransmission_timeout * 2 ^ s.consecutive_retransmissions % 2 ^ 32

double : (a n r : ℕ) → r ≡ a * 2 ^ n % 2 ^ 32 → r * 2 % 2 ^ 32 ≡ a * 2 ^ (n + 1) % 2 ^ 32
double a n r h =
    wrapped (a * 2 ^ n) r h ∙ ap (λ x. x % 2 ^ 32) (mul_assoc a (2 ^ n) 2 ∙ ap (λ p. a * p) power)
  where
    wrapped : (x r : ℕ) → r ≡ x % 2 ^ 32 → r * 2 % 2 ^ 32 ≡ x * 2 % 2 ^ 32
    wrapped x r h = omega (arith, h)

    next : suc n ≡ n + 1
    next = omega arith

    power : 2 ^ n * 2 ≡ 2 ^ (n + 1)
    power = sym (pow-suc 2 n) ∙ ap (λ k. 2 ^ k) next

-- A tick keeps the timeout at the initial one doubled once for each retransmission in a row, in 32
-- bits, as long as the count does not overflow.
pub tick-Backoff :
    (ms : ℕ) (s : TcpSender)
    → s.consecutive_retransmissions < 2 ^ 64 - 1
    → Backoff s
    → Backoff (tick ms s)
unfolding tick
tick-Backoff ms s hc b = ground (
  arith,
  hc,
  b,
  double s.initial_retransmission_timeout s.consecutive_retransmissions s.retransmission_timeout b,
)
