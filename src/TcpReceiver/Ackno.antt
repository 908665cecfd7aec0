-- ===== src/TcpReceiver/Ackno.antt =====
-- The acknowledgment number and the window that the receiver advertises.
use csed353_sponge.Common.{
  to_ℕ, ℕ, ◌+◌, ◌^◌, ◌<◌, ◌≡◌, refl, ap, true, false, ◌&&◌, none, some, arith,
}
use csed353_sponge.StreamReassembler
use csed353_sponge.StreamReassembler.Invariant.{room}
use csed353_sponge.WrappingIntegers.{WrappingInt32, wrap, unwrap}
use csed353_sponge.TcpReceiver.{TcpReceiver, ackno, window_size, first_unassembled}
use csed353_sponge.TcpReceiver.Receive.{IsValid}

-- The absolute number that is acknowledged: the SYN, the assembled bytes, and one more once a FIN has
-- been seen and nothing waits.
abbrev pub acknowledged : TcpReceiver → ℕ
acknowledged r = 1 + first_unassembled r + to_ℕ (r.is_fin && StreamReassembler.empty r.reassembler)

pub ackno-eq :
    (r : TcpReceiver)
    → r.is_syn ≡ true
    → acknowledged r < 2 ^ 64
    → ackno r ≡ some (wrap (acknowledged r) r.isn)
unfolding ackno
ackno-eq r e h = rw e (ap (λ n. some (wrap n r.isn)) (omega arith))

-- The number `a` is what the acknowledgment `w` stands for.
abbrev pub Acknowledges : TcpReceiver → ℕ → WrappingInt32 → ℕ → Type 0
Acknowledges r checkpoint w a = (ackno r ≡ some w) × (unwrap w r.isn checkpoint ≡ a)

-- The window that a valid receiver announces is the room of the reassembler, which is the width of
-- the window outside which it stores nothing.
pub window_size-eq : {r : TcpReceiver} → IsValid r → window_size r ≡ room r.reassembler
window_size-eq v =
    omega (arith, v.inner.out.fits, v.inner.out.small, v.inner.same_capacity, v.same_capacity)

pub ackno-none : (r : TcpReceiver) → r.is_syn ≡ false → ackno r ≡ none
unfolding ackno
ackno-none r e = rw e refl
