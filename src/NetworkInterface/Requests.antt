-- ===== src/NetworkInterface/Requests.antt =====
-- The ARP requests that the interface of libsponge/network_interface.cc has sent.
pub mod Steps
pub mod Time
use csed353_sponge.Common.{
  ◌==◌, Bool-cases, ℕ, ◌≡◌, subst, ◌⊎◌, inl, inr, true, List, [], ◌∷◌, ◌++◌, arith,
}
use csed353_sponge.ArpMessage.{ArpMessage, opcode_request}
use csed353_sponge.ArpMessage.RoundTrip.{wire}
use csed353_sponge.EthernetHeader.{EthernetFrame, type_arp}
use csed353_sponge.NetworkInterface.{
  PendingIp, PendingDatagram, NetworkInterface, any_pending, prune_pending,
}
use csed353_sponge.NetworkInterface.Waiting.{Covered}

-- The frame carries an ARP request for an address.
abbrev pub IsRequest : ℕ → EthernetFrame → Type 0
IsRequest ip frame =
    (m : ArpMessage) × (frame.header.type ≡ type_arp)
    × (frame.payload ≡ wire m [])
    × (m.opcode ≡ opcode_request)
    × (m.target_ip_address ≡ ip)

-- One of the frames does.
abbrev pub Requested : ℕ → List EthernetFrame → Type 0
Requested ip [] = ⊥
Requested ip (f ∷ fs) = IsRequest ip f ⊎ Requested ip fs

abbrev pub AllRequested : List PendingIp → List EthernetFrame → Type 0
AllRequested [] fs = Unit {0}
AllRequested (e ∷ es) fs = Requested e.ip fs × AllRequested es fs

-- The address of every datagram is listed among those asked for, and was asked for in a frame.
abbrev pub AreAsked : List PendingDatagram → List PendingIp → List EthernetFrame → Type 0
AreAsked [] es fs = Unit {0}
AreAsked (d ∷ ds) es fs = (any_pending d.ip es ≡ true) × Requested d.ip fs × AreAsked ds es fs

pub Requested-append :
    (ip : ℕ) (xs ys : List EthernetFrame) → Requested ip xs → Requested ip (xs ++ ys)
Requested-append ip [] ys h = absurd h
Requested-append ip (x ∷ xs) ys (inl h) = inl h
Requested-append ip (x ∷ xs) ys (inr h) = inr (Requested-append ip xs ys h)

pub Requested-last :
    (ip : ℕ) (xs : List EthernetFrame) (f : EthernetFrame)
    → IsRequest ip f
    → Requested ip (xs ++ f ∷ [])
Requested-last ip [] f h = inl h
Requested-last ip (x ∷ xs) f h = inr (Requested-last ip xs f h)

pub AllRequested-append :
    (es : List PendingIp) (xs ys : List EthernetFrame)
    → AllRequested es xs
    → AllRequested es (xs ++ ys)
AllRequested-append [] xs ys h = tt
AllRequested-append (e ∷ es) xs ys h =
    (Requested-append e.ip xs ys h.0, AllRequested-append es xs ys h.1)

pub AllRequested-snoc :
    (es : List PendingIp) (e : PendingIp) (fs : List EthernetFrame)
    → AllRequested es fs
    → Requested e.ip fs
    → AllRequested (es ++ e ∷ []) fs
AllRequested-snoc [] e fs h r = (r, tt)
AllRequested-snoc (x ∷ es) e fs h r = (h.0, AllRequested-snoc es e fs h.1 r)

pub AllRequested-prune :
    (ip : ℕ) (es : List PendingIp) (fs : List EthernetFrame)
    → AllRequested es fs
    → AllRequested (prune_pending ip es) fs
AllRequested-prune ip [] fs h = tt
AllRequested-prune ip (e ∷ es) fs h = elim (Bool-cases (e.ip == ip)) [
  | inl k ↦ rw k (AllRequested-prune ip es fs h.1)
  | inr k ↦ rw k (h.0, AllRequested-prune ip es fs h.1)
]

any_pending-Requested :
    (ip : ℕ) (es : List PendingIp) (fs : List EthernetFrame)
    → any_pending ip es ≡ true
    → AllRequested es fs
    → Requested ip fs
any_pending-Requested ip [] fs k h = absurd (ground (arith, k))
any_pending-Requested ip (e ∷ es) fs k h = elim (Bool-cases (e.ip == ip)) [
  | inl same ↦ subst (λ i. Requested i fs) (ground (arith, same)) h.0
  | inr other ↦ any_pending-Requested ip es fs (ground (arith, k, other)) h.1
]

pub Covered-AreAsked :
    (ds : List PendingDatagram) (es : List PendingIp) (fs : List EthernetFrame)
    → Covered ds es
    → AllRequested es fs
    → AreAsked ds es fs
Covered-AreAsked [] es fs c h = tt
Covered-AreAsked (d ∷ ds) es fs c h =
    (c.0, any_pending-Requested d.ip es fs c.0 h, Covered-AreAsked ds es fs c.1 h)
