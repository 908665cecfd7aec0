-- ===== src/Router/Queues.antt =====
-- The queues of the interfaces of libsponge/router.cc: forwarding a datagram does not look at them.
use csed353_sponge.Common.{
  leb, Bool-cases, Option-cases, get_or, get_elem?, set, drop, ℕ, zero, suc, ◌≡◌, refl, sym, ap,
  ◌∙◌, subst, inl, inr, Option, none, some, List, [], ◌∷◌, ◌++◌,
}
use mathlib.Core.Option.{some_inj}
use csed353_sponge.Ipv4.{Ipv4Datagram}
use csed353_sponge.NetworkInterface.{NetworkInterface, send_datagram}
use csed353_sponge.Router.{
  AsyncNetworkInterface, RoutingTableEntry, Router, find_route, send_on, forwarded,
  route_one_datagram, queue, pop_queue,
}

-- Each datagram is forwarded in turn.
abbrev pub forward_all : List Ipv4Datagram → Router → Option Router
forward_all [] r = some r
forward_all (d ∷ ds) r = elim (route_one_datagram d r) [ none ↦ none | some t ↦ forward_all ds t ]

abbrev pub queues_of : List AsyncNetworkInterface → List (List Ipv4Datagram)
queues_of [] = []
queues_of (a ∷ ifs) = a.datagrams_out ∷ queues_of ifs

abbrev pub queues : Router → List (List Ipv4Datagram)
queues r = queues_of r.interfaces

abbrev pub joined : List (List Ipv4Datagram) → List Ipv4Datagram
joined [] = []
joined (q ∷ qs) = q ++ joined qs

abbrev pub emptied : List AsyncNetworkInterface → List AsyncNetworkInterface
emptied [] = []
emptied (a ∷ ifs) = record a { datagrams_out = [] } ∷ emptied ifs

-- The router without its queues.
abbrev pub idle : Router → Router
idle r = record r { interfaces = emptied r.interfaces }

-- Both calls throw, or both succeed, with the same router but for the queues, which are `qs`.
abbrev pub Routed : Option Router → Option Router → List (List Ipv4Datagram) → Type 0
Routed none none qs = Unit {0}
Routed none (some u) qs = ⊥
Routed (some t) none qs = ⊥
Routed (some t) (some u) qs = (idle t ≡ u) × (queues t ≡ qs)

emptied-set :
    (ifs : List AsyncNetworkInterface) (i : ℕ) (x : AsyncNetworkInterface)
    → emptied (set ifs i x) ≡ set (emptied ifs) i (record x { datagrams_out = [] })
emptied-set [] i x = refl
emptied-set (a ∷ ifs) zero x = refl
emptied-set (a ∷ ifs) (suc i) x =
    ap (λ s. record a { datagrams_out = [] } ∷ s) (emptied-set ifs i x)

queues_of-set :
    (ifs : List AsyncNetworkInterface) (i : ℕ) (x : AsyncNetworkInterface)
    → queues_of (set ifs i x) ≡ set (queues_of ifs) i x.datagrams_out
queues_of-set [] i x = refl
queues_of-set (a ∷ ifs) zero x = refl
queues_of-set (a ∷ ifs) (suc i) x = ap (λ s. a.datagrams_out ∷ s) (queues_of-set ifs i x)

-- What is found at an index, with the queue that it has.
record At (ifs : List AsyncNetworkInterface) (i : ℕ) (a : AsyncNetworkInterface) : Type 0 where
  bare : get_elem? (emptied ifs) i ≡ some (record a { datagrams_out = [] })
  holds : get_or (queues_of ifs) i [] ≡ a.datagrams_out
  same_queue : set (queues_of ifs) i a.datagrams_out ≡ queues_of ifs
  same_bare : set (emptied ifs) i (record a { datagrams_out = [] }) ≡ emptied ifs

record Nowhere (ifs : List AsyncNetworkInterface) (i : ℕ) : Type 0 where
  bare : get_elem? (emptied ifs) i ≡ none
  holds : get_or (queues_of ifs) i [] ≡ []
  unset : (q : List Ipv4Datagram) → set (queues_of ifs) i q ≡ queues_of ifs

get_elem?-At :
    (ifs : List AsyncNetworkInterface) (i : ℕ) (a : AsyncNetworkInterface)
    → get_elem? ifs i ≡ some a
    → At ifs i a
get_elem?-At [] i a h = absurd (cc)
get_elem?-At (b ∷ ifs) zero a h =
    subst (At (b ∷ ifs) zero) (some_inj.0 h)
      (record { bare = refl; holds = refl; same_queue = refl; same_bare = refl })
get_elem?-At (b ∷ ifs) (suc i) a h =
    let r = get_elem?-At ifs i a h in
    record {
      bare = r.bare;
      holds = r.holds;
      same_queue = ap (λ s. b.datagrams_out ∷ s) r.same_queue;
      same_bare = ap (λ s. record b { datagrams_out = [] } ∷ s) r.same_bare;
    }

get_elem?-Nowhere :
    (ifs : List AsyncNetworkInterface) (i : ℕ) → get_elem? ifs i ≡ none → Nowhere ifs i
get_elem?-Nowhere [] i h = record { bare = refl; holds = refl; unset = λ q. refl }
get_elem?-Nowhere (b ∷ ifs) zero h = absurd (cc)
get_elem?-Nowhere (b ∷ ifs) (suc i) h =
    let r = get_elem?-Nowhere ifs i h in
    record {
      bare = r.bare;
      holds = r.holds;
      unset = λ q. ap (λ s. b.datagrams_out ∷ s) (r.unset q);
    }

send_on-Routed :
    (i : ℕ) (d : Ipv4Datagram) (hop : ℕ) (r : Router)
    → Routed (send_on i d hop r) (send_on i d hop (idle r)) (queues r)
unfolding send_on
send_on-Routed i d hop r = elim (Option-cases (get_elem? r.interfaces i)) [
  | inl h ↦ rw (h, (get_elem?-Nowhere r.interfaces i h).bare, send_on) tt
  | inr (a, h) ↦
      let r_at = get_elem?-At r.interfaces i a h in
      rw (h, r_at.bare, send_on) (sent a r_at (send_datagram d hop a.base))
]
  where
    sent :
        (a : AsyncNetworkInterface)
        → At r.interfaces i a
        → (o : Option NetworkInterface)
        → Routed
            (elim o [
              | none ↦ none
              | some base ↦
                  some (record r { interfaces = set r.interfaces i (record a { base = base }) })
            ])
            (elim o [
              | none ↦ none
              | some base ↦ some (record (idle r) {
                interfaces =
                    set (emptied r.interfaces) i (record { base = base; datagrams_out = [] });
              })
            ])
            (queues r)
    sent a h none = tt
    sent a h (some base) = (
      ap (λ s. record r { interfaces = s }) (emptied-set r.interfaces i (record a { base = base })),
      queues_of-set r.interfaces i (record a { base = base }) ∙ h.same_queue,
    )

pub route_one_datagram-Routed :
    (d : Ipv4Datagram) (r : Router)
    → Routed (route_one_datagram d r) (route_one_datagram d (idle r)) (queues r)
unfolding route_one_datagram
route_one_datagram-Routed d r = elim (Bool-cases (leb d.header.ttl 1)) [
  | inl h ↦ rw (h, route_one_datagram) (refl, refl)
  | inr h ↦ rw (h, route_one_datagram) (chosen (find_route d.header.dst r.routing_table none))
]
  where
    chosen :
        (o : Option RoutingTableEntry)
        → Routed
            (elim o [
              | none ↦ some r
              | some target ↦
                  send_on target.interface_num
                    (forwarded d)
                    (elim target.next_hop [ some next_hop ↦ next_hop | none ↦ d.header.dst ])
                    r
            ])
            (elim o [
              | none ↦ some (idle r)
              | some target ↦
                  send_on target.interface_num
                    (forwarded d)
                    (elim target.next_hop [ some next_hop ↦ next_hop | none ↦ d.header.dst ])
                    (idle r)
            ])
            (queues r)
    chosen none = (refl, refl)
    chosen (some target) = send_on-Routed target.interface_num (forwarded d) _ r

pub queue-eq : (i : ℕ) (r : Router) → queue i r ≡ get_or (queues r) i []
queue-eq i r = elim (Option-cases (get_elem? r.interfaces i)) [
  | inl h ↦ rw (h, queue) (sym (get_elem?-Nowhere r.interfaces i h).holds)
  | inr (a, h) ↦ rw (h, queue) (sym (get_elem?-At r.interfaces i a h).holds)
]

pub pop_queue-idle : (i : ℕ) (r : Router) → idle (pop_queue i r) ≡ idle r
unfolding pop_queue
pop_queue-idle i r = elim (Option-cases (get_elem? r.interfaces i)) [
  | inl h ↦ rw (h, pop_queue) refl
  | inr (a, h) ↦
      rw (h, pop_queue)
        (ap (λ s. record r { interfaces = s })
          (emptied-set r.interfaces i (record a { datagrams_out = drop 1 a.datagrams_out })
            ∙ (get_elem?-At r.interfaces i a h).same_bare))
]

pub pop_queue-queues :
    (i : ℕ) (r : Router) → queues (pop_queue i r) ≡ set (queues r) i (drop 1 (queue i r))
unfolding pop_queue
pop_queue-queues i r = elim (Option-cases (get_elem? r.interfaces i)) [
  | inl h ↦ rw (h, pop_queue, queue) (sym ((get_elem?-Nowhere r.interfaces i h).unset []))
  | inr (a, h) ↦
      rw (h, pop_queue, queue)
        (queues_of-set r.interfaces i (record a { datagrams_out = drop 1 a.datagrams_out }))
]
