-- ===== src/Router/Drain.antt =====
-- The inner loop of `Router::route` in libsponge/router.cc forwards what the queue holds.
use csed353_sponge.Common.{
  length, get_or, set, drop, ℕ, zero, suc, ◌≡◌, refl, sym, ap, ap₂, ◌∙◌, subst, Option, none, some,
  List, [], ◌∷◌,
}
use csed353_sponge.Ipv4.{Ipv4Datagram}
use csed353_sponge.Router.{Router, route_one_datagram, queue, pop_queue, drain}
use csed353_sponge.Router.Queues.{
  forward_all, queues, idle, Routed, route_one_datagram-Routed, queue-eq, pop_queue-idle,
  pop_queue-queues,
}

set-set :
    (qs : List (List Ipv4Datagram)) (i : ℕ) (p q : List Ipv4Datagram)
    → set (set qs i p) i q ≡ set qs i q
set-set [] i p q = refl
set-set (x ∷ qs) zero p q = refl
set-set (x ∷ qs) (suc i) p q = ap (λ s. x ∷ s) (set-set qs i p q)

set-get_or :
    (qs : List (List Ipv4Datagram)) (i : ℕ) (q : List Ipv4Datagram)
    → get_or qs i [] ≡ q
    → set qs i q ≡ qs
set-get_or [] i q h = refl
set-get_or (x ∷ qs) zero q h = ap (λ s. s ∷ qs) (sym h)
set-get_or (x ∷ qs) (suc i) q h = ap (λ s. x ∷ s) (set-get_or qs i q h)

-- A queue that is not empty is that of an interface.
get_or-set_queue :
    (qs : List (List Ipv4Datagram)) (i : ℕ) (d : Ipv4Datagram) (ds q : List Ipv4Datagram)
    → get_or qs i [] ≡ d ∷ ds
    → get_or (set qs i q) i [] ≡ q
get_or-set_queue [] i d ds q h = absurd (cc)
get_or-set_queue (x ∷ qs) zero d ds q h = refl
get_or-set_queue (x ∷ qs) (suc i) d ds q h = get_or-set_queue qs i d ds q h

pub drain-Routed :
    (ds : List Ipv4Datagram) (i : ℕ) (r : Router)
    → queue i r ≡ ds
    → Routed (drain (length ds) i r) (forward_all ds (idle r)) (set (queues r) i [])
unfolding drain
drain-Routed [] i r h = (refl, sym (set-get_or (queues r) i [] (sym (queue-eq i r) ∙ h)))
drain-Routed (d ∷ ds) i r h =
    rw (h, drain)
      (rest (λ t e. drain-Routed ds i t e) (route_one_datagram d r) (route_one_datagram d (idle r))
        (route_one_datagram-Routed d r))
  where
    held : get_or (queues r) i [] ≡ d ∷ ds
    held = sym (queue-eq i r) ∙ h

    rest :
        ((t : Router)
          → queue i t ≡ ds
          → Routed (drain (length ds) i t) (forward_all ds (idle t)) (set (queues t) i []))
        → (o p : Option Router) → Routed o p (queues r)
        → Routed
            (elim o [ none ↦ none | some t ↦ drain (length ds) i (pop_queue i t) ])
            (elim p [ none ↦ none | some t ↦ forward_all ds t ])
            (set (queues r) i [])
    rest ih none none c = tt
    rest ih none (some u) c = absurd c
    rest ih (some t) none c = absurd c
    rest ih (some t) (some u) c =
        let front : queue i t ≡ d ∷ ds = queue-eq i t ∙ ap (λ qs. get_or qs i []) c.1 ∙ held in
        let popped : queues (pop_queue i t) ≡ set (queues r) i ds =
          pop_queue-queues i t ∙ ap₂ (λ qs q. set qs i (drop 1 q)) c.1 front in
        let next : queue i (pop_queue i t) ≡ ds =
          queue-eq i (pop_queue i t)
          ∙ ap (λ qs. get_or qs i []) popped
          ∙ get_or-set_queue (queues r) i d ds ds held in
        let cleared : set (queues (pop_queue i t)) i [] ≡ set (queues r) i [] =
          ap (λ qs. set qs i []) popped ∙ set-set (queues r) i ds [] in
        subst
          (λ u.
            Routed (drain (length ds) i (pop_queue i t)) (forward_all ds u) (set (queues r) i []))
          (pop_queue-idle i t ∙ c.0)
          (subst
            (Routed (drain (length ds) i (pop_queue i t)) (forward_all ds (idle (pop_queue i t))))
            cleared (ih (pop_queue i t) next))
