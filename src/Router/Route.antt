-- ===== src/Router/Route.antt =====
-- `Router::route` of libsponge/router.cc forwards what its queues hold, and empties them.
use csed353_sponge.Common.{
  length, get_or, set, drop, drop_all, length-set, ℕ, zero, suc, ◌+◌, ◌≤◌, ◌≡◌, refl, sym, ap, ap₂,
  ◌∙◌, subst, Option, none, some, List, [], ◌∷◌, ◌++◌, arith,
}
use csed353_sponge.Ipv4.{Ipv4Datagram}
use csed353_sponge.Router.{
  AsyncNetworkInterface, Router, route_one_datagram, queue, drain, route_from, route,
}
use csed353_sponge.Router.Queues.{
  forward_all, queues_of, queues, joined, emptied, idle, Routed, queue-eq,
}
use csed353_sponge.Router.Drain.{drain-Routed}

-- The queues from an index on are emptied.
abbrev blank_from : ℕ → List (List Ipv4Datagram) → List (List Ipv4Datagram)
blank_from i [] = []
blank_from zero (q ∷ qs) = [] ∷ blank_from zero qs
blank_from (suc i) (q ∷ qs) = q ∷ blank_from i qs

blank_from-set :
    (qs : List (List Ipv4Datagram)) (i : ℕ) → blank_from (suc i) (set qs i []) ≡ blank_from i qs
blank_from-set [] i = refl
blank_from-set (q ∷ qs) zero = refl
blank_from-set (q ∷ qs) (suc i) = ap (λ s. q ∷ s) (blank_from-set qs i)

blank_from_end : (qs : List (List Ipv4Datagram)) (i : ℕ) → length qs ≤ i → blank_from i qs ≡ qs
blank_from_end [] i h = refl
blank_from_end (q ∷ qs) zero h = absurd (omega (arith, h))
blank_from_end (q ∷ qs) (suc i) h = ap (λ s. q ∷ s) (blank_from_end qs i (omega (arith, h)))

drop-set :
    (qs : List (List Ipv4Datagram)) (i : ℕ) (q : List Ipv4Datagram)
    → drop (suc i) (set qs i q) ≡ drop (suc i) qs
drop-set [] i q = refl
drop-set (x ∷ qs) zero q = refl
drop-set (x ∷ qs) (suc i) q = drop-set qs i q

joined-drop :
    (qs : List (List Ipv4Datagram)) (i : ℕ)
    → joined (drop i qs) ≡ get_or qs i [] ++ joined (drop (suc i) qs)
joined-drop [] zero = refl
joined-drop [] (suc i) = refl
joined-drop (q ∷ qs) zero = refl
joined-drop (q ∷ qs) (suc i) = joined-drop qs i

forward_all-append :
    (xs ys : List Ipv4Datagram) (r : Router)
    → forward_all (xs ++ ys) r
      ≡ (elim (forward_all xs r) [ none ↦ none | some t ↦ forward_all ys t ])
forward_all-append [] ys r = refl
forward_all-append (x ∷ xs) ys r = go (λ t. forward_all-append xs ys t) (route_one_datagram x r)
  where
    go :
        ((t : Router)
          → forward_all (xs ++ ys) t
            ≡ (elim (forward_all xs t) [ none ↦ none | some u ↦ forward_all ys u ]))
        → (o : Option Router)
        → ◌≡◌ {A = Option Router}
            (elim o [ none ↦ none | some t ↦ forward_all (xs ++ ys) t ])
            (elim (elim o as (λ _. Option Router) [ none ↦ none | some t ↦ forward_all xs t ]) [
              | none ↦ none
              | some t ↦ forward_all ys t
            ])
    go ih none = refl
    go ih (some t) = ih t

route_from-Routed :
    (left i : ℕ) (r : Router)
    → i + left ≡ length (queues r)
    → Routed
        (route_from left i r)
        (forward_all (joined (drop i (queues r))) (idle r))
        (blank_from i (queues r))
unfolding route_from
route_from-Routed zero i r h =
    subst (λ qs. Routed (some r) (forward_all (joined qs) (idle r)) (blank_from i (queues r)))
      (sym (drop_all i (queues r) (omega (arith, h))))
      (refl, sym (blank_from_end (queues r) i (omega (arith, h))))
route_from-Routed (suc left) i r h =
    subst
      (λ o.
        Routed
          (elim (drain (length (queue i r)) i r) [
            | none ↦ none
            | some t ↦ route_from left (suc i) t
          ])
          o (blank_from i (queues r)))
      (sym split)
      (rest (λ t e. route_from-Routed left (suc i) t e) (drain (length (queue i r)) i r)
        (forward_all (queue i r) (idle r)) (drain-Routed (queue i r) i r refl))
  where
    behind : List Ipv4Datagram
    behind = joined (drop (suc i) (queues r))

    split :
        forward_all (joined (drop i (queues r))) (idle r)
        ≡ (elim (forward_all (queue i r) (idle r)) [ none ↦ none | some t ↦ forward_all behind t ])
    split =
        ap (λ ds. forward_all ds (idle r))
          (joined-drop (queues r) i ∙ ap (λ q. q ++ behind) (sym (queue-eq i r)))
        ∙ forward_all-append (queue i r) behind (idle r)

    rest :
        ((t : Router)
          → suc i + left ≡ length (queues t)
          → Routed
              (route_from left (suc i) t)
              (forward_all (joined (drop (suc i) (queues t))) (idle t))
              (blank_from (suc i) (queues t)))
        → (o p : Option Router) → Routed o p (set (queues r) i [])
        → Routed
            (elim o [ none ↦ none | some t ↦ route_from left (suc i) t ])
            (elim p [ none ↦ none | some t ↦ forward_all behind t ])
            (blank_from i (queues r))
    rest ih none none c = tt
    rest ih none (some u) c = absurd c
    rest ih (some t) none c = absurd c
    rest ih (some t) (some u) c =
        let size : suc i + left ≡ length (queues t) =
          omega (arith, h, ap length c.1, length-set (queues r) i []) in
        let left_over : joined (drop (suc i) (queues t)) ≡ behind =
          ap joined (ap (drop (suc i)) c.1 ∙ drop-set (queues r) i []) in
        let blank : blank_from (suc i) (queues t) ≡ blank_from i (queues r) =
          ap (blank_from (suc i)) c.1 ∙ blank_from-set (queues r) i in
        subst (Routed (route_from left (suc i) t) (forward_all behind u)) blank (
          subst (λ o. Routed (route_from left (suc i) t) o (blank_from (suc i) (queues t)))
            (ap₂ forward_all left_over c.0) (ih t size))

emptied-blank :
    (ifs : List AsyncNetworkInterface) (qs : List (List Ipv4Datagram))
    → queues_of ifs ≡ blank_from 0 qs
    → emptied ifs ≡ ifs
emptied-blank [] qs h = refl
emptied-blank (a ∷ ifs) [] h = absurd (cc)
emptied-blank (a ∷ ifs) (q ∷ qs) h =
    ap₂ (λ d s. record a { datagrams_out = d } ∷ s) (sym (ap (λ l. get_or l 0 []) h))
      (emptied-blank ifs qs (ap (drop 1) h))

Routed-≡ :
    (o p : Option Router) (qs : List (List Ipv4Datagram)) → Routed o p (blank_from 0 qs) → o ≡ p
Routed-≡ none none qs c = refl
Routed-≡ none (some u) qs c = absurd c
Routed-≡ (some t) none qs c = absurd c
Routed-≡ (some t) (some u) qs c =
    ap some (ap (λ s. record t { interfaces = s }) (sym (emptied-blank t.interfaces qs c.1)) ∙ c.0)

length-queues_of : (ifs : List AsyncNetworkInterface) → length (queues_of ifs) ≡ length ifs
length-queues_of [] = refl
length-queues_of (a ∷ ifs) = ap suc (length-queues_of ifs)

-- Routing is the same as emptying every queue and then forwarding the datagrams that were in them
-- one by one, those of an earlier interface first and each queue in its order, and throws when that
-- throws: the loops end, no datagram is left, and the order of the calls is that of the queues.
pub route_lem : (r : Router) → route r ≡ forward_all (joined (queues r)) (idle r)
unfolding route
route_lem r =
    Routed-≡ (route r) (forward_all (joined (queues r)) (idle r)) (queues r)
      (route_from-Routed (length r.interfaces) 0 r (omega (arith, length-queues_of r.interfaces)))
