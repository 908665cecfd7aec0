-- ===== src/Router/Match.antt =====
-- The choice of a route in libsponge/router.cc is the longest match.
use csed353_sponge.Common.{
  Bool-cases, All, All-append, All-map, ℕ, ◌≤◌, ◌<◌, ◌≡◌, refl, sym, ap, ◌∙◌, subst, inl, inr, true,
  false, ◌&&◌, Option, none, some, List, [], ◌∷◌, ◌++◌, append-nil, append_assoc, arith,
}
use csed353_sponge.Router.{RoutingTableEntry, matches, is_longer, find_route}

-- Of the entries that match `dst`, `e` is the first with the greatest prefix length.
pub record IsLongest (dst : ℕ) (table : List RoutingTableEntry) (e : RoutingTableEntry)
    : Type 0 where
  pub before : List RoutingTableEntry
  pub behind : List RoutingTableEntry
  pub split : table ≡ before ++ e ∷ behind
  pub matched : matches dst e ≡ true
  pub earlier : All (λ f. matches dst f ≡ true → f.prefix_length < e.prefix_length) before
  pub later : All (λ f. matches dst f ≡ true → f.prefix_length ≤ e.prefix_length) behind

abbrev pub IsChoice : ℕ → List RoutingTableEntry → Option RoutingTableEntry → Type 0
IsChoice dst table none = All (λ f. matches dst f ≡ false) table
IsChoice dst table (some e) = IsLongest dst table e

-- One entry more.
IsChoice-keep :
    (dst : ℕ) (table : List RoutingTableEntry) (e : RoutingTableEntry)
    (target : Option RoutingTableEntry)
    → (matches dst e && is_longer e target) ≡ false
    → IsChoice dst table target
    → IsChoice dst (table ++ e ∷ []) target
IsChoice-keep dst table e none h c =
    All-append (λ f. matches dst f ≡ false) table (e ∷ []) c (ground (arith, h), tt)
IsChoice-keep dst table e (some t) h c = record {
  before = c.before;
  behind = c.behind ++ e ∷ [];
  split = ap (λ s. s ++ e ∷ []) c.split ∙ append_assoc c.before (t ∷ c.behind) (e ∷ []);
  matched = c.matched;
  earlier = c.earlier;
  later =
      All-append (λ f. matches dst f ≡ true → f.prefix_length ≤ t.prefix_length) c.behind (e ∷ [])
        c.later (λ m. ground (arith, h, m), tt);
}

IsChoice-take :
    (dst : ℕ) (table : List RoutingTableEntry) (e : RoutingTableEntry)
    (target : Option RoutingTableEntry)
    → (matches dst e && is_longer e target) ≡ true
    → IsChoice dst table target
    → IsLongest dst (table ++ e ∷ []) e
IsChoice-take dst table e none h c = record {
  before = table;
  behind = [];
  split = refl;
  matched = ground (arith, h);
  earlier =
      All-map (λ f. matches dst f ≡ false)
        (λ f. matches dst f ≡ true → f.prefix_length < e.prefix_length) table
        (λ f n m. absurd (ground (arith, n, m))) c;
  later = tt;
}
IsChoice-take dst table e (some t) h c =
    let P : RoutingTableEntry → Type 0 =
      λ f. matches dst f ≡ true → f.prefix_length < e.prefix_length in
    let longer : t.prefix_length < e.prefix_length = ground (arith, h) in
    record {
      before = table;
      behind = [];
      split = refl;
      matched = ground (arith, h);
      earlier = subst (All P) (sym c.split) (
          All-append P c.before (t ∷ c.behind)
            (All-map (λ f. matches dst f ≡ true → f.prefix_length < t.prefix_length) P c.before
              (λ f b m. omega (arith, b m, longer)) c.earlier)
            (
              λ m. longer,
              All-map (λ f. matches dst f ≡ true → f.prefix_length ≤ t.prefix_length) P c.behind
                  (λ f b m. omega (arith, b m, longer)) c.later,
            ));
      later = tt;
    }

find_route-IsChoice :
    (dst : ℕ) (seen rest : List RoutingTableEntry) (target : Option RoutingTableEntry)
    → IsChoice dst seen target
    → IsChoice dst (seen ++ rest) (find_route dst rest target)
unfolding find_route
find_route-IsChoice dst seen [] target c =
    subst (λ s. IsChoice dst s target) (sym (append-nil seen)) c
find_route-IsChoice dst seen (e ∷ es) target c =
    subst (λ s. IsChoice dst s (find_route dst (e ∷ es) target)) (append_assoc seen (e ∷ []) es)
      (elim (Bool-cases (matches dst e && is_longer e target)) [
        | inl h ↦ rw h (
            find_route-IsChoice dst (seen ++ e ∷ []) es (some e)
              (IsChoice-take dst seen e target h c))
        | inr h ↦ rw h (
            find_route-IsChoice dst (seen ++ e ∷ []) es target
              (IsChoice-keep dst seen e target h c))
      ])

-- The loop over the routing table ends with no route when no entry matches the destination, and
-- otherwise with the first of the matching entries whose prefix length is the greatest.
pub find_route_lem :
    (dst : ℕ) (table : List RoutingTableEntry) → IsChoice dst table (find_route dst table none)
find_route_lem dst table = find_route-IsChoice dst [] table none tt
