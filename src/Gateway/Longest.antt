-- ===== src/Gateway/Longest.antt =====
-- The route table is searched by longest prefix.
use dsa_platform.Prelude.{
  ℕ, ◌≤◌, ◌≡◌, inl, inr, true, false, Option, none, some, List, [], ◌∷◌, arith, length, Bool-cases,
  All,
}
use dsa_platform.Gateway.Routing.{Route, routes, matches, better, match_from, match_route}

-- Of the routes in the list, none that matches is longer than the best.
abbrev pub IsBest : List ℕ → Option Route → Route → Type 0
IsBest path none r = matches path r ≡ false
IsBest path (some best) r = matches path r ≡ true → length r.prefix ≤ length best.prefix

-- What is known of the best route so far: it matches the path.
abbrev pub Fits : List ℕ → Option Route → Type 0
Fits path none = Unit
Fits path (some best) = matches path best ≡ true

IsBest-better :
    (path : List ℕ) (r s : Route) (best : Option Route)
    → IsBest path best s
    → IsBest path (better path r best) s
unfolding better
IsBest-better path r s none h = elim (Bool-cases (matches path r)) [
  | inl yes_it ↦ rw yes_it (λ m. absurd (ground arith))
  | inr other ↦ rw other h
]
IsBest-better path r s (some best) h = ground arith

better-IsBest :
    (path : List ℕ) (r : Route) (best : Option Route) → IsBest path (better path r best) r
unfolding better
better-IsBest path r none = ground arith
better-IsBest path r (some best) = ground arith

Fits-better :
    (path : List ℕ) (r : Route) (best : Option Route)
    → Fits path best
    → Fits path (better path r best)
unfolding better
Fits-better path r none h = ground arith
Fits-better path r (some best) h = ground arith

IsBest-match_from :
    (path : List ℕ) (s : Route) (rs : List Route) (best : Option Route)
    → IsBest path best s
    → IsBest path (match_from path rs best) s
unfolding match_from
IsBest-match_from path s [] best h = h
IsBest-match_from path s (r ∷ rs) best h =
    IsBest-match_from path s rs (better path r best) (IsBest-better path r s best h)

match_from-IsBest :
    (path : List ℕ) (rs : List Route) (best : Option Route)
    → All (IsBest path (match_from path rs best)) rs
unfolding match_from
match_from-IsBest path [] best = tt
match_from-IsBest path (r ∷ rs) best = (
  IsBest-match_from path r rs (better path r best) (better-IsBest path r best),
  match_from-IsBest path rs (better path r best),
)

Fits-match_from :
    (path : List ℕ) (rs : List Route) (best : Option Route)
    → Fits path best
    → Fits path (match_from path rs best)
unfolding match_from
Fits-match_from path [] best h = h
Fits-match_from path (r ∷ rs) best h =
    Fits-match_from path rs (better path r best) (Fits-better path r best h)

-- For every path, `match_route` finds no route only if no route of the table matches the path, and
-- a route that it finds matches the path and is at least as long as every route that matches it.
pub match_route_longest :
    (path : List ℕ) → Fits path (match_route path) × All (IsBest path (match_route path)) routes
unfolding match_route
match_route_longest path = (Fits-match_from path routes none tt, match_from-IsBest path routes none)
