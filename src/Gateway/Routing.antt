-- ===== src/Gateway/Routing.antt =====
-- services/gateway/app/routing.py: the route table. A path is the list of its code points.
use dsa_platform.Prelude.{
  ℕ, String, Bool, true, false, Option, none, some, List, [], ◌∷◌, ◌++◌, ◌==◌, ◌&&◌, ◌||◌, ltb,
  codes, length, list_eq, if◌then◌else◌,
}

pub data Upstream : Type 0 where
  exam question ai : Upstream

pub data Policy : Type 0 where
  public examiner candidate blocked : Policy

pub record Route : Type 0 where
  pub prefix : List ℕ
  pub upstream : Option Upstream
  pub policy : Policy
  pub strict_rate_limit : Bool

abbrev route : String → Upstream → Policy → Route
route prefix upstream policy = record {
  prefix = codes prefix;
  upstream = some upstream;
  policy = policy;
  strict_rate_limit = false;
}

abbrev strict : Route → Route
strict r = record r { strict_rate_limit = true }

-- `ROUTES`
abbrev pub routes : List Route
routes =
    record {
      prefix = codes "/internal";
      upstream = none;
      policy = blocked;
      strict_rate_limit = false;
    }
    ∷ strict (route "/auth" exam public)
    ∷ strict (route "/candidate/auth" exam public)
    ∷ route "/candidate" exam candidate
    ∷ route "/examiners" exam examiner
    ∷ route "/blueprints" exam examiner
    ∷ route "/exams" exam examiner
    ∷ route "/submissions" exam examiner
    ∷ route "/sessions" exam examiner
    ∷ route "/topics" question examiner
    ∷ route "/questions" question examiner
    ∷ route "/profiles" ai examiner
    ∷ route "/questions/generate" ai examiner
    ∷ route "/test-cases/generate" ai examiner
    ∷ []

-- `text.startswith(start)`
abbrev pub starts_with : List ℕ → List ℕ → Bool
starts_with text [] = true
starts_with [] (c ∷ start) = false
starts_with (d ∷ text) (c ∷ start) = c == d && starts_with text start

abbrev pub slash : ℕ
slash = b'/'

-- the test `matches` in the loop
unfoldable pub matches : List ℕ → Route → Bool
matches path r = list_eq path r.prefix || starts_with path (r.prefix ++ slash ∷ [])

-- one round: `best` gives way only to a longer prefix
unfoldable pub better : List ℕ → Route → Option Route → Option Route
better path r none = if matches path r then some r else none
better path r (some best) =
    if matches path r && ltb (length best.prefix) (length r.prefix) then some r else some best

unfoldable pub match_from : List ℕ → List Route → Option Route → Option Route
match_from path [] best = best
match_from path (r ∷ rs) best = match_from path rs (better path r best)

unfoldable pub match_route : List ℕ → Option Route
unfolding match_from better matches
match_route path = match_from path routes none
