-- ===== src/Gateway/Planes.antt =====
-- What passes the edge: the plane of the route and of the token.
use dsa_platform.Prelude.{ℕ, Option, none, some, List, ◌≡◌, ◌≢◌, ◌≤◌, ◌⊎◌, ok}
use dsa_platform.Gateway.Routing.{Policy, Route, match_route}
use dsa_platform.Gateway.Auth.{
  Decoder, Payload, Identity, authorise, bearer_token, policy_token_type,
}
use dsa_platform.Gateway.Limits.{Redis, RedisFault, key_at, incremented, rate_limit_window_seconds}
use dsa_platform.Gateway.Edge.{
  Edge, Request, Reply, Response, Call, passthrough, limit_of, client_ip_of,
}

-- A token whose type is the one of the policy's plane stands behind the header.
abbrev pub Bears : Decoder → Policy → Option (List ℕ) → Type 0
Bears decode policy authorization =
    (token : List ℕ) × (payload : Payload) × (bearer_token authorization ≡ some token)
    × (decode token ≡ some payload)
    × (policy_token_type policy ≡ some payload.kind)

-- The caller belongs to the plane of the policy.
abbrev pub Admits : Decoder → Policy → Option (List ℕ) → Type 0
Admits decode policy authorization = (policy ≡ Policy.public) ⊎ Bears decode policy authorization

-- A call goes upstream only over a matched route that is not blocked, for a caller who is admitted,
-- and with a counter within the limit.
abbrev pub Reaches : Edge → ℕ → Request → Redis → Call → Type 0
Reaches e now q redis call =
    (r : Route) × (identity : Identity) × (match_route q.path ≡ some r)
    × (r.upstream ≡ some call.upstream)
    × (r.policy ≢ Policy.blocked)
    × Admits e.decode r.policy q.authorization
    × (authorise e.decode r.policy q.authorization (client_ip_of q) ≡ ok identity)
    × ((incremented e.link.clock (redis (key_at now identity))).count ≤ limit_of e r)

-- What each reply of the gateway says of the request and of the counters after it.
abbrev pub Outcome : Edge → ℕ → Request → Redis → Reply × Redis → Type 0
Outcome e now q redis (Reply.not_found, after) = after ≡ redis
Outcome e now q redis (Reply.unauthorized detail, after) = after ≡ redis
Outcome e now q redis (Reply.server_error, after) =
    (e.link.fault ≢ RedisFault.no_fault)
    ⊎ ((call : Call) × (e.upstream call ≡ none) × Reaches e now q redis call)
Outcome e now q redis (Reply.limited seconds, after) =
    (1 ≤ seconds) × (seconds ≤ rate_limit_window_seconds)
Outcome e now q redis (Reply.proxied call response, after) =
    (answer : Response) × (e.upstream call ≡ some answer)
    × (response ≡ passthrough answer)
    × Reaches e now q redis call
