-- ===== src/Gateway/Edge.antt =====
-- `gateway` of services/gateway/app/main.py with `HttpForwarder` of app/proxy.py, and the handshake
-- of `gateway_ws` of app/ws_proxy.py. The upstream's answer is a parameter, as is its absence: the http client raises.
use dsa_platform.Prelude.{
  ℕ, String, Bool, Option, none, some, List, [], ◌∷◌, ◌++◌, not, codes, list_eq, any, if◌then◌else◌,
  Result, ok, err,
}
use dsa_platform.Prelude.Table.{select}
use dsa_platform.Gateway.Routing.{Upstream, Policy, Route, match_route}
use dsa_platform.Gateway.Auth.{Decoder, AuthError, Identity, authorise, lower}
use dsa_platform.Gateway.Limits.{Redis, RedisError, Link, check}

abbrev pub Headers : Type 0
Headers = List (List ℕ × List ℕ)

pub record Request : Type 0 where
  pub method : List ℕ
  pub path : List ℕ
  pub query : List ℕ
  pub authorization : Option (List ℕ)
  pub client_ip : Option String
  pub headers : Headers
  pub body : List ℕ

pub record Response : Type 0 where
  pub status_code : ℕ
  pub headers : Headers
  pub content : List ℕ

-- What the http client sends.
pub record Call : Type 0 where
  pub upstream : Upstream
  pub method : List ℕ
  pub path : List ℕ
  pub query : List ℕ
  pub headers : Headers
  pub body : List ℕ

pub data Reply : Type 0 where
  not_found : Reply
  unauthorized : String → Reply
  limited : ℕ → Reply
  proxied : Call → Response → Reply
  -- an exception that the handler does not catch
  server_error : Reply

-- The settings and the other programs the gateway uses.
pub record Edge : Type 0 where
  pub decode : Decoder
  pub upstream : Call → Option Response
  pub link : Link
  pub rate_limit_auth : ℕ
  pub rate_limit_default : ℕ

abbrev pub hop_by_hop : List (List ℕ)
hop_by_hop =
    codes "connection"
    ∷ codes "keep-alive"
    ∷ codes "proxy-authenticate"
    ∷ codes "proxy-authorization"
    ∷ codes "te"
    ∷ codes "trailers"
    ∷ codes "transfer-encoding"
    ∷ codes "upgrade"
    ∷ codes "host"
    ∷ codes "content-length"
    ∷ []

abbrev pub not_passed : List (List ℕ)
not_passed = codes "content-length" ∷ codes "transfer-encoding" ∷ codes "content-encoding" ∷ []

-- `key.lower() in names`
abbrev pub named : List (List ℕ) → List ℕ × List ℕ → Bool
named names header = any (list_eq (lower (header.0))) names

-- `headers[name] = value`
unfoldable pub set_header : List ℕ → List ℕ → Headers → Headers
set_header name value [] = (name, value) ∷ []
set_header name value (h ∷ hs) =
    let rest = set_header name value hs in
    if list_eq (h.0) name then (name, value) ∷ hs else h ∷ rest

abbrev pub with_request_id : List ℕ → Headers → Headers
with_request_id [] hs = hs
with_request_id (c ∷ id) hs = set_header (codes "x-request-id") (c ∷ id) hs

-- `HttpForwarder.forward`
unfoldable pub forward : Upstream → List ℕ → Request → Call
unfolding set_header
forward upstream request_id q = record {
  upstream = upstream;
  method = q.method;
  path = q.path;
  query = q.query;
  headers = select (λ h. not (named hop_by_hop h)) (with_request_id request_id q.headers);
  body = q.body;
}

abbrev pub passthrough : Response → Response
passthrough r = record r { headers = select (λ h. not (named not_passed h)) r.headers }

abbrev pub address : Option String → String
address none = "unknown"
address (some host) = host

-- `_client_ip`
abbrev pub client_ip_of : Request → String
client_ip_of q = address q.client_ip

-- The upstream of a route that is open: not blocked and with an upstream.
abbrev pub opened_by : Policy → Option Upstream → Option Upstream
opened_by Policy.blocked upstream = none
opened_by Policy.public upstream = upstream
opened_by Policy.examiner upstream = upstream
opened_by Policy.candidate upstream = upstream

abbrev pub opened : Route → Option Upstream
opened r = opened_by r.policy r.upstream

abbrev pub limit_of : Edge → Route → ℕ
limit_of e r = if r.strict_rate_limit then e.rate_limit_auth else e.rate_limit_default

abbrev pub answered : Call → Option Response → Reply
answered call none = Reply.server_error
answered call (some response) = Reply.proxied call (passthrough response)

unfoldable pub pass_on : Edge → Upstream → List ℕ → Request → Reply
pass_on e u request_id q = let call = forward u request_id q in answered call (e.upstream call)

abbrev pub limit_then :
    Edge → Upstream → List ℕ → Request → Result RedisError (Option ℕ) × Redis → Reply × Redis
limit_then e u request_id q (ok none, redis) = (pass_on e u request_id q, redis)
limit_then e u request_id q (ok (some seconds), redis) = (Reply.limited seconds, redis)
limit_then e u request_id q (err RedisError.connection_error, redis) = (Reply.server_error, redis)

abbrev pub auth_then :
    Edge
    → Route
    → Upstream
    → ℕ
    → ℕ
    → List ℕ
    → Request
    → Redis
    → Result AuthError Identity
    → Reply × Redis
auth_then e r u now later request_id q redis (err (AuthError.auth_failed detail)) =
    (Reply.unauthorized detail, redis)
auth_then e r u now later request_id q redis (err AuthError.key_error) = (Reply.server_error, redis)
auth_then e r u now later request_id q redis (ok identity) =
    limit_then e u request_id q (check e.link now later identity (limit_of e r) redis)

abbrev pub open_then :
    Edge → Route → ℕ → ℕ → List ℕ → Request → Redis → Option Upstream → Reply × Redis
open_then e r now later request_id q redis none = (Reply.not_found, redis)
open_then e r now later request_id q redis (some u) =
    auth_then e r u now later request_id q redis
      (authorise e.decode r.policy q.authorization (client_ip_of q))

abbrev pub route_then : Edge → ℕ → ℕ → List ℕ → Request → Redis → Option Route → Reply × Redis
route_then e now later request_id q redis none = (Reply.not_found, redis)
route_then e now later request_id q redis (some r) =
    open_then e r now later request_id q redis (opened r)

unfoldable pub gateway : Edge → ℕ → ℕ → List ℕ → Request → Redis → Reply × Redis
gateway e now later request_id q redis =
    route_then e now later request_id q redis (match_route q.path)

-- `f"Bearer {token}" if token else None`
abbrev pub bearer : Option (List ℕ) → Option (List ℕ)
bearer none = none
bearer (some []) = none
bearer (some (c ∷ token)) = some (codes "Bearer " ++ c ∷ token)

-- A closed connection (code 1008), an uncaught exception, or an upstream to connect to.
pub data Handshake : Type 0 where
  closed : Handshake
  failed : Handshake
  accepted : Upstream → Handshake

abbrev pub handshake : Upstream → Result AuthError Identity → Handshake
handshake u (err (AuthError.auth_failed detail)) = Handshake.closed
handshake u (err AuthError.key_error) = Handshake.failed
handshake u (ok identity) = Handshake.accepted u

-- up to the call of `websocket.accept`
unfoldable pub gateway_ws : Decoder → List ℕ → Option (List ℕ) → Option String → Handshake
gateway_ws decode path token host = elim (match_route path) [
  | none ↦ Handshake.closed
  | some r ↦ elim (opened r) [
    | none ↦ Handshake.closed
    | some u ↦ handshake u (authorise decode r.policy (bearer token) (address host))
  ]
]
