-- ===== src/Gateway/Tests.antt =====
-- Requests at the edge on concrete data, and the theorems about the gateway at them.
use mathlib.Core.Option
use dsa_platform.Prelude.{
  ℕ, ◌+◌, String, ◌≤◌, ◌≡◌, refl, Option, none, some, List, [], ◌∷◌, codes, list_eq, if◌then◌else◌,
}
use dsa_platform.Prelude.{All}
use dsa_platform.Prelude.Table.{select}
use dsa_platform.Gateway.Routing.{Upstream, Route, match_route, routes}
use dsa_platform.Gateway.Longest.{Fits, IsBest, match_route_longest}
use dsa_platform.Gateway.Auth.{Decoder, Identity, Kind, bearer_token, authorise, lower}
use dsa_platform.Gateway.Limits.{Redis, RedisFault, check}
use dsa_platform.Gateway.Edge.{
  Edge, Request, Reply, Handshake, gateway, gateway_ws, pass_on, forward,
}
use dsa_platform.Gateway.Headers.{header, is_kept_back, identified, forward_headers}
use dsa_platform.Gateway.Window.{Check, passed, empty_redis, window_limit}

-- One token of each plane.
abbrev decode : Decoder
decode token =
    if list_eq token (codes "e")
    then some (record { sub = "erin"; kind = "examiner_access" })
    else if list_eq token (codes "c")
    then some (record { sub = "carl"; kind = "candidate_exam" })
    else none

abbrev edge : Edge
edge = record {
  decode = decode;
  upstream = λ call. some (record { status_code = 200; headers = []; content = call.path });
  link = record { clock = 30; fault = RedisFault.no_fault };
  rate_limit_auth = 1;
  rate_limit_default = 2;
}

abbrev asking : String → Option (List ℕ) → Request
asking path authorization = record {
  method = codes "GET";
  path = codes path;
  query = [];
  authorization = authorization;
  client_ip = none;
  headers = (codes "Host", codes "x") ∷ (codes "a", codes "b") ∷ [];
  body = [];
}

abbrev reply_to : Request → Redis → Reply
unfolding gateway pass_on forward check match_route
reply_to q redis = (gateway edge 30 31 [] q redis).0

longest_wins :
    Option.map (λ (r : Route). r.upstream) (match_route (codes "/questions/generate/3"))
    ≡ some (some Upstream.ai)
unfolding match_route
longest_wins = refl

candidate_kept_out :
    reply_to (asking "/exams" (some (codes "Bearer c"))) empty_redis
    ≡ Reply.unauthorized "Token is not valid for this route"
unfolding reply_to authorise bearer_token
candidate_kept_out = refl

hop_headers_dropped :
    (forward Upstream.exam [] (asking "/exams" none)).headers ≡ (codes "a", codes "b") ∷ []
unfolding forward select lower
hop_headers_dropped = refl

ws_accepted :
    gateway_ws decode (codes "/candidate/session/ws") (some (codes "c")) none
    ≡ Handshake.accepted Upstream.exam
unfolding gateway_ws match_route bearer_token authorise
ws_accepted = refl

abbrev erin : Identity
erin = record { kind = Kind.examiner; value = "erin" }

abbrev ask_at : ℕ → Check
ask_at now = record {
  link = record { clock = now + 3; fault = RedisFault.no_fault };
  now = now;
  later = now;
  identity = erin;
  limit = 2;
}

abbrev asks : List Check
asks = ask_at 60 ∷ ask_at 61 ∷ ask_at 119 ∷ ask_at 120 ∷ []

two_passed : passed (record { identity = erin; bucket = 1 }) 2 asks empty_redis ≡ 2
unfolding passed check
two_passed = refl

window_limit_example : passed (record { identity = erin; bucket = 1 }) 2 asks empty_redis ≤ 2
window_limit_example =
    window_limit (record { identity = erin; bucket = 1 }) 2 3 0 asks
      (refl, (refl, (refl, (refl, tt))))

match_route_longest_example :
    Fits (codes "/questions/generate/3") (match_route (codes "/questions/generate/3"))
    × All
        (IsBest (codes "/questions/generate/3") (match_route (codes "/questions/generate/3")))
        routes
match_route_longest_example = match_route_longest (codes "/questions/generate/3")

forward_headers_example :
    header (codes "a") (forward Upstream.exam (codes "r") (asking "/exams" none)).headers ≡ (
      if is_kept_back (codes "a")
      then none
      else identified (codes "a") (codes "r") (asking "/exams" none))
forward_headers_example =
    forward_headers Upstream.exam (codes "a") (codes "r") (asking "/exams" none)
