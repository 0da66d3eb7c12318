-- ===== src/Gateway/Headers.antt =====
-- The headers of the call that goes upstream, by name: `gateway` of services/gateway/app/main.py and
-- `HttpForwarder.forward` of app/proxy.py.
use mathlib.Core.Path.{ap₂}
use dsa_platform.Prelude.{
  ℕ, Bool, true, false, Option, none, some, List, [], ◌∷◌, ◌≡◌, refl, sym, ap, ◌∙◌, inl, inr,
  Bool-cases, any, not, arith, and_both, ==_iff, ==_refl, ◌==◌, codes, list_eq, if◌then◌else◌,
}
use dsa_platform.Prelude.Table.{select}
use dsa_platform.Gateway.Routing.{Upstream}
use dsa_platform.Gateway.Auth.{lower}
use dsa_platform.Gateway.Edge.{
  Headers, Request, forward, named, hop_by_hop, set_header, with_request_id,
}

-- The value under a name, by its exact letters.
abbrev pub header : List ℕ → Headers → Option (List ℕ)
header name [] = none
header name (h ∷ hs) = let rest = header name hs in if list_eq (h.0) name then some (h.1) else rest

-- The names that stay behind, in lower case.
abbrev pub kept_back : List (List ℕ)
kept_back =
    codes "connection"
    ∷ codes "keep-alive"
    ∷ codes "proxy-authenticate"
    ∷ codes "proxy-authorization"
    ∷ codes "te"
    ∷ codes "trailers"
    ∷ codes "transfer-encoding"
    ∷ codes "upgrade"
    ∷ codes "host"
    ∷ codes "content-length"
    ∷ []

abbrev pub is_kept_back : List ℕ → Bool
is_kept_back name = any (list_eq (lower name)) kept_back

-- The value of a header of the request, with the request's identifier in its own header.
abbrev pub identified : List ℕ → List ℕ → Request → Option (List ℕ)
identified name [] q = header name q.headers
identified name (c ∷ id) q =
    if list_eq (codes "x-request-id") name then some (c ∷ id) else header name q.headers

list_eq_sound : (a b : List ℕ) → list_eq a b ≡ true → a ≡ b
list_eq_sound [] [] h = refl
list_eq_sound [] (y ∷ ys) h = ground arith
list_eq_sound (x ∷ xs) [] h = ground arith
list_eq_sound (x ∷ xs) (y ∷ ys) h =
    let both = and_both (x == y) (list_eq xs ys) h in
    ap₂ (λ z zs. z ∷ zs) ((==_iff x y).0 both.0) (list_eq_sound xs ys both.1)

list_eq_refl : (a : List ℕ) → list_eq a a ≡ true
list_eq_refl [] = refl
list_eq_refl (x ∷ xs) = rw (==_refl x, list_eq_refl xs) refl

chosen :
    {A : Type 0} (b : Bool) (x y z : A)
    → (if b then x else z) ≡ (if b then x else if b then y else z)
chosen true x y z = refl
chosen false x y z = refl

header-select :
    (name : List ℕ) (names : List (List ℕ)) (hs : Headers)
    → header name (select (λ h. not (named names h)) hs)
      ≡ (if any (list_eq (lower name)) names then none else header name hs)
unfolding select
header-select name names [] = elim (Bool-cases (any (list_eq (lower name)) names)) [
  | inl back ↦ rw back refl
  | inr on ↦ rw on refl
]
header-select name names (h ∷ hs) =
    let rest = header-select name names hs in
    elim (Bool-cases (list_eq (h.0) name)) [
      | inl same ↦
          let is_named : any (list_eq (lower name)) names ≡ named names h =
            ap (λ k. any (list_eq (lower k)) names) (sym (list_eq_sound (h.0) name same)) in
          elim (Bool-cases (named names h)) [
            | inl back ↦ rw back (rest ∙ rw (is_named ∙ back) refl)
            | inr on ↦ rw (on, is_named ∙ on, same) refl
          ]
      | inr other ↦ elim (Bool-cases (named names h)) [
        | inl back ↦ rw (back, other) rest
        | inr on ↦ rw (on, other) rest
      ]
    ]

header-set_header :
    (name key value : List ℕ) (hs : Headers)
    → header name (set_header key value hs)
      ≡ (if list_eq key name then some value else header name hs)
unfolding set_header
header-set_header name key value [] = refl
header-set_header name key value (h ∷ hs) =
    let rest = header-set_header name key value hs in
    elim (Bool-cases (list_eq (h.0) key)) [
      | inl same ↦
          let e : list_eq (h.0) name ≡ list_eq key name =
            ap (λ k. list_eq k name) (list_eq_sound (h.0) key same) in
          rw (same, e) (chosen (list_eq key name) (some value) (some (h.1)) (header name hs))
      | inr other ↦ rw other (elim (Bool-cases (list_eq (h.0) name)) [
        | inr apart ↦ rw apart rest
        | inl here ↦
            let no_key : list_eq key name ≡ false = elim (Bool-cases (list_eq key name)) [
              | inr differ ↦ differ
              | inl equal ↦
                  equal
                  ∙ sym (list_eq_refl name)
                  ∙ ap (list_eq name) (sym (list_eq_sound key name equal))
                  ∙ ap (λ k. list_eq k key) (sym (list_eq_sound (h.0) name here))
                  ∙ other
            ] in
            rw (here, no_key) refl
      ])
    ]

header-identified :
    (name request_id : List ℕ) (q : Request)
    → header name (with_request_id request_id q.headers) ≡ identified name request_id q
header-identified name [] q = refl
header-identified name (c ∷ id) q = header-set_header name (codes "x-request-id") (c ∷ id) q.headers

-- Under a name, whatever its letters' case, that is host, content-length or one of the code's
-- hop-by-hop names (which have `trailers`, not the Trailer of RFC 7230), the call that goes upstream
-- has no header; under x-request-id it has the request's identifier where there is one; and under
-- any other name what the request has, first value by first value.
pub forward_headers :
    (u : Upstream) (name request_id : List ℕ) (q : Request)
    → header name (forward u request_id q).headers
      ≡ (if is_kept_back name then none else identified name request_id q)
unfolding forward
forward_headers u name request_id q =
    header-select name hop_by_hop (with_request_id request_id q.headers)
    ∙ ap (λ v. if is_kept_back name then none else v) (header-identified name request_id q)
