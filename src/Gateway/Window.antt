-- ===== src/Gateway/Window.antt =====
-- How many requests of one identity pass in one window.
use mathlib.Core.Path.{subst, sym}
use dsa_platform.Prelude.{
  and_both, Result, ok, err, All, min, str_eq, eq_iff, ==_iff, ◌∙◌, ℕ, suc, ◌+◌, ◌*◌, ◌/◌, ◌≤◌, ◌≡◌,
  refl, inl, inr, Bool, true, false, Option, none, some, List, [], ◌∷◌, ◌==◌, ◌&&◌, leb, arith,
  Bool-cases, Option-cases, if◌then◌else◌,
}
use dsa_platform.Gateway.Auth.{Identity, Kind}
use dsa_platform.Gateway.Limits.{
  Link, RedisError, RedisFault, wait, unless_first, counting, incremented, expiring, Key, Counter,
  Redis, same_key, same_identity, kind_eq, live, counted, key_at, check,
}

-- One call of the rate limiter, with Redis as it meets it and the two readings of the clock.
pub record Check : Type 0 where
  pub link : Link
  pub now : ℕ
  pub later : ℕ
  pub identity : Identity
  pub limit : ℕ

abbrev pub run_check : Check → Redis → Result RedisError (Option ℕ) × Redis
run_check c redis = check c.link c.now c.later c.identity c.limit redis

-- The calls under a key, with at most this limit.
abbrev pub about : Key → ℕ → Check → Bool
about key most c = same_key (key_at c.now c.identity) key && leb c.limit most

abbrev pub lets_pass : Result RedisError (Option ℕ) → Bool
lets_pass (ok none) = true
lets_pass (ok (some seconds)) = false
lets_pass (err x) = false

-- How many of those calls let their request pass.
unfoldable pub passed : Key → ℕ → List Check → Redis → ℕ
passed key most [] redis = 0
passed key most (c ∷ cs) redis =
    let step = run_check c redis in
    let rest = passed key most cs (step.1) in
    if about key most c && lets_pass (step.0) then suc rest else rest

abbrev pub empty_redis : Redis
empty_redis key = none

abbrev pub count_of : Option Counter → ℕ
count_of none = 0
count_of (some c) = c.count

-- Redis's clock and the gateways' stay the same distance apart.
abbrev pub InStep : ℕ → ℕ → Check → Type 0
InStep ahead behind c = c.link.clock + behind ≡ c.now + ahead

-- A key has no expiry, or lives at least until its window ends.
abbrev pub Until : ℕ → ℕ → ℕ → Option ℕ → Type 0
Until ahead behind bucket none = Unit
Until ahead behind bucket (some t) = 60 * suc bucket + ahead ≤ t + behind

abbrev pub Lasts : ℕ → ℕ → ℕ → Option Counter → Type 0
Lasts ahead behind bucket none = Unit
Lasts ahead behind bucket (some c) = (1 ≤ c.count) × Until ahead behind bucket c.expires_at

-- What a call leaves under its key, and what it means that it lets the request pass.
abbrev Counted : ℕ → Option Counter → Result RedisError (Option ℕ) → Option Counter → Type 0
Counted limit found answer left =
    (count_of found ≤ count_of left)
    × (lets_pass answer ≡ true → (count_of left ≡ suc (count_of found)) × (count_of left ≤ limit))

wait_pass :
    (later limit : ℕ) (c : Counter) → lets_pass (ok (wait later limit c)) ≡ true → c.count ≤ limit
wait_pass later limit c h = ground arith

wait-Counted :
    (later limit : ℕ) (found : Option Counter) (c : Counter)
    → c.count ≡ suc (count_of found)
    → Counted limit found (ok (wait later limit c)) (some c)
wait-Counted later limit found c e = (omega arith, λ h. (e, wait_pass later limit c h))

unless_first-Counted :
    (limit : ℕ) (found left : Option Counter) (c : Counter) (answer : Result RedisError (Option ℕ))
    → Counted limit found answer left
    → Counted limit found (unless_first c answer) left
unless_first-Counted limit found left c answer h = elim (Bool-cases (c.count == 1)) [
  | inl only ↦ rw only (h.0, λ e. absurd (ground arith))
  | inr later ↦ rw later h
]

module _ (ahead behind clock now : ℕ) (apart : clock + behind ≡ now + ahead) where
  live-Until : (c : Counter) → Until ahead behind (now / 60) c.expires_at → live clock c ≡ true
  live-Until c h = elim (Option-cases c.expires_at) [
    | inl forever ↦ rw forever refl
    | inr (t, at) ↦
        let late : 60 * suc (now / 60) + ahead ≤ t + behind =
          subst (Until ahead behind (now / 60)) at h in
        rw at (ground arith)
  ]

  incremented-Lasts :
      (found : Option Counter)
      → Lasts ahead behind (now / 60) found
      → ((incremented clock found).count ≡ suc (count_of found))
        × Lasts ahead behind (now / 60) (some (incremented clock found))
  incremented-Lasts none h = (refl, (omega arith, tt))
  incremented-Lasts (some c) h = rw (live-Until c h.1) (refl, (omega arith, h.1))

  expiring-Lasts :
      (c : Counter)
      → Lasts ahead behind (now / 60) (some c)
      → ((expiring clock c).count ≡ c.count)
        × Lasts ahead behind (now / 60) (some (expiring clock c))
  expiring-Lasts c h = elim (Bool-cases (c.count == 1)) [
    | inl only ↦ rw only (refl, (h.0, omega arith))
    | inr later ↦ rw later (refl, h)
  ]

  counting-Counted :
      (fault : RedisFault) (later limit : ℕ) (found : Option Counter)
      → Lasts ahead behind (now / 60) found
      → Counted limit found
          ((counting fault clock later limit found).0)
          ((counting fault clock later limit found).1)
        × Lasts ahead behind (now / 60) ((counting fault clock later limit found).1)
  counting-Counted fault later limit found h =
      let c = incremented clock found in
      let one = incremented-Lasts found h in
      let kept = expiring-Lasts c one.1 in
      let waits = wait-Counted later limit found c one.0 in
      elim fault
        as (λ f.
          Counted limit found ((counting f clock later limit found).0)
            ((counting f clock later limit found).1)
          × Lasts ahead behind (now / 60) ((counting f clock later limit found).1)) [
            | RedisFault.no_fault ↦
                (wait-Counted later limit found (counted clock found) (kept.0 ∙ one.0), kept.1)
            | RedisFault.incr_refused ↦ ((omega arith, λ e. absurd (ground arith)), h)
            | RedisFault.incr_unanswered ↦
                ((omega (arith, one.0), λ e. absurd (ground arith)), one.1)
            | RedisFault.expire_refused ↦
                (unless_first-Counted limit found (some c) c (ok (wait later limit c)) waits, one.1)
            | RedisFault.expire_unanswered ↦ (
              unless_first-Counted limit found (some (expiring clock c)) c (ok (wait later limit c))
                  (
                    omega (arith, one.0, kept.0),
                    λ e. (
                      kept.0 ∙ one.0,
                      subst (λ n. n ≤ limit) (sym kept.0) (wait_pass later limit c e),
                    ),
                  ),
              kept.1,
            )
          ]

kind_eq_sound : (a b : Kind) → kind_eq a b ≡ true → a ≡ b
kind_eq_sound Kind.examiner Kind.examiner h = refl
kind_eq_sound Kind.candidate Kind.candidate h = refl
kind_eq_sound Kind.ip Kind.ip h = refl
kind_eq_sound _ _ h = ground arith

same_key_sound : (a b : Key) → same_key a b ≡ true → a ≡ b
same_key_sound a b h =
    let parts = and_both (a.bucket == b.bucket) (same_identity a.identity b.identity) h in
    let inner =
      and_both (kind_eq a.identity.kind b.identity.kind) (str_eq a.identity.value b.identity.value)
        parts.1 in
    let bucket = (==_iff a.bucket b.bucket).0 parts.0 in
    let kind = kind_eq_sound a.identity.kind b.identity.kind inner.0 in
    let value = (eq_iff a.identity.value b.identity.value).0 inner.1 in
    λ i. record { identity = record { kind = kind i; value = value i }; bucket = bucket i }

module _ (ahead behind : ℕ) where
  check-same :
      (c : Check) (redis : Redis) (key : Key)
      → InStep ahead behind c
      → same_key (key_at c.now c.identity) key ≡ true
      → Lasts ahead behind key.bucket (redis key)
      → Counted c.limit (redis key) ((run_check c redis).0) ((run_check c redis).1 key)
        × Lasts ahead behind key.bucket ((run_check c redis).1 key)
  unfolding check
  check-same c redis key apart same h =
      let mine = key_at c.now c.identity in
      let e = same_key_sound mine key same in
      let answer = counting c.link.fault c.link.clock c.later c.limit in
      let n =
        counting-Counted ahead behind c.link.clock c.now apart c.link.fault c.later c.limit
          (redis mine) (subst (λ (k : Key). Lasts ahead behind k.bucket (redis k)) (sym e) h) in
      rw same (
        subst
            (λ (k : Key).
              Counted c.limit (redis k) ((answer (redis mine)).0) ((answer (redis mine)).1))
            e n.0,
        subst (λ (k : Key). Lasts ahead behind k.bucket ((answer (redis mine)).1)) e n.1,
      )

check-other :
    (c : Check) (redis : Redis) (key : Key)
    → same_key (key_at c.now c.identity) key ≡ false
    → (run_check c redis).1 key ≡ redis key
unfolding check
check-other c redis key other = rw other refl

-- At most one more that passes, and then one more in the number.
window_step :
    (rest before after limit most : ℕ) (free : Bool)
    → before ≤ after
    → (free ≡ true → (after ≡ suc before) × (after ≤ limit))
    → rest + min after most ≤ most
    → (if leb limit most && free then suc rest else rest) + min before most ≤ most
window_step rest before after limit most true e h r = let both = h refl in ground arith
window_step rest before after limit most false e h r = ground arith

-- A call under another key leaves the number alone; one under this key counts on.
module _ (key : Key) (most ahead behind : ℕ) where
  -- The calls that may still pass fit below the number.
  abbrev Fits : List Check → Redis → Type 0
  Fits cs redis = passed key most cs redis + min (count_of (redis key)) most ≤ most

  passed_within :
      (cs : List Check) (redis : Redis)
      → All (InStep ahead behind) cs
      → Lasts ahead behind key.bucket (redis key)
      → Fits cs redis
  unfolding passed
  passed_within [] redis steps h = omega arith
  passed_within (c ∷ cs) redis steps h =
      elim (Bool-cases (same_key (key_at c.now c.identity) key)) [
        | inr other ↦
            let same = check-other c redis key other in
            let rest =
              passed_within cs ((run_check c redis).1) steps.1
                (subst (Lasts ahead behind key.bucket) (sym same) h) in
            rw other (
              subst (λ o. passed key most cs ((run_check c redis).1) + min (count_of o) most ≤ most)
                same rest)
        | inl mine ↦
            let n = check-same ahead behind c redis key steps.0 mine h in
            let rest = passed_within cs ((run_check c redis).1) steps.1 n.1 in
            rw mine (window_step _ _ _ _ _ _ (n.0.0) (n.0.1) rest)
      ]

-- In any sequence of calls on counters that start empty, whichever commands of Redis raise, at most
-- `most` requests pass under one key (one identity in one window of a minute) of those whose limit
-- is at most `most`, whatever the other calls are, if Redis's clock stays the same distance from the
-- gateways' clocks in all of them.
pub window_limit :
    (key : Key) (most ahead behind : ℕ) (cs : List Check)
    → All (InStep ahead behind) cs
    → passed key most cs empty_redis ≤ most
window_limit key most ahead behind cs steps =
    ground (arith, passed_within key most ahead behind cs empty_redis steps tt)
