-- ===== src/Gateway/Limiting.antt =====
-- What a call of the rate limiter answers.
use dsa_platform.Prelude.{
  ℕ, Option, none, some, ◌≡◌, ◌≢◌, ◌≤◌, refl, inl, inr, arith, Bool-cases, ltb, Result, ok, err,
  ◌==◌,
}
use dsa_platform.Gateway.Limits.{
  RedisError, RedisFault, Counter, counting, unless_first, wait, counted, incremented,
  rate_limit_window_seconds,
}

-- What the limiter says: an exception, a wait, or that the counter is within the limit.
abbrev pub Limited : RedisFault → ℕ → ℕ → Option Counter → Result RedisError (Option ℕ) → Type 0
Limited fault clock limit found (err x) = fault ≢ RedisFault.no_fault
Limited fault clock limit found (ok (some seconds)) =
    (1 ≤ seconds) × (seconds ≤ rate_limit_window_seconds)
Limited fault clock limit found (ok none) = (incremented clock found).count ≤ limit

wait-Limited :
    (fault : RedisFault) (clock later limit : ℕ) (found : Option Counter) (c : Counter)
    → c.count ≡ (incremented clock found).count
    → Limited fault clock limit found (ok (wait later limit c))
wait-Limited fault clock later limit found c e = elim (Bool-cases (ltb limit c.count)) [
  | inl over ↦ rw over (omega arith, omega arith)
  | inr within ↦ rw within (ground arith)
]

unless_first-Limited :
    (fault : RedisFault) (clock limit : ℕ) (found : Option Counter) (c : Counter)
    (answer : Result RedisError (Option ℕ))
    → fault ≢ RedisFault.no_fault
    → Limited fault clock limit found answer
    → Limited fault clock limit found (unless_first c answer)
unless_first-Limited fault clock limit found c answer broken h = elim (Bool-cases (c.count == 1)) [
  | inl only ↦ rw only broken
  | inr later ↦ rw later h
]

count-counted :
    (clock : ℕ) (found : Option Counter)
    → (counted clock found).count ≡ (incremented clock found).count
count-counted clock found = elim (Bool-cases ((incremented clock found).count == 1)) [
  | inl only ↦ rw only refl
  | inr later ↦ rw later refl
]

pub counting-Limited :
    (fault : RedisFault) (clock later limit : ℕ) (found : Option Counter)
    → Limited fault clock limit found ((counting fault clock later limit found).0)
counting-Limited RedisFault.no_fault clock later limit found =
    wait-Limited RedisFault.no_fault clock later limit found (counted clock found)
      (count-counted clock found)
counting-Limited RedisFault.incr_refused clock later limit found = ground arith
counting-Limited RedisFault.incr_unanswered clock later limit found = ground arith
counting-Limited RedisFault.expire_refused clock later limit found =
    let c = incremented clock found in
    unless_first-Limited RedisFault.expire_refused clock limit found c (ok (wait later limit c))
      (ground arith) (wait-Limited RedisFault.expire_refused clock later limit found c refl)
counting-Limited RedisFault.expire_unanswered clock later limit found =
    let c = incremented clock found in
    unless_first-Limited RedisFault.expire_unanswered clock limit found c (ok (wait later limit c))
      (ground arith) (wait-Limited RedisFault.expire_unanswered clock later limit found c refl)
