-- ===== src/Gateway/Limits.antt =====
-- services/gateway/app/rate_limit.py: the fixed-window counters in Redis. The key
-- `gw:rl:<kind>:<value>:<bucket>` is a record of its parts, and the keys are a map. The window is
-- the 60 seconds of app/config.py; the gateway's clock is read twice. Redis has a clock of its own, and
-- each of its two commands may raise, with or without its effect.
use dsa_platform.Prelude.{
  ℕ, suc, ◌+◌, ◌-◌, ◌/◌, ◌%◌, Bool, true, false, Option, none, some, ◌==◌, ◌&&◌, ltb, str_eq,
  if◌then◌else◌, Result, ok, err,
}
use dsa_platform.Gateway.Auth.{Identity, Kind}

abbrev pub rate_limit_window_seconds : ℕ
rate_limit_window_seconds = 60

pub record Key : Type 0 where
  pub identity : Identity
  pub bucket : ℕ

abbrev pub kind_eq : Kind → Kind → Bool
kind_eq Kind.examiner Kind.examiner = true
kind_eq Kind.candidate Kind.candidate = true
kind_eq Kind.ip Kind.ip = true
kind_eq _ _ = false

abbrev pub same_identity : Identity → Identity → Bool
same_identity a b = kind_eq a.kind b.kind && str_eq a.value b.value

abbrev pub same_key : Key → Key → Bool
same_key a b = a.bucket == b.bucket && same_identity a.identity b.identity

-- A key's number and the time from which the key is gone, once `EXPIRE` has set it.
pub record Counter : Type 0 where
  pub count : ℕ
  pub expires_at : Option ℕ

abbrev pub Redis : Type 0
Redis = Key → Option Counter

abbrev pub put : Key → Option Counter → Redis → Redis
put key counter redis k = if same_key key k then counter else redis k

pub data RedisError : Type 0 where
  connection_error : RedisError

-- Which command raises: before it has its effect (refused) or after it (unanswered).
pub data RedisFault : Type 0 where
  no_fault incr_refused incr_unanswered expire_refused expire_unanswered : RedisFault

-- Redis as one call of the limiter meets it: its clock, and its fault.
pub record Link : Type 0 where
  pub clock : ℕ
  pub fault : RedisFault

abbrev pub live : ℕ → Counter → Bool
live now c = elim c.expires_at [ none ↦ true | some t ↦ ltb now t ]

abbrev fresh : Counter
fresh = record { count = 0; expires_at = none }

-- `INCR` counts on from the live number, or from nothing.
abbrev pub incremented : ℕ → Option Counter → Counter
incremented now none = record fresh { count = 1 }
incremented now (some c) =
    if live now c then record c { count = suc c.count } else record fresh { count = 1 }

-- Only the first request of a window sets the expiry.
abbrev pub expiring : ℕ → Counter → Counter
expiring now c =
    if c.count == 1 then record c { expires_at = some (now + rate_limit_window_seconds) } else c

abbrev pub counted : ℕ → Option Counter → Counter
counted now c = expiring now (incremented now c)

abbrev pub key_at : ℕ → Identity → Key
key_at now identity = record { identity = identity; bucket = now / rate_limit_window_seconds }

abbrev pub wait : ℕ → ℕ → Counter → Option ℕ
wait later limit c =
    if ltb limit c.count
    then some (rate_limit_window_seconds - later % rate_limit_window_seconds)
    else none

-- The first request of a window needs `EXPIRE`, and its exception is the caller's.
abbrev pub unless_first : Counter → Result RedisError (Option ℕ) → Result RedisError (Option ℕ)
unless_first c answer = if c.count == 1 then err RedisError.connection_error else answer

-- The answer to a call, and the key's counter after it.
abbrev pub counting :
    RedisFault → ℕ → ℕ → ℕ → Option Counter → Result RedisError (Option ℕ) × Option Counter
counting RedisFault.no_fault clock later limit found =
    let c = counted clock found in (ok (wait later limit c), some c)
counting RedisFault.incr_refused clock later limit found = (err RedisError.connection_error, found)
counting RedisFault.incr_unanswered clock later limit found =
    (err RedisError.connection_error, some (incremented clock found))
counting RedisFault.expire_refused clock later limit found =
    let c = incremented clock found in (unless_first c (ok (wait later limit c)), some c)
counting RedisFault.expire_unanswered clock later limit found =
    let c = incremented clock found in
    (unless_first c (ok (wait later limit c)), some (expiring clock c))

-- `RedisRateLimiter.check`: the seconds to wait, or nothing for a request that may pass
unfoldable pub check : Link → ℕ → ℕ → Identity → ℕ → Redis → Result RedisError (Option ℕ) × Redis
check link now later identity limit redis =
    let key = key_at now identity in
    let answer = counting link.fault link.clock later limit (redis key) in
    (answer.0, put key (answer.1) redis)
