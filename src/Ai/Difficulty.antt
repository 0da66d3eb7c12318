-- ===== src/Ai/Difficulty.antt =====
-- services/ai/app/difficulty/rules.py and app/services/difficulty.py. A difficulty is kept in tenths
-- and the elapsed share of time in whole percents, rounded down, which is all that the rules compare.
use dsa_platform.Prelude.{
  ℕ, ◌+◌, ◌-◌, ◌≤◌, min, max, String, Bool, true, false, Option, none, some, List, [], ◌∷◌, ◌==◌,
  ltb, leb, str_eq, if◌then◌else◌, ◌≡◌, refl, All, arith, inl, inr, Bool-cases, ◌⊎◌, ==_refl,
}
use dsa_platform.Prelude.Table.{first, remove}

pub data ComplexityHint : Type 0 where
  optimal suboptimal : ComplexityHint

pub data RuleBand : Type 0 where
  easy medium hard : RuleBand

abbrev pub default_difficulty : ℕ
default_difficulty = 30

abbrev pub min_difficulty : ℕ
min_difficulty = 10

abbrev pub max_difficulty : ℕ
max_difficulty = 50

abbrev pub raise_by : Option ComplexityHint → ℕ
raise_by none = 5
raise_by (some ComplexityHint.optimal) = 10
raise_by (some ComplexityHint.suboptimal) = 5

abbrev pub clamp : ℕ → ℕ
clamp n = min max_difficulty (max min_difficulty n)

-- A difference below zero is clamped to the least difficulty.
unfoldable pub compute_next_difficulty : ℕ → String → ℕ → Option ComplexityHint → ℕ
compute_next_difficulty current verdict elapsed hint =
    if str_eq verdict "AC"
    then clamp (current + (if ltb elapsed 30 then raise_by hint else 0))
    else clamp (current - (if leb 80 elapsed then 10 else 0))

unfoldable pub band_for_difficulty : ℕ → RuleBand
band_for_difficulty value =
    if leb value 20 then RuleBand.easy else if leb value 30 then RuleBand.medium else RuleBand.hard

-- The difficulties of the sessions in Redis. A key that expired is not there.
abbrev pub Difficulties : Type 0
Difficulties = List (ℕ × ℕ)

abbrev pub is_key : ℕ → ℕ × ℕ → Bool
is_key session_id entry = entry.0 == session_id

abbrev pub or_default_difficulty : Option (ℕ × ℕ) → ℕ
or_default_difficulty none = default_difficulty
or_default_difficulty (some entry) = entry.1

abbrev pub current_of : ℕ → Difficulties → ℕ
current_of session_id s = or_default_difficulty (first (is_key session_id) s)

abbrev pub set_key : ℕ → ℕ → Difficulties → Difficulties
set_key session_id value s = (session_id, value) ∷ remove (is_key session_id) s

unfoldable pub record_signal :
    ℕ → String → ℕ → Option ComplexityHint → Difficulties → (ℕ × RuleBand) × Difficulties
record_signal session_id verdict elapsed hint s =
    let next = compute_next_difficulty (current_of session_id s) verdict elapsed hint in
    ((next, band_for_difficulty next), set_key session_id next s)

-- A signal, or the end of a key's time to live.
pub data DifficultyEvent : Type 0 where
  signal : ℕ → String → ℕ → Option ComplexityHint → DifficultyEvent
  expire : ℕ → DifficultyEvent

unfoldable pub difficulty_step : DifficultyEvent → Difficulties → Difficulties
difficulty_step (DifficultyEvent.signal session_id verdict elapsed hint) s =
    (record_signal session_id verdict elapsed hint s).1
difficulty_step (DifficultyEvent.expire session_id) s = remove (is_key session_id) s

unfoldable pub difficulty_steps : List DifficultyEvent → Difficulties → Difficulties
difficulty_steps [] s = s
difficulty_steps (e ∷ es) s = difficulty_steps es (difficulty_step e s)

abbrev pub InRange : ℕ → Type 0
InRange n = (min_difficulty ≤ n) × (n ≤ max_difficulty)

abbrev Ranged : Difficulties → Type 0
Ranged s = All (λ (entry : ℕ × ℕ). InRange (entry.1)) s

clamp-InRange : (n : ℕ) → InRange (clamp n)
clamp-InRange n = (omega arith, omega arith)

next-InRange :
    (current : ℕ) (verdict : String) (elapsed : ℕ) (hint : Option ComplexityHint)
    → InRange (compute_next_difficulty current verdict elapsed hint)
unfolding compute_next_difficulty
next-InRange current verdict elapsed hint = elim (Bool-cases (str_eq verdict "AC")) [
  | inl accepted ↦ rw accepted (clamp-InRange _)
  | inr failed ↦ rw failed (clamp-InRange _)
]

remove-Ranged : (p : ℕ × ℕ → Bool) (s : Difficulties) → Ranged s → Ranged (remove p s)
unfolding remove
remove-Ranged p [] h = tt
remove-Ranged p (x ∷ xs) h = elim (Bool-cases (p x)) [
  | inl gone ↦ rw gone (remove-Ranged p xs h.1)
  | inr stays ↦ rw stays (h.0, remove-Ranged p xs h.1)
]

difficulty_step-Ranged :
    (e : DifficultyEvent) (s : Difficulties) → Ranged s → Ranged (difficulty_step e s)
unfolding difficulty_step record_signal
difficulty_step-Ranged (DifficultyEvent.signal session_id verdict elapsed hint) s h = (
  next-InRange (current_of session_id s) verdict elapsed hint,
  remove-Ranged (is_key session_id) s h,
)
difficulty_step-Ranged (DifficultyEvent.expire session_id) s h =
    remove-Ranged (is_key session_id) s h

difficulty_steps-Ranged :
    (es : List DifficultyEvent) (s : Difficulties) → Ranged s → Ranged (difficulty_steps es s)
unfolding difficulty_steps
difficulty_steps-Ranged [] s h = h
difficulty_steps-Ranged (e ∷ es) s h =
    difficulty_steps-Ranged es (difficulty_step e s) (difficulty_step-Ranged e s h)

current-InRange : (session_id : ℕ) (s : Difficulties) → Ranged s → InRange (current_of session_id s)
unfolding first
current-InRange session_id [] h = (omega arith, omega arith)
current-InRange session_id (x ∷ xs) h = elim (Bool-cases (is_key session_id x)) [
  | inl found ↦ rw found h.0
  | inr other ↦ rw other (current-InRange session_id xs h.1)
]

-- An accepted submission never lowers the difficulty, a failed one never raises it, and neither
-- moves it by more than one.
abbrev pub Moved : String → ℕ → ℕ → Type 0
Moved verdict old new =
    ((str_eq verdict "AC" ≡ true) × (old ≤ new) × (new ≤ old + 10))
    ⊎ ((str_eq verdict "AC" ≡ false) × (new ≤ old) × (old ≤ new + 10))

raise_by-bounds : (hint : Option ComplexityHint) → raise_by hint ≤ 10
raise_by-bounds none = omega arith
raise_by-bounds (some ComplexityHint.optimal) = omega arith
raise_by-bounds (some ComplexityHint.suboptimal) = omega arith

clamp_raised :
    (fast : Bool) (old raise : ℕ)
    → InRange old
    → raise ≤ 10
    → (old ≤ clamp (old + (if fast then raise else 0)))
      × (clamp (old + (if fast then raise else 0)) ≤ old + 10)
clamp_raised true old raise h small = (omega arith, omega arith)
clamp_raised false old raise h small = (omega arith, omega arith)

clamp_lowered :
    (slow : Bool) (old : ℕ)
    → InRange old
    → (clamp (old - (if slow then 10 else 0)) ≤ old)
      × (old ≤ clamp (old - (if slow then 10 else 0)) + 10)
clamp_lowered true old h = (omega arith, omega arith)
clamp_lowered false old h = (omega arith, omega arith)

next-Moved :
    (current : ℕ) (verdict : String) (elapsed : ℕ) (hint : Option ComplexityHint)
    → InRange current
    → Moved verdict current (compute_next_difficulty current verdict elapsed hint)
unfolding compute_next_difficulty
next-Moved current verdict elapsed hint h = elim (Bool-cases (str_eq verdict "AC")) [
  | inl accepted ↦
      let bounds = clamp_raised (ltb elapsed 30) current (raise_by hint) h (raise_by-bounds hint) in
      rw accepted (inl (refl, bounds.0, bounds.1))
  | inr failed ↦
      let bounds = clamp_lowered (leb 80 elapsed) current h in
      rw failed (inr (refl, bounds.0, bounds.1))
]

-- After any signals and expiries from an empty store, the next signal's difficulty lies between 1
-- and 5, an accepted submission does not lower the session's difficulty, a failed one does not
-- raise it, neither moves it by more than one, and the new value is what the session then has.
pub record_signal-Moved :
    (es : List DifficultyEvent) (session_id : ℕ) (verdict : String) (elapsed : ℕ)
    (hint : Option ComplexityHint)
    → InRange ((record_signal session_id verdict elapsed hint (difficulty_steps es [])).0.0)
      × Moved verdict
          (current_of session_id (difficulty_steps es []))
          ((record_signal session_id verdict elapsed hint (difficulty_steps es [])).0.0)
      × (current_of session_id
            ((record_signal session_id verdict elapsed hint (difficulty_steps es [])).1)
          ≡ (record_signal session_id verdict elapsed hint (difficulty_steps es [])).0.0)
unfolding record_signal first
record_signal-Moved es session_id verdict elapsed hint = (
  next-InRange (current_of session_id (difficulty_steps es [])) verdict elapsed hint,
  next-Moved (current_of session_id (difficulty_steps es [])) verdict elapsed hint
      (current-InRange session_id (difficulty_steps es []) (difficulty_steps-Ranged es [] tt)),
  rw (==_refl session_id) refl,
)
