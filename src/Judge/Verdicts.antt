-- ===== src/Judge/Verdicts.antt =====
-- What the judge's message says of its job.
use dsa_platform.Prelude.{
  ℕ, Bool, true, false, Option, none, some, List, [], ◌∷◌, ◌≡◌, ◌↔◌, refl, ◌⊎◌, inl, inr, map, All,
  Result, ok, err, Bool-cases, if◌then◌else◌, arith, after, not, ◌||◌,
}
use dsa_platform.Prelude.Int.{is_zero}
use dsa_platform.Judge.Contracts.{
  Verdict, SubmissionJob, SubmissionStatus, TestCaseRef, CaseResult, VerdictMessage,
}
use dsa_platform.Judge.Compare.{outputs_match}
use dsa_platform.Judge.Sandbox.{Text, SandboxSpec}
use dsa_platform.Judge.Runner.{
  Engine, Host, Envelope, ContainerOutcome, JudgeError, verdict_for_case, verdict_of_envelope,
  verdict_of_run, oom_code, fetched, Job, run_container, compared, code_of, decode_output, is_minus,
  run_case, run_cases, run_stage, run, summary, unless_ac, compile_failed, fetch, lift,
}

abbrev pub is_ac : Verdict → Bool
is_ac Verdict.ac = true
is_ac _ = false

abbrev pub Passed : CaseResult → Type 0
Passed r = is_ac r.verdict ≡ true

abbrev pub Accepted : Result JudgeError CaseResult → Type 0
Accepted (ok r) = Passed r
Accepted (err x) = ⊥

-- A run that ended by itself, in its limits, with exit code 0 and the expected output.
abbrev pub IsClean : Engine → ContainerOutcome → List ℕ → SubmissionJob → Type 0
IsClean e o expected job =
    (o.killed_by_worker ≡ false)
    × ((env : Envelope) × (output : List ℕ) × (o.envelope ≡ some env)
        × (env.oom_killed ≡ false)
        × (env.timed_out ≡ false)
        × (is_zero (code_of env) ≡ true)
        × (env.truncated ≡ false)
        × (decode_output e env ≡ some output)
        × (outputs_match output expected job.compare_mode ≡ true))

compared-some :
    (job : SubmissionJob) (env : Envelope) (expected : List ℕ) (o : Option (List ℕ))
    → Accepted (compared job env expected o)
    → (output : List ℕ) × (o ≡ some output)
      × (outputs_match output expected job.compare_mode ≡ true)
compared-some job env expected none h = absurd h
compared-some job env expected (some output) h = (output, refl, ground arith)

or_left : (a b : Bool) → (a || b) ≡ false → a ≡ false
or_left a b h = ground arith

Accepted-envelope :
    (e : Engine) (env : Envelope) (expected : List ℕ) (job : SubmissionJob)
    → Accepted (verdict_of_envelope e env expected job)
    → (env.oom_killed ≡ false)
      × (env.timed_out ≡ false)
      × (is_zero (code_of env) ≡ true)
      × (env.truncated ≡ false)
      × Accepted (compared job env expected (decode_output e env))
Accepted-envelope e env expected job =
    elim (Bool-cases (env.oom_killed || is_minus 9 (code_of env))) [
      | inl oom ↦ rw (oom, verdict_of_envelope) (λ h. absurd (ground arith))
      | inr calm ↦ elim (Bool-cases env.timed_out) [
        | inl late ↦
            rw (calm, verdict_of_envelope)
              (rw (late, verdict_of_envelope) (λ h. absurd (ground arith)))
        | inr early ↦ elim (Bool-cases (is_zero (code_of env))) [
          | inr crash ↦
              rw (calm, verdict_of_envelope)
                (rw early (rw (crash, verdict_of_envelope) (λ h. absurd (ground arith))))
          | inl fine ↦ elim (Bool-cases env.truncated) [
            | inl cut ↦
                rw (calm, verdict_of_envelope)
                  (rw early (rw (fine, verdict_of_envelope) (rw cut (λ h. absurd (ground arith)))))
            | inr whole ↦
                rw (calm, verdict_of_envelope)
                  (rw early (
                    rw (fine, verdict_of_envelope)
                      (rw whole (λ h. (or_left _ _ calm, refl, refl, refl, h)))))
          ]
        ]
      ]
    ]

unless_ac_iff :
    (v rest : Verdict)
    → (is_ac (unless_ac v rest) ≡ true) ↔ ((is_ac v ≡ true) × (is_ac rest ≡ true))
unless_ac_iff Verdict.ac rest = ((λ h. (refl, h)), λ h. h.1)
unless_ac_iff Verdict.wa rest = ((λ h. absurd (ground arith)), λ h. h.0)
unless_ac_iff Verdict.tle rest = ((λ h. absurd (ground arith)), λ h. h.0)
unless_ac_iff Verdict.mle rest = ((λ h. absurd (ground arith)), λ h. h.0)
unless_ac_iff Verdict.re rest = ((λ h. absurd (ground arith)), λ h. h.0)
unless_ac_iff Verdict.ce rest = ((λ h. absurd (ground arith)), λ h. h.0)

-- The summary is accepted exactly where every case is.
summary_iff : (cases : List CaseResult) → (is_ac (summary cases) ≡ true) ↔ All Passed cases
unfolding summary
summary_iff [] = ((λ h. tt), λ h. refl)
summary_iff (case ∷ cases) =
    let here = unless_ac_iff case.verdict (summary cases) in
    let rest = summary_iff cases in
    ((λ h. ((here.0 h).0, rest.0 ((here.0 h).1))), λ h. here.1 (h.0, rest.1 h.1))

abbrev pub ordinals_of : List TestCaseRef → List ℕ
ordinals_of cases = map (λ (c : TestCaseRef). c.ordinal) cases

abbrev pub result_ordinals : List CaseResult → List ℕ
result_ordinals rs = map (λ (r : CaseResult). r.ordinal) rs

Accepted-run :
    (e : Engine) (o : ContainerOutcome) (expected : List ℕ) (job : SubmissionJob)
    (found : Option Envelope)
    → Accepted (verdict_of_run e o expected job found)
    → (env : Envelope) × (found ≡ some env) × Accepted (verdict_of_envelope e env expected job)
Accepted-run e o expected job none = elim (Bool-cases (oom_code o.docker_returncode)) [
  | inl oom ↦ rw (oom, verdict_of_run) (λ h. absurd (ground arith))
  | inr other ↦ rw (other, verdict_of_run) (λ h. absurd h)
]
Accepted-run e o expected job (some env) = λ h. (env, refl, h)

-- A case is accepted only for a run that was not killed, ended by itself within its limits and with
-- exit code 0, and printed the expected output.
pub Accepted-IsClean :
    (e : Engine) (o : ContainerOutcome) (expected : List ℕ) (job : SubmissionJob)
    → Accepted (verdict_for_case e o expected job)
    → IsClean e o expected job
unfolding verdict_for_case
Accepted-IsClean e o expected job = elim (Bool-cases o.killed_by_worker) [
  | inl killed_it ↦ rw killed_it (λ h. absurd (ground arith))
  | inr finished ↦ rw finished (λ h.
      let (env, found, good) = Accepted-run e o expected job o.envelope h in
      let clean = Accepted-envelope e env expected job good in
      let (output, decoded, same) =
        compared-some job env expected (decode_output e env) (clean.4) in
      (refl, (env, output, found, clean.0, clean.1, clean.2, clean.3, decoded, same)))
]

-- Why a job may end without a message.
abbrev pub IsCause : Engine → JudgeError → Type 0
IsCause e (JudgeError.storage key) = e.get_object key ≡ none
IsCause e JudgeError.bad_output = (text : Text) × (e.unbase64 text ≡ none)
IsCause e (JudgeError.container_failed code log) = oom_code code ≡ false

-- What is known of each answer; an exception has a cause.
abbrev pub Answers : {A : Type 0} → Engine → (A → Type 0) → Result JudgeError A → Type 0
Answers e P (ok a) = P a
Answers e P (err x) = IsCause e x

pub after-Answers :
    {A B : Type 0} (e : Engine) (P : A → Type 0) (Q : B → Type 0) (r : Result JudgeError A × Host)
    (k : A → Job B)
    → Answers e P (r.0)
    → ((a : A) (host : Host) → P a → Answers e Q ((k a host).0))
    → Answers e Q ((after r k).0)
after-Answers e P Q (ok a, host) k h rest = rest a host h
after-Answers e P Q (err x, host) k h rest = h

pub fetched-Answers :
    (e : Engine) (key : Text) (found : Option (List ℕ))
    → e.get_object key ≡ found
    → Answers e (λ content. Unit) (fetched key found)
fetched-Answers e key none h = h
fetched-Answers e key (some content) h = tt

compared-Answers :
    (e : Engine) (job : SubmissionJob) (env : Envelope) (expected : List ℕ) (text : Text)
    (o : Option (List ℕ))
    → e.unbase64 text ≡ o
    → Answers e (λ r. Unit) (compared job env expected o)
compared-Answers e job env expected text none h = (text, h)
compared-Answers e job env expected text (some output) h = tt

pub if-Answers :
    {A : Type 0} (e : Engine) (P : A → Type 0) (test : Bool) (x y : Result JudgeError A)
    → Answers e P x
    → Answers e P y
    → Answers e P (if test then x else y)
if-Answers e P true x y hx hy = hx
if-Answers e P false x y hx hy = hy

verdict_of_run-Answers :
    (e : Engine) (o : ContainerOutcome) (expected : List ℕ) (job : SubmissionJob)
    (found : Option Envelope)
    → Answers e (λ r. Unit) (verdict_of_run e o expected job found)
verdict_of_run-Answers e o expected job none = elim (Bool-cases (oom_code o.docker_returncode)) [
  | inl oom ↦ rw (oom, verdict_of_run) tt
  | inr other ↦ rw (other, verdict_of_run) other
]
verdict_of_run-Answers e o expected job (some env) =
    if-Answers e _ (env.oom_killed || is_minus 9 (code_of env)) _ _ tt (
      if-Answers e _ env.timed_out _ _ tt (
        if-Answers e _ (not (is_zero (code_of env))) _ _ tt (
          if-Answers e _ env.truncated _ _ tt
            (compared-Answers e job env expected _ (decode_output e env) refl))))

verdict_for_case-Answers :
    (e : Engine) (o : ContainerOutcome) (expected : List ℕ) (job : SubmissionJob)
    → Answers e (λ r. Unit) (verdict_for_case e o expected job)
unfolding verdict_for_case
verdict_for_case-Answers e o expected job =
    if-Answers e _ o.killed_by_worker _ _ tt (verdict_of_run-Answers e o expected job o.envelope)

-- A job's message: compiled without success, or a result for every case.
abbrev pub IsReport : SubmissionJob → VerdictMessage → Type 0
IsReport job m =
    (m.submission_id ≡ job.submission_id)
    × (((m.status ≡ SubmissionStatus.compile_error)
          × (m.cases ≡ [])
          × (m.summary_verdict ≡ Verdict.ce))
        ⊎ ((m.status ≡ SubmissionStatus.completed)
            × (result_ordinals m.cases ≡ ordinals_of job.cases)
            × ((is_ac m.summary_verdict ≡ true) ↔ All Passed m.cases)))

pub launched-Answers :
    (e : Engine) (spec : SandboxSpec) (stdin : List ℕ) (wall : ℕ) (host : Host)
    → Answers e (λ o. Unit) ((run_container e spec stdin wall host).0)
unfolding run_container
launched-Answers e spec stdin wall host = tt

run_case-ordinal :
    (e : Engine) (job : SubmissionJob) (case : TestCaseRef) (host : Host)
    → Answers e (λ (r : CaseResult). r.ordinal ≡ case.ordinal) ((run_case e job case host).0)
unfolding run_case
run_case-ordinal e job case host =
    after-Answers e _ _ (fetch e case.input_s3_key host) _
      (fetched-Answers e case.input_s3_key _ refl)
      (λ stdin host' _.
        after-Answers e _ _ (fetch e case.expected_output_s3_key host') _
          (fetched-Answers e case.expected_output_s3_key _ refl)
          (λ expected host2 _.
            after-Answers e (λ o. Unit) _ (run_container e _ stdin _ host2) _
              (launched-Answers e _ stdin _ host2)
              (λ outcome host3 _.
                after-Answers e _ _ (lift (verdict_for_case e outcome expected job) host3) _
                  (verdict_for_case-Answers e outcome expected job) (λ r host4 _. refl))))

run_cases-ordinals :
    (e : Engine) (job : SubmissionJob) (cases : List TestCaseRef) (host : Host)
    → Answers e (λ rs. result_ordinals rs ≡ ordinals_of cases) ((run_cases e job cases host).0)
unfolding run_cases
run_cases-ordinals e job [] host = refl
run_cases-ordinals e job (case ∷ cases) host =
    after-Answers e (λ (r : CaseResult). r.ordinal ≡ case.ordinal) _ (run_case e job case host) _
      (run_case-ordinal e job case host)
      (λ r host' same.
        after-Answers e (λ rs. result_ordinals rs ≡ ordinals_of cases) _
          (run_cases e job cases host') _ (run_cases-ordinals e job cases host')
          (λ rs host2 rest. λ i. same i ∷ rest i))

run_stage-IsReport :
    (e : Engine) (job : SubmissionJob) (compiled : ContainerOutcome) (host : Host)
    → Answers e (IsReport job) ((run_stage e job compiled host).0)
run_stage-IsReport e job compiled host = elim (Bool-cases (compile_failed compiled)) [
  | inl failed ↦ rw (failed, run_stage) (refl, inl (refl, refl, refl))
  | inr fine ↦
      rw (fine, run_stage)
        (after-Answers e (λ rs. result_ordinals rs ≡ ordinals_of job.cases) (IsReport job)
          (run_cases e job job.cases host) _ (run_cases-ordinals e job job.cases host)
          (λ rs host' same. (refl, inr (refl, same, summary_iff rs))))
]

-- A job ends with a message of its submission, or with an exception that has a cause: an object
-- that is not in the store, an output that is not base64, or a container that failed without an
-- envelope and was not killed for its memory. The message either says that the compilation failed
-- and has no cases, or it has one result for each case of the job, in their order, and its summary
-- is accepted exactly where every case is.
pub run-IsReport :
    (e : Engine) (job : SubmissionJob) (host : Host) → Answers e (IsReport job) ((run e job host).0)
unfolding run
run-IsReport e job host =
    after-Answers e (λ o. Unit) (IsReport job) (run_container e _ [] _ host) _
      (launched-Answers e _ [] _ host) (λ o host' _. run_stage-IsReport e job o host')
