-- ===== src/Judge/Launches.antt =====
-- Which commands the judge gives to docker.
use dsa_platform.Prelude.{
  ℕ, false, List, [], ◌∷◌, ◌++◌, ◌≡◌, refl, ◌⊎◌, inl, inr, codes, All, Result, ok, err, Bool-cases,
  after, ◌>>=◌, ◌+◌, max,
}
use dsa_platform.Judge.Contracts.{Language, SubmissionJob, TestCaseRef}
use dsa_platform.Judge.Sandbox.{Text, SandboxSpec, build_run_command}
use dsa_platform.Prelude.Decimal.{decimal}
use dsa_platform.Judge.Contained.{IsPlain, Held, container_of, build_run_command-Held}
use dsa_platform.Judge.Runner.{
  Engine, Host, Process, Settings, Job, image_for, launch, run_container, killed, fetch, run_case,
  run_cases, run_stage, run, compile_spec, run_spec, JudgeError, lift, compile_failed,
  ContainerOutcome, verdict_for_case,
}

-- A container that a job of the judge may ask for: on the job's directory, with the image of its
-- language and its limit of processes; to run, with the job's memory and a mount that is read-only,
-- or to compile, with 512 MB at least.
abbrev pub IsForJob : Engine → SubmissionJob → SandboxSpec → Type 0
IsForJob e job spec =
    (spec.image ≡ image_for e.settings job.language)
    × (spec.artifact_dir ≡ e.workdir job.submission_id)
    × (spec.pids_limit ≡ job.limits.pids)
    × (((spec.writable_artifact ≡ false) × (spec.memory_mb ≡ job.limits.memory_mb))
        ⊎ ((spec.memory_mb ≡ max job.limits.memory_mb 512)
            × ((rest : List Text) × (spec.argv ≡ codes "compile" ∷ rest))))

-- A command that kills a container by its name, or one that runs a container of the job which docker
-- holds to the limits.
abbrev pub IsSafe : Engine → SubmissionJob → List Text → Type 0
IsSafe e job words =
    ((name : Text) × (words ≡ codes "docker" ∷ codes "kill" ∷ name ∷ []))
    ⊎ ((spec : SandboxSpec) × (words ≡ build_run_command spec)
        × Held spec (container_of words)
        × IsForJob e job spec)

abbrev pub AllSafe : Engine → SubmissionJob → Host → Type 0
AllSafe e job host = All (IsSafe e job) host

abbrev pub ArePlain : Settings → Type 0
ArePlain s = IsPlain s.image_python × IsPlain s.image_java × IsPlain s.image_cpp

image_for-IsPlain : (s : Settings) (l : Language) → ArePlain s → IsPlain (image_for s l)
image_for-IsPlain s Language.python h = h.0
image_for-IsPlain s Language.java h = h.1
image_for-IsPlain s Language.cpp h = h.2

killed-AllSafe :
    (e : Engine) (job : SubmissionJob) (spec : SandboxSpec) (p : Process) (host : Host)
    → AllSafe e job host
    → AllSafe e job (killed spec p host)
killed-AllSafe e job spec Process.timeout_expired host h = (inl (spec.name, refl), h)
killed-AllSafe e job spec (Process.exited code stdout) host h = h

launch-AllSafe :
    (e : Engine) (job : SubmissionJob) (spec : Host → SandboxSpec) (stdin : List ℕ) (wall : ℕ)
    (host : Host)
    → IsPlain (spec host).image
    → IsForJob e job (spec host)
    → AllSafe e job host
    → AllSafe e job ((launch e spec stdin wall host).1)
unfolding run_container
launch-AllSafe e job spec stdin wall host plain mine h =
    killed-AllSafe e job (spec host) (e.docker (build_run_command (spec host) ∷ host) stdin wall)
      (build_run_command (spec host) ∷ host)
      (inr (spec host, refl, build_run_command-Held (spec host) plain, mine), h)

-- A computation that launches safe commands only.
abbrev Keeps : {A : Type 0} → Engine → SubmissionJob → Job A → Type 0
Keeps e job m = (host : Host) → AllSafe e job host → AllSafe e job ((m host).1)

after-AllSafe :
    {A B : Type 0} (e : Engine) (job : SubmissionJob) (r : Result JudgeError A × Host)
    (k : A → Job B)
    → AllSafe e job (r.1)
    → ((a : A) → Keeps e job (k a))
    → AllSafe e job ((after r k).1)
after-AllSafe e job (ok a, host) k h keeps = keeps a host h
after-AllSafe e job (err x, host) k h keeps = h

Keeps-then :
    {A B : Type 0} (e : Engine) (job : SubmissionJob) (m : Job A) (k : A → Job B)
    → Keeps e job m
    → ((a : A) → Keeps e job (k a))
    → Keeps e job (m >>= k)
Keeps-then e job m k first_part rest host h =
    after-AllSafe e job (m host) k (first_part host h) rest

run_case-Keeps :
    (e : Engine) (job : SubmissionJob) (case : TestCaseRef)
    → ArePlain e.settings
    → Keeps e job (run_case e job case)
unfolding run_case
run_case-Keeps e job case plain host h =
    after-AllSafe e job (fetch e case.input_s3_key host) _ h (λ stdin host' h'.
      after-AllSafe e job (fetch e case.expected_output_s3_key host') _ h' (λ expected host2 h2.
        let spec =
          run_spec e job.submission_id (e.workdir job.submission_id) job.language job.limits
            (codes "run-" ++ decimal case.ordinal) in
        let wall = job.limits.time_ms + e.settings.wall_grace_ms in
        after-AllSafe e job (launch e spec stdin wall host2) _
          (launch-AllSafe e job spec stdin wall host2
            (image_for-IsPlain e.settings job.language plain) (refl, refl, refl, inl (refl, refl))
            h2)
          (λ outcome host3 h3.
            after-AllSafe e job (lift (verdict_for_case e outcome expected job) host3) _ h3
              (λ result host4 h4. h4))))

run_cases-Keeps :
    (e : Engine) (job : SubmissionJob) (cases : List TestCaseRef)
    → ArePlain e.settings
    → Keeps e job (run_cases e job cases)
unfolding run_cases
run_cases-Keeps e job [] plain = λ host h. h
run_cases-Keeps e job (case ∷ cases) plain =
    Keeps-then e job (run_case e job case) _ (run_case-Keeps e job case plain) (λ result.
      Keeps-then e job (run_cases e job cases) _ (run_cases-Keeps e job cases plain)
        (λ results host h. h))

run_stage-Keeps :
    (e : Engine) (job : SubmissionJob) (compiled : ContainerOutcome)
    → ArePlain e.settings
    → Keeps e job (run_stage e job compiled)
run_stage-Keeps e job compiled plain = elim (Bool-cases (compile_failed compiled)) [
  | inl failed ↦ rw (failed, run_stage) (λ host h. h)
  | inr fine ↦
      rw (fine, run_stage)
        (Keeps-then e job (run_cases e job job.cases) _ (run_cases-Keeps e job job.cases plain)
          (λ results host h. h))
]

-- For images whose names do not look like options, a job launches safe commands only, however it
-- ends: kills by name, and containers of the job that docker holds to the sandbox's limits: on the
-- job's directory, with its limit of processes, and either with its memory and a read-only mount or,
-- to compile, with 512 MB at least.
pub run-AllSafe :
    (e : Engine) (job : SubmissionJob) (host : Host)
    → ArePlain e.settings
    → AllSafe e job host
    → AllSafe e job ((run e job host).1)
unfolding run
run-AllSafe e job host plain h =
    let spec =
      compile_spec e job.submission_id (e.workdir job.submission_id) job.language job.limits
        (codes "compile") in
    let wall = e.settings.wall_grace_ms + 20000 in
    after-AllSafe e job (launch e spec [] wall host) _
      (launch-AllSafe e job spec [] wall host (image_for-IsPlain e.settings job.language plain)
        (refl, refl, refl, inr (refl, (_, refl))) h)
      (λ compiled. run_stage-Keeps e job compiled plain)
