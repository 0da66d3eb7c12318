-- ===== src/Judge/Agreement.antt =====
-- What the result of a differential run says of its job.
use dsa_platform.Prelude.{
  ℕ, ◌≤◌, true, none, some, List, [], ◌∷◌, ◌≡◌, ◌≢◌, ◌⊎◌, map, length, ◌↔◌, ok,
}
use dsa_platform.Judge.Contracts.{
  Verdict, DiffInputRef, DiffJob, DiffCaseResult, DiffStatus, DiffResult,
}
use dsa_platform.Judge.Sandbox.{Text}
use dsa_platform.Judge.Runner.{Engine, Host, ContainerOutcome}
use dsa_platform.Prelude.Table.{select}
use dsa_platform.Judge.Sides.{Match}
use dsa_platform.Judge.Differ.{run_side}

-- A case that agrees ran cleanly on both sides, and the brute force's output is not kept.
abbrev pub Agreed : DiffCaseResult → Type 0
Agreed c =
    c.agree ≡ true
    → (c.reference_verdict ≡ Verdict.ac)
      × (c.brute_force_verdict ≡ Verdict.ac)
      × (c.brute_force_output ≡ none)

abbrev pub diff_ordinals : List DiffCaseResult → List ℕ
diff_ordinals cs = map (λ (c : DiffCaseResult). c.ordinal) cs

abbrev pub input_ordinals : List DiffInputRef → List ℕ
input_ordinals is = map (λ (i : DiffInputRef). i.ordinal) is

-- A case as it is compared: both sides were run on the input's content, and they agree exactly
-- where both ended by themselves, in their limits and with exit code 0, and printed matching outputs.
abbrev pub IsCompared : Engine → Text → Text → DiffJob → DiffInputRef → DiffCaseResult → Type 0
IsCompared e ref_dir bf_dir job input c =
    (c.ordinal ≡ input.ordinal)
    × Agreed c
    × ((stdin : List ℕ) × (ref : ContainerOutcome) × (bf : ContainerOutcome) × (h1 : Host)
        × (h2 : Host) × (e.get_object input.input_s3_key ≡ some stdin)
        × ((run_side e job ref_dir "ref" input stdin h1).0 ≡ ok ref)
        × ((run_side e job bf_dir "bf" input stdin h2).0 ≡ ok bf)
        × ((c.agree ≡ true) ↔ Match e job.compare_mode ref bf))

abbrev pub AreCompared :
    Engine → Text → Text → DiffJob → List DiffInputRef → List DiffCaseResult → Type 0
AreCompared e ref_dir bf_dir job [] [] = Unit
AreCompared e ref_dir bf_dir job (input ∷ inputs) (c ∷ cases) =
    IsCompared e ref_dir bf_dir job input c × AreCompared e ref_dir bf_dir job inputs cases
AreCompared e ref_dir bf_dir job _ _ = ⊥

-- The share of the cases that agree, and 0 without inputs.
abbrev pub IsShare : List DiffInputRef → List DiffCaseResult → ℕ × ℕ → Type 0
IsShare [] cases share = share ≡ (0, 1)
IsShare (input ∷ inputs) cases share =
    (share.0 ≡ length (select (λ (c : DiffCaseResult). c.agree) cases))
    × (share.1 ≡ length (input ∷ inputs))
    × (share.0 ≤ share.1)

-- The results on a list of inputs.
abbrev OnInputs : Engine → Text → Text → DiffJob → List DiffInputRef → List DiffCaseResult → Type 0
OnInputs e ref_dir bf_dir job inputs cs =
    (diff_ordinals cs ≡ input_ordinals inputs) × AreCompared e ref_dir bf_dir job inputs cs

-- A differential run's result: a side that does not compile, or a comparison on every input.
abbrev pub IsDiff : Engine → Text → Text → DiffJob → DiffResult → Type 0
IsDiff e ref_dir bf_dir job r =
    ((r.status ≢ DiffStatus.completed) × (r.cases ≡ []) × (r.agreement_pct ≡ (0, 1)))
    ⊎ ((r.status ≡ DiffStatus.completed)
        × (diff_ordinals r.cases ≡ input_ordinals job.inputs)
        × AreCompared e ref_dir bf_dir job job.inputs r.cases
        × IsShare job.inputs r.cases r.agreement_pct)
