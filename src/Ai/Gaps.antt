-- ===== src/Ai/Gaps.antt =====
-- Where the parts of the generation do not fit together: bounds that pass the check of a draft and
-- cannot be drawn from, and outputs that the judge cuts before they become expected outputs.
use dsa_platform.Prelude.{ℕ, true, none, some, List, [], ◌∷◌, ◌++◌, ◌≡◌, refl, take, ok, err}
use dsa_platform.Prelude.Int.{negsuc}
use dsa_platform.Judge.Contracts.{Verdict, DiffInputRef, DiffJob}
use dsa_platform.Judge.Compare.{outputs_match}
use dsa_platform.Judge.Differ.{diff_case}
use dsa_platform.Ai.Drafts.{Text, VarKind, InputVar}
use dsa_platform.Ai.Validate.{check_bounds}
use dsa_platform.Ai.Inputs.{Random, RandomError, render_var}
use dsa_platform.Ai.Jobs.{TestCaseGenerationJob, TestCaseUpload, State, Outside}
use dsa_platform.Ai.Factory.{case_key, keep_case}

-- Take an integer variable with a negative greatest value and no least one. The check of its bounds
-- finds nothing, and drawing a value for it raises.
pub render_var_gap :
    (rng : Random) (var : InputVar) (k n : ℕ)
    → var.kind ≡ VarKind.int
    → var.min_value ≡ none
    → var.max_value ≡ some (negsuc k)
    → (check_bounds var ≡ none) × (render_var rng var n ≡ (err RandomError.empty_range, n))
render_var_gap rng var k n kind no_least greatest = rw (kind, no_least, greatest) (refl, refl)

-- Take solutions that agree on an input, in a run that captures what they agree on, and let the
-- calls that keep the case be answered. The two requests that follow put the input as it was stored,
-- and as the expected output the first 2000 bytes of the reference's.
pub keep_case-diff_case :
    (o : Outside) (job : TestCaseGenerationJob) (run : DiffJob) (input : DiffInputRef)
    (reference brute_force stdin : List ℕ) (upload : TestCaseUpload) (s : State)
    → run.capture_agreement_outputs ≡ true
    → outputs_match reference brute_force run.compare_mode ≡ true
    → o.get_object (case_key o job input.ordinal) s ≡ ok stdin
    → o.create_test_case_upload job.org_id job.question_id s ≡ ok upload
    → ((url body : Text) (s : State) → o.put url body s ≡ ok tt)
    → (keep_case o job
        (diff_case run input (Verdict.ac, some reference) (Verdict.ac, some brute_force))
        s).1.puts
      ≡ s.puts
        ++ ((o.in_network_url upload.upload_input_url, stdin) ∷ [])
        ++ ((o.in_network_url upload.upload_output_url, take 2000 reference) ∷ [])
keep_case-diff_case o job run input reference brute_force stdin upload s captured same stored
      uploads answers =
    rw
      (
        same,
        captured,
        stored,
        uploads,
        answers (o.in_network_url upload.upload_input_url) stdin s,
        answers,
      )
      refl
