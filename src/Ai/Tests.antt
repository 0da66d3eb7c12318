-- ===== src/Ai/Tests.antt =====
-- A generation job for a small draft, with services that answer, and the theorems at it.
use dsa_platform.Prelude.{
  ℕ, true, false, none, some, [], ◌∷◌, ◌≡◌, refl, codes, ==_refl, ok, err, arith, List,
}
use dsa_platform.Prelude.Int.{ℤ, pos, negsuc, lt_int}
use dsa_platform.Prelude.Table.{first}
use dsa_platform.Judge.Contracts.{Verdict, DiffInputRef, DiffJob, DiffStatus, DiffResult}
use dsa_platform.Ai.Difficulty.{
  InRange, Moved, DifficultyEvent, ComplexityHint, record_signal, difficulty_steps, current_of,
  record_signal-Moved,
}
use dsa_platform.Ai.Drafts.{Text, DifficultyBand, VarKind, InputVar, GeneratedQuestionDraft}
use dsa_platform.Ai.Inputs.{Random, RandomError, render_var, generate_inputs}
use dsa_platform.Ai.Draws.{IsRandom, Gives, Valid}
use dsa_platform.Ai.RoundTrip.{generate_inputs-Valid}
use dsa_platform.Ai.Jobs.{
  TestCaseGenerationJob, Failure, GenerationJob, State, Outside, Settings, set_job,
}
use dsa_platform.Ai.Generation.{new_job, drafted, diff_job, next_attempt}
use dsa_platform.Ai.Consumer.{process_gen_result}
use dsa_platform.Ai.Effects.{IsUp}
use dsa_platform.Ai.Validate.{check_bounds}
use dsa_platform.Ai.Factory.{new_factory_job, keep_case}
use dsa_platform.Ai.Gaps.{render_var_gap, keep_case-diff_case}
use dsa_platform.Judge.Differ.{diff_case}
use dsa_platform.Judge.Compare.{outputs_match, tokens}
use dsa_platform.Ai.Rounds.{is_settled, drive, IsInFlight}
use dsa_platform.Ai.Settles.{drive-is_settled}
use dsa_platform.Ai.Stranded.{process_gen_result_strands}

abbrev first_element : Text → ℕ
first_element [] = 0
first_element (c ∷ cs) = c

-- the least number, and the first element
abbrev least : Random
least = record { between = λ n lo hi. lo; element = λ n cs. first_element cs }

lt_int_irrefl : (z : ℤ) → lt_int z z ≡ false
lt_int_irrefl (pos n) = ground arith
lt_int_irrefl (negsuc n) = ground arith

least-IsRandom : IsRandom least
least-IsRandom = record {
  within = λ n lo hi h. (lt_int_irrefl lo, h);
  member = λ n c cs. rw (==_refl c) refl;
}

abbrev numbers : InputVar
numbers = record {
  name = codes "numbers";
  kind = VarKind.int_array;
  min_value = some (negsuc 4);
  max_value = some (pos 9);
  length_min = some (pos 2);
  length_max = none;
  charset = [];
}

generate_inputs-Valid_example :
    Gives (Valid (numbers ∷ []) 2) (generate_inputs least (numbers ∷ []) 2 0)
generate_inputs-Valid_example =
    generate_inputs-Valid least least-IsRandom numbers [] 2 0 ((refl, (refl, refl)), tt)

abbrev draft : GeneratedQuestionDraft
draft = record {
  title = codes "Sum";
  statement_md = codes "Add the numbers.";
  constraints_md = [];
  examples = [];
  starter_code = [];
  input_spec = numbers ∷ [];
  difficulty = 1;
}

abbrev quiet : Outside
quiet = record {
  draft_question = λ j s. ok draft;
  generate_solution = λ d r s. ok (codes "print(0)");
  generate_test_cases = λ d a b c s. ok [];
  put_object = λ k b s. ok tt;
  get_object = λ k s. ok [];
  send = λ m s. ok tt;
  create_question = λ q s. ok (record { question_id = 3; version_id = 4 });
  create_test_case_upload = λ i q s. ok (record { upload_input_url = []; upload_output_url = [] });
  put = λ u b s. ok tt;
  poll = λ j s. ok none;
  in_network_url = λ u. u;
  uuid_text = λ i. [];
  random = least;
  new_job = λ s. 1;
  new_test_case_job = λ s. 2;
}

quiet-IsUp : IsUp quiet
quiet-IsUp = record {
  solves = λ d r s. (codes "print(0)", refl);
  stores = λ k b s. refl;
  sends = λ m s. refl;
  creates = λ q s. (record { question_id = 3; version_id = 4 }, refl);
  random = least-IsRandom;
}

abbrev settings : Settings
settings = record {
  generation_input_count = 2;
  generation_max_attempts = 3;
  generation_agreement_threshold = (95, 100);
  testcase_factory_edge_count = 10;
  testcase_factory_adversarial_count = 10;
  testcase_factory_stress_count = 10;
  testcase_factory_sync_case_count = 10;
}

abbrev job : GenerationJob
job = drafted draft (new_job 1 5 8 DifficultyBand.easy [])

abbrev message : DiffJob
message = diff_job job [] [] []

abbrev start : State
start = record {
  generation_jobs = job ∷ [];
  test_case_jobs = [];
  sent = message ∷ [];
  objects = [];
  puts = [];
  created = [];
  draws = 0;
}

-- Half of the inputs agree.
abbrev doubtful : DiffJob → DiffResult
doubtful m = record {
  job_id = m.job_id;
  org_id = m.org_id;
  attempt = m.attempt;
  status = DiffStatus.completed;
  agreement_pct = (1, 2);
  compile_error = none;
  cases = [];
  request_id = none;
}

start-IsInFlight : IsInFlight 5 1 1 start
unfolding first
start-IsInFlight = record {
  job = job;
  row = (refl, refl);
  keys = (refl, refl);
  count = refl;
  draft = draft;
  drafted = refl;
  ready = ((refl, (refl, refl)), tt);
  message = message;
  is_last = refl;
  about = (refl, refl, refl);
}

drive-is_settled_example : is_settled 5 1 (drive quiet settings doubtful 5 1 3 start) ≡ true
drive-is_settled_example =
    drive-is_settled quiet quiet-IsUp settings doubtful (λ m. (refl, refl, refl)) 5 1 1 3 start
      start-IsInFlight (omega arith) (omega arith)

-- the services, with a language model that is down
abbrev model_down : Outside
model_down = record quiet {
  generate_solution = λ d r s. err (Failure.call_failed (codes "overloaded"));
}

process_gen_result_strands_example :
    (process_gen_result model_down settings (doubtful message) start
      ≡ (err (Failure.call_failed (codes "overloaded")), set_job job next_attempt start))
    × (process_gen_result model_down settings (doubtful message) (set_job job next_attempt start)
        ≡ (ok tt, set_job job next_attempt start))
    × ((set_job job next_attempt start).sent ≡ message ∷ [])
unfolding first
process_gen_result_strands_example =
    process_gen_result_strands model_down settings job draft start
      (Failure.call_failed (codes "overloaded")) (doubtful message) (refl, refl) refl
      (refl, refl, refl) refl (omega arith) refl

abbrev debt : InputVar
debt = record numbers { kind = VarKind.int; min_value = none; max_value = some (negsuc 0) }

render_var_gap_example :
    (check_bounds debt ≡ none) × (render_var least debt 4 ≡ (err RandomError.empty_range, 4))
render_var_gap_example = render_var_gap least debt 0 4 refl refl refl

abbrev factory_job : TestCaseGenerationJob
factory_job = new_factory_job 2 5 3 4 1 false

abbrev input_ref : DiffInputRef
input_ref = record { ordinal = 1; input_s3_key = [] }

abbrev capturing : DiffJob
capturing = record message { capture_agreement_outputs = true }

keep_case-diff_case_example :
    (keep_case quiet factory_job
      (diff_case capturing input_ref (Verdict.ac, some (codes "0")) (Verdict.ac, some (codes "0")))
      start).1.puts
    ≡ ([], []) ∷ ([], codes "0") ∷ []
unfolding outputs_match tokens
keep_case-diff_case_example =
    keep_case-diff_case quiet factory_job capturing input_ref (codes "0") (codes "0") []
      (record { upload_input_url = []; upload_output_url = [] }) start refl refl refl refl
      (λ u b s. refl)

abbrev signals : List DifficultyEvent
signals = DifficultyEvent.signal 1 "WA" 90 none ∷ DifficultyEvent.expire 2 ∷ []

record_signal-Moved_example :
    InRange
      ((record_signal 1 "AC" 20 (some ComplexityHint.optimal) (difficulty_steps signals [])).0.0)
    × Moved "AC"
        (current_of 1 (difficulty_steps signals []))
        ((record_signal 1 "AC" 20 (some ComplexityHint.optimal) (difficulty_steps signals [])).0.0)
    × (current_of 1
          ((record_signal 1 "AC" 20 (some ComplexityHint.optimal) (difficulty_steps signals [])).1)
        ≡ (record_signal 1 "AC" 20 (some ComplexityHint.optimal) (difficulty_steps signals [])).0.0)
record_signal-Moved_example = record_signal-Moved signals 1 "AC" 20 (some ComplexityHint.optimal)
