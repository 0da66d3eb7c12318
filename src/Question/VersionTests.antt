-- ===== src/Question/VersionTests.antt =====
-- A bank with one question whose draft is published, and the theorem about publications at it.
use dsa_platform.Prelude.{◌≡◌, refl, true, none, some, [], ◌∷◌, ◌==◌, ◌+◌, arith}
use dsa_platform.Prelude.Table.{first, max_of, update}
use dsa_platform.Prelude.Keyed.{first_above, IsKeyed}
use dsa_platform.Question.Bank.{QuestionStatus, Question, QuestionVersion, TestCase, Store, Fresh}
use dsa_platform.Question.Versions.{Field, Edit, publish_question, publish_row}
use dsa_platform.Question.Requests.{Request}
use dsa_platform.Question.Frozen.{IsFresh}
use dsa_platform.Question.Outcome.{IsOwned, IsUnchanged, publish_question-PublishOutcome}

-- The next number is new.
abbrev numbers : Fresh
numbers = record {
  question = λ s. max_of (λ q. true) (λ (q : Question). q.id) s.questions + 1;
  version = λ s. max_of (λ v. true) (λ (v : QuestionVersion). v.id) s.versions + 1;
  test_case = λ s. max_of (λ t. true) (λ (t : TestCase). t.id) s.test_cases + 1;
  s3_key = λ org_id question_id version_number id name. name;
}

numbers-IsFresh : IsFresh numbers
numbers-IsFresh s = (
  first_above (λ (v : QuestionVersion). v.id) _ s.versions (ground arith),
  first_above (λ (t : TestCase). t.id) _ s.test_cases (ground arith),
)

abbrev two_sum : QuestionVersion
two_sum = record {
  id = 7;
  org_id = 5;
  question_id = 1;
  version_number = 1;
  content = record {
    title = "Two sum";
    statement_md = "Find the pair.";
    constraints_md = "";
    difficulty = 2;
    time_limit_ms = 2000;
    memory_limit_mb = 256;
    starter_code = [];
  };
}

abbrev row : Question
row = record {
  id = 1;
  org_id = 5;
  status = QuestionStatus.draft;
  current_version_id = some 7;
  published_version_id = none;
}

abbrev sample : TestCase
sample = record {
  id = 9;
  org_id = 5;
  question_version_id = 7;
  ordinal = 1;
  is_sample = true;
  input_s3_key = "in";
  expected_output_s3_key = "out";
}

abbrev bank : Store
bank = record {
  questions = row ∷ [];
  versions = two_sum ∷ [];
  test_cases = sample ∷ [];
  question_topics = [];
  topics = [];
}

abbrev retitled : Edit
retitled = record {
  title = Field.value "Pairs";
  statement_md = Field.unset;
  constraints_md = Field.unset;
  difficulty = Field.unset;
  time_limit_ms = Field.unset;
  memory_limit_mb = Field.unset;
  starter_code = Field.unset;
}

bank-IsOwned : IsOwned bank row
unfolding first
bank-IsOwned c current =
    let same : 7 ≡ c = ground arith in
    let hit : (7 == c) ≡ true = ground arith in (two_sum, rw hit refl, refl)

bank-IsKeyed : IsKeyed (λ (t : TestCase). t.id) bank.test_cases
unfolding first
bank-IsKeyed = (refl, tt)

publish_question-PublishOutcome_example :
    IsUnchanged numbers
      (Request.edit 5 1 retitled none ∷ [])
      two_sum
      (record bank { questions = publish_row row ∷ [] })
unfolding publish_question first update
publish_question-PublishOutcome_example =
    publish_question-PublishOutcome numbers numbers-IsFresh bank (bank-IsOwned, tt) bank-IsKeyed
      (Request.edit 5 1 retitled none ∷ []) 5 1
