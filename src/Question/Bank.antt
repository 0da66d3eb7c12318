-- ===== src/Question/Bank.antt =====
-- services/question/app/models and app/repositories: the tables of the question service. Identifiers
-- are numbers; `created_at` is left out, since only listings are ordered by it.
use dsa_platform.Prelude.{ℕ, String, Bool, Option, List, [], ◌∷◌, ◌++◌, ◌==◌, ◌&&◌}
use dsa_platform.Prelude.Table.{first, select, update, remove, max_of, sort_by}
use dsa_platform.Question.Topics.{Topic}

pub data QuestionStatus : Type 0 where
  draft published archived : QuestionStatus

pub record Question : Type 0 where
  pub id : ℕ
  pub org_id : ℕ
  pub status : QuestionStatus
  pub current_version_id : Option ℕ
  pub published_version_id : Option ℕ

-- What an edit may set.
pub record Content : Type 0 where
  pub title : String
  pub statement_md : String
  pub constraints_md : String
  pub difficulty : ℕ
  pub time_limit_ms : ℕ
  pub memory_limit_mb : ℕ
  pub starter_code : List (String × String)

pub record QuestionVersion : Type 0 where
  pub id : ℕ
  pub org_id : ℕ
  pub question_id : ℕ
  pub version_number : ℕ
  pub content : Content

pub record TestCase : Type 0 where
  pub id : ℕ
  pub org_id : ℕ
  pub question_version_id : ℕ
  pub ordinal : ℕ
  pub is_sample : Bool
  pub input_s3_key : String
  pub expected_output_s3_key : String

pub record Store : Type 0 where
  pub questions : List Question
  pub versions : List QuestionVersion
  pub test_cases : List TestCase
  pub question_topics : List (ℕ × ℕ)
  pub topics : List Topic

-- Fresh identifiers, and the texts of the two S3 keys of a new test case.
pub record Fresh : Type 0 where
  pub question : Store → ℕ
  pub version : Store → ℕ
  pub test_case : Store → ℕ
  pub s3_key : ℕ → ℕ → ℕ → ℕ → String → String

-- A domain error, a violated constraint of the database, or a failed assertion.
pub data BankError : Type 0 where
  not_found conflict : String → BankError
  integrity_error : BankError
  assertion_failed : BankError

abbrev pub is_question : ℕ → ℕ → Question → Bool
is_question org_id question_id q = q.id == question_id && q.org_id == org_id

abbrev pub find_question : ℕ → ℕ → Store → Option Question
find_question org_id question_id s = first (is_question org_id question_id) s.questions

abbrev pub is_version : ℕ → ℕ → QuestionVersion → Bool
is_version org_id version_id v = v.id == version_id && v.org_id == org_id

abbrev pub find_version : ℕ → ℕ → Store → Option QuestionVersion
find_version org_id version_id s = first (is_version org_id version_id) s.versions

-- `list_by_version`
abbrev pub list_cases : ℕ → ℕ → Store → List TestCase
list_cases org_id version_id s =
    sort_by (λ (t : TestCase). t.ordinal)
      (select (λ (t : TestCase). t.question_version_id == version_id && t.org_id == org_id)
        s.test_cases)

abbrev pub case_by_ordinal : ℕ → ℕ → ℕ → Store → Option TestCase
case_by_ordinal org_id version_id ordinal s =
    first
      (λ (t : TestCase).
        t.question_version_id == version_id && t.org_id == org_id && t.ordinal == ordinal)
      s.test_cases

abbrev pub find_case : ℕ → ℕ → Store → Option TestCase
find_case org_id case_id s =
    first (λ (t : TestCase). t.id == case_id && t.org_id == org_id) s.test_cases

abbrev pub max_ordinal : ℕ → ℕ → Store → ℕ
max_ordinal org_id version_id s =
    max_of (λ (t : TestCase). t.question_version_id == version_id && t.org_id == org_id)
      (λ (t : TestCase). t.ordinal) s.test_cases

abbrev pub add_question : Question → Store → Store
add_question q s = record s { questions = s.questions ++ (q ∷ []) }

abbrev pub add_version : QuestionVersion → Store → Store
add_version v s = record s { versions = s.versions ++ (v ∷ []) }

abbrev pub add_case : TestCase → Store → Store
add_case t s = record s { test_cases = s.test_cases ++ (t ∷ []) }

abbrev pub delete_case : ℕ → Store → Store
delete_case case_id s = record s {
  test_cases = remove (λ (t : TestCase). t.id == case_id) s.test_cases;
}

-- assignments to the loaded row of a question, and of a version
abbrev pub set_question : ℕ → (Question → Question) → Store → Store
set_question id f s = record s { questions = update (λ (q : Question). q.id == id) f s.questions }

abbrev pub set_version : ℕ → (QuestionVersion → QuestionVersion) → Store → Store
set_version id f s = record s {
  versions = update (λ (v : QuestionVersion). v.id == id) f s.versions;
}

abbrev links_of : ℕ → List ℕ → List (ℕ × ℕ)
links_of question_id [] = []
links_of question_id (t ∷ ts) = (question_id, t) ∷ links_of question_id ts

-- `set_topics`
abbrev pub set_topics : ℕ → List ℕ → Store → Store
set_topics question_id topic_ids s = record s {
  question_topics =
      remove (λ (l : ℕ × ℕ). l.0 == question_id) s.question_topics
      ++ links_of question_id topic_ids;
}
