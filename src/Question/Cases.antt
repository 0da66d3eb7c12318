-- ===== src/Question/Cases.antt =====
-- services/question/app/services/test_cases.py
use dsa_platform.Prelude.{
  ℕ, ◌+◌, Bool, Option, none, some, ◌==◌, not, is_some, opt_eq, if◌then◌else◌, ok, pure,
  modify_state, raise_if, ◌>>=◌, ◌>>◌,
}
use dsa_platform.Question.Bank.{
  Question, QuestionVersion, TestCase, Store, Fresh, BankError, case_by_ordinal, find_case,
  max_ordinal, add_case, delete_case,
}
use dsa_platform.Question.Versions.{
  Handler, atomic, or_raise, require_question, reject_archived, ensure_mutable_version,
}

-- `_require_question`
abbrev pub require_open : ℕ → ℕ → Handler Question
require_open org_id question_id = require_question org_id question_id >>= λ q.
    reject_archived "Archived questions cannot be edited" q >> pure q

-- the next free ordinal, or the one that was asked for
abbrev pub choose_ordinal : ℕ → ℕ → Option ℕ → Handler ℕ
choose_ordinal org_id version_id none s = (ok (max_ordinal org_id version_id s + 1), s)
choose_ordinal org_id version_id (some n) s =
    (raise_if (is_some (case_by_ordinal org_id version_id n s))
          (BankError.conflict "Ordinal already exists on this version")
        >> pure n)
      s

abbrev pub new_case : Fresh → ℕ → ℕ → QuestionVersion → ℕ → Bool → Store → TestCase
new_case f org_id question_id v ordinal is_sample s =
    let id = f.test_case s in
    record {
      id = id;
      org_id = org_id;
      question_version_id = v.id;
      ordinal = ordinal;
      is_sample = is_sample;
      input_s3_key = f.s3_key org_id question_id v.version_number id "input";
      expected_output_s3_key = f.s3_key org_id question_id v.version_number id "output";
    }

unfoldable pub insert_case : Fresh → ℕ → ℕ → QuestionVersion → ℕ → Bool → Handler TestCase
insert_case f org_id question_id v ordinal is_sample s =
    let t = new_case f org_id question_id v ordinal is_sample s in (ok t, add_case t s)

unfoldable pub create_test_case : Fresh → ℕ → ℕ → Option ℕ → Bool → Handler TestCase
create_test_case f org_id question_id ordinal is_sample = atomic (
    require_open org_id question_id >>= λ q. ensure_mutable_version f q >>= λ (v : QuestionVersion).
    choose_ordinal org_id v.id ordinal >>= λ n. insert_case f org_id question_id v n is_sample)

abbrev pub not_on_current : BankError
not_on_current = BankError.not_found "Test case not found on the current version"

abbrev pub require_case : ℕ → ℕ → Question → Handler TestCase
require_case org_id case_id q s =
    (or_raise not_on_current (find_case org_id case_id s) >>= λ (t : TestCase).
    raise_if (not (opt_eq (some t.question_version_id) q.current_version_id)) not_on_current
    >> pure t)
      s

-- After a copy the row to delete is the copy, found by its ordinal.
abbrev pub row_to_delete : ℕ → QuestionVersion → TestCase → Handler TestCase
row_to_delete org_id v t s =
    if v.id == t.question_version_id
    then (ok t, s)
    else or_raise BankError.assertion_failed (case_by_ordinal org_id v.id t.ordinal s) s

unfoldable pub delete_test_case : Fresh → ℕ → ℕ → ℕ → Handler Unit
delete_test_case f org_id question_id case_id = atomic (
    require_open org_id question_id >>= λ q. require_case org_id case_id q >>= λ t.
    ensure_mutable_version f q >>= λ v.
    row_to_delete org_id v t >>= λ (row : TestCase). modify_state (delete_case row.id))
