-- ===== src/Question/Requests.antt =====
-- The requests that change questions, and what a publication means for all that follow it.
use dsa_platform.Prelude.{ℕ, Bool, Option, List, [], ◌∷◌, Result, ok, err}
use dsa_platform.Question.Bank.{Content, QuestionVersion, TestCase, Store, Fresh, BankError}
use dsa_platform.Question.Versions.{create_question, Edit, update_question, publish_question}
use dsa_platform.Question.Cases.{create_test_case, delete_test_case}
use dsa_platform.Question.Frozen.{IsFresh, IsFrozen}
use dsa_platform.Question.Kept.{After, Any}
use dsa_platform.Question.Published.{
  create_question-Holds, update_question-Holds, publish_question-Holds, create_test_case-Holds,
  delete_test_case-Holds,
}

-- What examiners, and the other services over the internal routes, ask for.
pub data Request : Type 0 where
  create : ℕ → Content → List ℕ → Request
  edit : ℕ → ℕ → Edit → Option (List ℕ) → Request
  publish : ℕ → ℕ → Request
  add_case : ℕ → ℕ → Option ℕ → Bool → Request
  remove_case : ℕ → ℕ → ℕ → Request

unfoldable pub serve : Fresh → Request → Store → Store
serve f (Request.create org_id content topic_ids) s =
    (create_question f org_id content topic_ids s).1
serve f (Request.edit org_id question_id e topic_ids) s =
    (update_question f org_id question_id e topic_ids s).1
serve f (Request.publish org_id question_id) s = (publish_question org_id question_id s).1
serve f (Request.add_case org_id question_id n is_sample) s =
    (create_test_case f org_id question_id n is_sample s).1
serve f (Request.remove_case org_id question_id case_id) s =
    (delete_test_case f org_id question_id case_id s).1

unfoldable pub serve_all : Fresh → List Request → Store → Store
serve_all f [] s = s
serve_all f (r ∷ rs) s = serve_all f rs (serve f r s)

module _ (f : Fresh) (fresh : IsFresh f) (vid : ℕ) (v : QuestionVersion) (cs : List TestCase) where
  After-IsFrozen :
      {A : Type 0} (r : Result BankError A × Store)
      → After f fresh vid v cs (Any f fresh vid v cs) r
      → IsFrozen vid v cs (r.1)
  After-IsFrozen (ok a, s) h = h.0
  After-IsFrozen (err e, s) h = h

  serve-IsFrozen : (r : Request) (s : Store) → IsFrozen vid v cs s → IsFrozen vid v cs (serve f r s)
  unfolding serve
  serve-IsFrozen (Request.create org_id content topic_ids) s h =
      After-IsFrozen _ ((create_question-Holds f fresh vid v cs org_id content topic_ids).run s h)
  serve-IsFrozen (Request.edit org_id question_id e topic_ids) s h =
      After-IsFrozen _
        ((update_question-Holds f fresh vid v cs org_id question_id e topic_ids).run s h)
  serve-IsFrozen (Request.publish org_id question_id) s h =
      After-IsFrozen _ ((publish_question-Holds f fresh vid v cs org_id question_id).run s h)
  serve-IsFrozen (Request.add_case org_id question_id n is_sample) s h =
      After-IsFrozen _
        ((create_test_case-Holds f fresh vid v cs org_id question_id n is_sample).run s h)
  serve-IsFrozen (Request.remove_case org_id question_id case_id) s h =
      After-IsFrozen _
        ((delete_test_case-Holds f fresh vid v cs org_id question_id case_id).run s h)

  pub serve_all-IsFrozen :
      (rs : List Request) (s : Store) → IsFrozen vid v cs s → IsFrozen vid v cs (serve_all f rs s)
  unfolding serve_all
  serve_all-IsFrozen [] s h = h
  serve_all-IsFrozen (r ∷ rs) s h = serve_all-IsFrozen rs (serve f r s) (serve-IsFrozen r s h)
