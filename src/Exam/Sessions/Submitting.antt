-- ===== src/Exam/Sessions/Submitting.antt =====
-- `submit`: after the deadline nothing is accepted, before it the pinned version is graded.
use mathlib.Core.Path.{subst}
use dsa_platform.Prelude.{
  ℕ, ◌≤◌, ◌<◌, String, ◌≡◌, refl, sym, true, false, some, List, [], ◌∷◌, ◌++◌, map, arith, leb,
  ◌==◌, ◌&&◌, ==_refl, ok, err, Result, ◌⊎◌, inl, inr, none, ◌≢◌, Option-cases, Result-cases,
}
use dsa_platform.Prelude.Table.{first-update, select}
use dsa_platform.Exam.Db.{
  Exam, Submission, SubmissionStatus, CaseRef, Error, not_found, ExamSession, SessionStatus,
  SessionQuestion, SubmissionMode, SubmissionJob, submission_job, session_locked, World,
  is_in_progress,
}
use dsa_platform.Exam.Events.{emit}
use dsa_platform.Exam.Submissions.{
  CaseKey, NewSubmission, find_exam, keys_for, create_submission, create_and_enqueue,
}
use dsa_platform.Exam.Sessions.Rows.{Services, find_session, find_question}
use dsa_platform.Exam.Sessions.Handlers.{lock_if_expired, expire, mirror_to_redis, submit}

-- The cases that a submission is run on: the samples for a trial run.
abbrev pub wanted : SubmissionMode → List CaseKey → List CaseKey
wanted SubmissionMode.run keys = select (λ (k : CaseKey). k.is_sample) keys
wanted SubmissionMode.submit keys = keys

abbrev pub same_case : CaseKey → CaseRef
same_case k = record {
  ordinal = k.ordinal;
  input_s3_key = k.input_s3_key;
  expected_output_s3_key = k.expected_output_s3_key;
}

abbrev Kept : List CaseKey → Result Error (List CaseKey) → Type 0
Kept kept r = ((kept ≡ []) × ((x : Error) × (r ≡ err x))) ⊎ ((kept ≢ []) × (r ≡ ok kept))

keys_for-wanted :
    (mode : SubmissionMode) (keys : List CaseKey) → Kept (wanted mode keys) (keys_for mode keys)
unfolding keys_for
keys_for-wanted SubmissionMode.run keys = go (select (λ (k : CaseKey). k.is_sample) keys)
  where
    go :
        (kept : List CaseKey)
        → Kept kept (elim kept [
          | [] ↦ err (not_found "This question has no sample test cases to run")
          | k ∷ rest ↦ ok (k ∷ rest)
        ])
    go [] = inl (refl, (_, refl))
    go (k ∷ rest) = inr ((λ h. absurd (ground arith)), refl)
keys_for-wanted SubmissionMode.submit [] = inl (refl, (_, refl))
keys_for-wanted SubmissionMode.submit (k ∷ rest) = inr ((λ h. absurd (ground arith)), refl)

module _ (services : Services) (now org_id exam_id ordinal : ℕ) (language source : String)
    (mode : SubmissionMode) (w : World) {e : ExamSession}
    (there : find_session org_id exam_id w.db ≡ some e)
    (live : e.status ≡ SessionStatus.in_progress) where
  -- A submission to a session that is in progress and whose deadline has come is refused with
  -- `session_locked`; no submission is stored, and the session is stored, committed, as expired.
  pub submit_too_late :
      e.deadline_at ≤ now
      → let (r, w') = submit services now org_id exam_id ordinal language source mode w in
        (r ≡ err session_locked)
        × (w'.db.submissions ≡ w.db.submissions)
        × (find_session org_id exam_id w'.saved ≡ some (expire e))
  unfolding submit lock_if_expired mirror_to_redis
  submit_too_late late =
      let over : (is_in_progress e.status && leb e.deadline_at now) ≡ true = ground arith in
      let mine = λ (s : ExamSession). s.exam_id == exam_id && s.org_id == org_id in
      rw (there, over, submit)
        (
          refl,
          refl,
          rw
              (
                first-update mine (λ (r : ExamSession). r.id == e.id) expire w.db.sessions
                    (λ a. refl),
                there,
              )
              (rw (==_refl e.id) refl),
        )

  abbrev new_submission : SessionQuestion → NewSubmission
  new_submission q = record {
    org_id = org_id;
    exam_id = exam_id;
    question_version_id = q.question_version_id;
    language = language;
    source = source;
    compare_mode = "whitespace";
    session_id = some e.id;
    ordinal = some ordinal;
    mode = mode;
  }

  lock-early : now < e.deadline_at → lock_if_expired now e w ≡ (e, w)
  unfolding lock_if_expired
  lock-early early =
      let not_over : (is_in_progress e.status && leb e.deadline_at now) ≡ false = ground arith in
      rw not_over

  submit-in_time :
      {q : SessionQuestion}
      → now < e.deadline_at
      → find_question org_id e.id ordinal w.db ≡ some q
      → submit services now org_id exam_id ordinal language source mode w
        ≡ create_and_enqueue services.cases (services.new_submission_id w.db) (new_submission q) w
  unfolding submit
  submit-in_time early asked =
      let open_still : is_in_progress e.status ≡ true = ground arith in
      rw (there, lock-early early, open_still, submit) (rw asked (rw (lock-early early) refl))

  submit-unasked :
      now < e.deadline_at
      → find_question org_id e.id ordinal w.db ≡ none
      → submit services now org_id exam_id ordinal language source mode w
        ≡ (err (not_found "Question not found in this session"), w)
  unfolding submit
  submit-unasked early unasked =
      let open_still : is_in_progress e.status ≡ true = ground arith in
      rw (there, lock-early early, open_still, submit) (rw unasked (rw (lock-early early) refl))

  -- Why a submission in time is refused: no such question, exam or answer of the question service, or
  -- no case to run it on.
  abbrev pub IsRefused : Type 0
  IsRefused =
      (find_question org_id e.id ordinal w.db ≡ none)
      ⊎ (find_exam org_id exam_id w.db ≡ none)
      ⊎ ((q : SessionQuestion) × (find_question org_id e.id ordinal w.db ≡ some q)
          × ((x : Error) × (services.cases org_id q.question_version_id ≡ err x)))
      ⊎ ((q : SessionQuestion) × (find_question org_id e.id ordinal w.db ≡ some q)
          × ((keys : List CaseKey) × (services.cases org_id q.question_version_id ≡ ok keys)
              × (wanted mode keys ≡ [])))

  -- The row of an accepted submission for a question, and the job for the judge.
  abbrev pub row_for : SessionQuestion → Submission
  row_for q = record {
    id = services.new_submission_id w.db;
    org_id = org_id;
    exam_id = exam_id;
    session_id = some e.id;
    ordinal = some ordinal;
    question_version_id = q.question_version_id;
    language = language;
    source = source;
    compare_mode = "whitespace";
    mode = mode;
    status = SubmissionStatus.queued;
    summary_verdict = none;
    compile_error = none;
  }

  abbrev pub job_for : List CaseKey → SubmissionJob
  job_for keys = record {
    submission_id = services.new_submission_id w.db;
    org_id = org_id;
    language = language;
    source = source;
    compare_mode = "whitespace";
    time_ms = 2000;
    memory_mb = 256;
    cases = map same_case (wanted mode keys);
  }

  abbrev pub SubmitOutcome : Result Error Submission × World → Type 0
  SubmitOutcome (err x, w') = (w' ≡ w) × IsRefused
  SubmitOutcome (ok s, w') =
      (q : SessionQuestion) × (keys : List CaseKey) × (find_question org_id e.id ordinal w.db
        ≡ some q)
      × (services.cases org_id q.question_version_id ≡ ok keys)
      × (wanted mode keys ≢ [])
      × (s ≡ row_for q)
      × (w'.db.submissions ≡ w.db.submissions ++ s ∷ [])
      × (w'.saved ≡ w'.db)
      × (w'.sent ≡ w.sent ++ submission_job (job_for keys) ∷ [])

  created-SubmitOutcome :
      (q : SessionQuestion) (exam : Exam) (keys : List CaseKey)
      → find_question org_id e.id ordinal w.db ≡ some q
      → find_exam org_id exam_id w.db ≡ some exam
      → services.cases org_id q.question_version_id ≡ ok keys
      → SubmitOutcome
          (create_and_enqueue services.cases (services.new_submission_id w.db) (new_submission q) w)
  unfolding create_and_enqueue emit create_submission
  created-SubmitOutcome q exam keys asked known listed = elim (keys_for-wanted mode keys) [
    | inl (nothing, (x, refused)) ↦
        rw (known, listed, refused, create_and_enqueue)
          (refl, inr (inr (inr (q, asked, (keys, listed, nothing)))))
    | inr (something, chosen) ↦
        rw (known, listed, chosen, create_and_enqueue)
          (q, keys, asked, listed, something, refl, refl, refl, refl)
  ]

  -- A submission to a session in progress before its deadline is refused, with nothing changed, only
  -- if the question is not assigned, the exam is gone, the question service fails, or there is no
  -- case to run; else a queued submission of the session with the assigned version, the language and
  -- the source is stored and committed, and the judge is sent exactly one job for it: for the sample
  -- cases if it is a trial run and for all cases else, with 2000 ms and 256 MB.
  pub submit_in_time :
      now < e.deadline_at
      → SubmitOutcome (submit services now org_id exam_id ordinal language source mode w)
  submit_in_time early = elim (Option-cases (find_question org_id e.id ordinal w.db)) [
    | inl unasked ↦ subst SubmitOutcome (sym (submit-unasked early unasked)) (refl, inl unasked)
    | inr (q, asked) ↦
        subst SubmitOutcome (sym (submit-in_time early asked))
          (elim (Option-cases (find_exam org_id exam_id w.db)) [
            | inl unknown ↦
                unfold create_and_enqueue in
                rw (unknown, create_and_enqueue) (refl, inr (inl unknown))
            | inr (exam, known) ↦
                elim (Result-cases (services.cases org_id q.question_version_id)) [
                  | inl (x, failed) ↦
                      unfold create_and_enqueue in
                      rw (known, failed, create_and_enqueue)
                        (refl, inr (inr (inl (q, asked, (x, failed)))))
                  | inr (keys, listed) ↦ created-SubmitOutcome q exam keys asked known listed
                ]
          ])
  ]
