-- ===== src/Exam/Sessions/Questions.antt =====
-- The questions of a session that `start_session` opens for a manually scheduled exam.
use mathlib.Core.Path.{subst}
use dsa_platform.Prelude.{
  ℕ, String, ◌≡◌, refl, sym, ◌∙◌, false, none, some, List, [], ◌++◌, Result, ok, err, All, ltb, leb,
  ◌||◌, range_from,
}
use dsa_platform.Exam.Db.{
  Exam, ExamSession, SessionQuestion, BlueprintVersion, Error, World, commit,
}
use dsa_platform.Exam.Submissions.{find_exam}
use dsa_platform.Exam.Sessions.Rows.{Services, find_session}
use dsa_platform.Exam.Sessions.Assign.{assign_from}
use dsa_platform.Exam.Sessions.Handlers.{
  new_session, deadline_of, find_version, list_slots, assign, open_session, begin_session,
  start_session, mirror_to_redis, add_session,
}
use dsa_platform.Exam.Sessions.Frame.{Told-emit_assigned}
use dsa_platform.Exam.Sessions.Numbering.{
  IsSampler, IsAssigned, IsGiven, ordinals, total_questions, assign_from-IsAssigned,
}
use dsa_platform.Exam.Sessions.Starting.{start-begins}

-- A successful start adds `total` questions of the new session, numbered from 1.
abbrev pub Numbered : ℕ → World → Result Error ExamSession × World → Type 0
Numbered total w (err _, _) = Unit
Numbered total w (ok e, w') =
    (qs : List SessionQuestion) × (w'.db.questions ≡ w.db.questions ++ qs)
    × (ordinals qs ≡ range_from 1 total)
    × All (IsGiven e.org_id e.id) qs

open_session-Numbered :
    (now total : ℕ) (e : ExamSession) (w : World) (r : Result Error (List SessionQuestion) × World)
    → IsAssigned e.org_id e.id 1 total (add_session e w) r
    → Numbered total w (open_session now e r)
unfolding open_session
open_session-Numbered now total e w (err x, w') h = tt
open_session-Numbered now total e w (ok qs, w') h =
    let t =
      Told-emit_assigned qs (mirror_to_redis now e (commit w')) (unfold mirror_to_redis in refl) in
    (qs, t.questions ∙ (unfold mirror_to_redis in h.1), h.0, h.2)

begin-Numbered :
    (services : Services) (law : IsSampler services) (now org_id exam_id : ℕ) (email : String)
    (exam : Exam) (v : BlueprintVersion) (w : World)
    → list_slots org_id exam_id w.db ≡ []
    → Numbered
        (total_questions v.topic_mix)
        w
        (begin_session services now org_id exam_id email exam v w)
unfolding begin_session assign list_slots
begin-Numbered services law now org_id exam_id email exam v w unpinned =
    let e =
      new_session (services.new_session_id w.db) org_id exam_id email now
        (deadline_of now v exam) in
    let w' = add_session e w in
    rw (unpinned, begin_session)
      (open_session-Numbered now (total_questions v.topic_mix) e w
        (assign_from services org_id v.id email e.id 1 0 v.topic_mix w')
        (assign_from-IsAssigned services law org_id v.id email e.id 1 0 v.topic_mix w'))

-- Where no session is there, no slot is pinned and the exam's window is open, a successful start
-- writes exactly as many questions as the topic mix of the pinned blueprint version asks for, after
-- those that were there; they belong to the session it answers and to its organisation, have not
-- been shown, and have the ordinals 1, 2, 3 and so on. (A refused start is the subject of `start_outcome`.)
pub start_numbers :
    (services : Services) (law : IsSampler services) (now org_id exam_id : ℕ) (email : String)
    (exam : Exam) (v : BlueprintVersion) (w : World)
    → find_exam org_id exam_id w.db ≡ some exam
    → find_session org_id exam_id w.db ≡ none
    → (ltb now exam.starts_at || leb exam.ends_at now) ≡ false
    → find_version org_id exam.blueprint_version_id w.db ≡ some v
    → list_slots org_id exam_id w.db ≡ []
    → Numbered (total_questions v.topic_mix) w (start_session services now org_id exam_id email w)
start_numbers services law now org_id exam_id email exam v w known absent open_now found unpinned =
    subst (Numbered (total_questions v.topic_mix) w)
      (sym (start-begins services now org_id exam_id email exam w known absent open_now found))
      (begin-Numbered services law now org_id exam_id email exam v w unpinned)
