-- ===== src/Question/Versions.antt =====
-- services/question/app/services/questions.py. What a handler changed before it raised is rolled back
-- when its request ends.
use dsa_platform.Prelude.{
  ℕ, suc, ◌+◌, String, Bool, true, false, Option, none, some, List, [], ◌∷◌, ◌==◌, ◌&&◌, ◌||◌, not,
  any, length, opt_eq, if◌then◌else◌, Exec, Result, ok, err, pure, raise, modify_state, raise_if,
  skip, ◌>>=◌, ◌>>◌,
}
use dsa_platform.Prelude.Table.{select}
use dsa_platform.Question.Topics.{Topic}
use dsa_platform.Question.Bank.{
  QuestionStatus, Question, Content, QuestionVersion, TestCase, Store, Fresh, BankError,
  find_question, find_version, list_cases, add_question, add_version, add_case, set_question,
  set_version, set_topics,
}

abbrev pub Handler : Type 0 → Type 0
Handler A = Exec BankError Store A

abbrev pub settled : {A : Type 0} → Store → Result BankError A × Store → Result BankError A × Store
settled s (ok a, s') = (ok a, s')
settled s (err e, s') = (err e, s)

-- a request with its one commit at the end
abbrev pub atomic : {A : Type 0} → Handler A → Handler A
atomic m s = settled s (m s)

abbrev pub or_raise : {A : Type 0} → BankError → Option A → Handler A
or_raise e none = raise e
or_raise e (some a) = pure a

abbrev pub require_question : ℕ → ℕ → Handler Question
require_question org_id question_id s =
    or_raise (BankError.not_found "Question not found") (find_question org_id question_id s) s

abbrev pub version_at : ℕ → Option ℕ → Store → Option QuestionVersion
version_at org_id none s = none
version_at org_id (some id) s = find_version org_id id s

-- `_current_version`, with its two assertions
abbrev pub current_version : Question → Handler QuestionVersion
current_version q s =
    or_raise BankError.assertion_failed (version_at q.org_id q.current_version_id s) s

abbrev pub is_archived : QuestionStatus → Bool
is_archived QuestionStatus.archived = true
is_archived QuestionStatus.draft = false
is_archived QuestionStatus.published = false

abbrev pub reject_archived : String → Question → Handler Unit
reject_archived message q = raise_if (is_archived q.status) (BankError.conflict message)

-- `len(set(ids))`
abbrev pub distinct : List ℕ → ℕ
distinct [] = 0
distinct (x ∷ xs) = let rest = distinct xs in if any (λ y. x == y) xs then rest else suc rest

abbrev pub found_topics : ℕ → List ℕ → Store → List Topic
found_topics org_id topic_ids s =
    select (λ (t : Topic). any (λ i. t.id == i) topic_ids && t.org_id == org_id) s.topics

unfoldable pub validate_topics : ℕ → List ℕ → Handler Unit
validate_topics org_id topic_ids s =
    raise_if (not (length (found_topics org_id topic_ids s) == distinct topic_ids))
      (BankError.not_found "One or more topics not found") s

-- `set_topics`: a link that is inserted twice violates the primary key.
unfoldable pub link_topics : ℕ → List ℕ → Handler Unit
link_topics question_id topic_ids =
    raise_if (not (distinct topic_ids == length topic_ids)) BankError.integrity_error
    >> modify_state (set_topics question_id topic_ids)

-- A row of the current version's cases, on the new version.
abbrev pub copied : Fresh → ℕ → ℕ → TestCase → Store → TestCase
copied f org_id version_id t s = record t {
  id = f.test_case s;
  org_id = org_id;
  question_version_id = version_id;
}

unfoldable pub copy_cases : Fresh → ℕ → ℕ → List TestCase → Store → Store
copy_cases f org_id version_id [] s = s
copy_cases f org_id version_id (t ∷ ts) s =
    copy_cases f org_id version_id ts (add_case (copied f org_id version_id t s) s)

abbrev pub next_version : Fresh → Question → QuestionVersion → Store → QuestionVersion
next_version f q current s = record current {
  id = f.version s;
  org_id = q.org_id;
  question_id = q.id;
  version_number = current.version_number + 1;
}

abbrev pub point_to : ℕ → Question → Question
point_to version_id q = record q { current_version_id = some version_id }

-- the copy of a published version
unfoldable pub fork : Fresh → Question → QuestionVersion → Handler QuestionVersion
fork f q current s =
    let v = next_version f q current s in
    let copies = copy_cases f q.org_id v.id (list_cases q.org_id current.id s) (add_version v s) in
    (ok v, set_question q.id (point_to v.id) copies)

unfoldable pub ensure_mutable_version : Fresh → Question → Handler QuestionVersion
ensure_mutable_version f q = current_version q >>= λ current.
    if not (opt_eq q.current_version_id q.published_version_id)
    then pure current
    else fork f q current

abbrev pub new_question : ℕ → ℕ → Question
new_question id org_id = record {
  id = id;
  org_id = org_id;
  status = QuestionStatus.draft;
  current_version_id = none;
  published_version_id = none;
}

abbrev pub first_version : ℕ → ℕ → ℕ → Content → QuestionVersion
first_version id org_id question_id content = record {
  id = id;
  org_id = org_id;
  question_id = question_id;
  version_number = 1;
  content = content;
}

-- the rows of a new question and of its first version
unfoldable pub insert_question : Fresh → ℕ → Content → Handler QuestionVersion
insert_question f org_id content s =
    let id = f.question s in
    let with_question = add_question (new_question id org_id) s in
    let v = first_version (f.version with_question) org_id id content in
    (ok v, set_question id (point_to v.id) (add_version v with_question))

unfoldable pub create_question : Fresh → ℕ → Content → List ℕ → Handler QuestionVersion
create_question f org_id content topic_ids = atomic (
    validate_topics org_id topic_ids
    >> insert_question f org_id content
    >>= λ (v : QuestionVersion). link_topics v.question_id topic_ids >> pure v)

-- A field of the request: left out, an explicit null, or a value.
pub data Field (A : Type 0) : Type 0 where
  unset : Field A
  null : Field A
  value : A → Field A

-- `version_fields`
pub record Edit : Type 0 where
  pub title : Field String
  pub statement_md : Field String
  pub constraints_md : Field String
  pub difficulty : Field ℕ
  pub time_limit_ms : Field ℕ
  pub memory_limit_mb : Field ℕ
  pub starter_code : Field (List (String × String))

abbrev pub is_unset : {A : Type 0} → Field A → Bool
is_unset Field.unset = true
is_unset Field.null = false
is_unset (Field.value a) = false

abbrev pub is_null : {A : Type 0} → Field A → Bool
is_null Field.unset = false
is_null Field.null = true
is_null (Field.value a) = false

abbrev pub or_old : {A : Type 0} → Field A → A → A
or_old Field.unset old = old
or_old Field.null old = old
or_old (Field.value a) old = a

abbrev pub is_empty : Edit → Bool
is_empty e =
    is_unset e.title
    && is_unset e.statement_md
    && is_unset e.constraints_md
    && is_unset e.difficulty
    && is_unset e.time_limit_ms
    && is_unset e.memory_limit_mb
    && is_unset e.starter_code

abbrev pub has_null : Edit → Bool
has_null e =
    is_null e.title
    || is_null e.statement_md
    || is_null e.constraints_md
    || is_null e.difficulty
    || is_null e.time_limit_ms
    || is_null e.memory_limit_mb
    || is_null e.starter_code

abbrev pub edited : Edit → Content → Content
edited e c = record {
  title = or_old e.title c.title;
  statement_md = or_old e.statement_md c.statement_md;
  constraints_md = or_old e.constraints_md c.constraints_md;
  difficulty = or_old e.difficulty c.difficulty;
  time_limit_ms = or_old e.time_limit_ms c.time_limit_ms;
  memory_limit_mb = or_old e.memory_limit_mb c.memory_limit_mb;
  starter_code = or_old e.starter_code c.starter_code;
}

abbrev pub edit_row : Edit → QuestionVersion → QuestionVersion
edit_row e v = record v { content = edited e v.content }

-- `setattr` for each field; a null violates its column's constraint at the next flush.
unfoldable pub write_fields : Edit → QuestionVersion → Handler QuestionVersion
write_fields e v =
    raise_if (has_null e) BankError.integrity_error
    >> modify_state (set_version v.id (edit_row e))
    >> pure (edit_row e v)

unfoldable pub edit_version : Fresh → Question → Edit → Handler QuestionVersion
edit_version f q e =
    if is_empty e then current_version q else (ensure_mutable_version f q >>= λ v. write_fields e v)

abbrev pub edit_topics : ℕ → ℕ → Option (List ℕ) → Handler Unit
edit_topics org_id question_id none = skip
edit_topics org_id question_id (some topic_ids) =
    validate_topics org_id topic_ids >> link_topics question_id topic_ids

unfoldable pub update_question : Fresh → ℕ → ℕ → Edit → Option (List ℕ) → Handler QuestionVersion
update_question f org_id question_id e topic_ids = atomic (
    require_question org_id question_id >>= λ q.
    reject_archived "Archived questions cannot be edited" q >> edit_version f q e >>= λ v.
    edit_topics org_id q.id topic_ids >> pure v)

abbrev pub publish_row : Question → Question
publish_row q = record q {
  published_version_id = q.current_version_id;
  status = QuestionStatus.published;
}

-- `publish_question` up to its commit
abbrev pub commit_publish : ℕ → ℕ → Handler Question
commit_publish org_id question_id = atomic (
    require_question org_id question_id >>= λ q.
    reject_archived "Archived questions cannot be published" q
    >> raise_if (opt_eq q.current_version_id q.published_version_id)
        (BankError.conflict "Current version is already published")
    >> modify_state (set_question q.id publish_row)
    >> pure q)

-- It reads the version after its commit.
unfoldable pub publish_question : ℕ → ℕ → Handler QuestionVersion
publish_question org_id question_id = commit_publish org_id question_id >>= λ q. current_version q
