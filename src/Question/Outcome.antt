-- ===== src/Question/Outcome.antt =====
-- What a publication means for all that follow it.
use mathlib.Core.Path.{subst}
use dsa_platform.Prelude.{
  ℕ, Bool, true, false, Option, none, some, List, ◌≡◌, refl, sym, ap, ◌∙◌, inl, inr, ◌==◌, ==_iff,
  Option-cases, All, arith, opt_eq, Result, ok, err, after, raise_if, pure, modify_state, ◌>>◌,
  and_both, ◌⊎◌,
}
use dsa_platform.Prelude.Table.{first_sound}
use dsa_platform.Prelude.Keyed.{IsKeyed}
use dsa_platform.Prelude.Removal.{first-All, All-update_where}
use dsa_platform.Question.Bank.{
  Question, QuestionVersion, TestCase, Store, Fresh, BankError, find_question, is_question,
  is_version, set_question,
}
use dsa_platform.Question.Versions.{
  settled, or_raise, version_at, current_version, is_archived, publish_row, commit_publish,
  publish_question,
}
use dsa_platform.Question.Frozen.{IsFresh, IsSealed, version_row, case_rows}
use dsa_platform.Question.Requests.{Request, serve_all, serve_all-IsFrozen}

-- A question's current version is in its table, and belongs to it.
abbrev pub IsOwned : Store → Question → Type 0
IsOwned s q =
    (c : ℕ)
    → q.current_version_id ≡ some c
    → (u : QuestionVersion) × (version_row c s ≡ some u) × (u.question_id ≡ q.id)

-- The requests leave the version's row and its test cases as they are.
abbrev pub IsUnchanged : Fresh → List Request → QuestionVersion → Store → Type 0
IsUnchanged f rs u s =
    (version_row u.id (serve_all f rs s) ≡ version_row u.id s)
    × (case_rows u.id (serve_all f rs s) ≡ case_rows u.id s)

-- A successful publication, or a failed one.
abbrev pub PublishOutcome :
    Fresh → List Request → Store → Result BankError QuestionVersion × Store → Type 0
PublishOutcome f rs s (ok u, s') = IsUnchanged f rs u s'
PublishOutcome f rs s (err e, s') = (s' ≡ s) ⊎ (e ≡ BankError.assertion_failed)

-- A commit that went through stamps the question that was found.
abbrev Stamped : ℕ → ℕ → Store → Result BankError Question × Store → Type 0
Stamped org_id question_id s (ok q, s') =
    (find_question org_id question_id s ≡ some q) × (s' ≡ set_question q.id publish_row s)
Stamped org_id question_id s (err e, s') = s' ≡ s

guards-Stamped :
    (org_id question_id : ℕ) (q : Question) (s : Store) (archived closed : Bool) (e e' : BankError)
    → find_question org_id question_id s ≡ some q
    → Stamped org_id question_id s (
        settled s (
          (raise_if archived e
              >> raise_if closed e'
              >> modify_state (set_question q.id publish_row)
              >> pure q)
            s))
guards-Stamped org_id question_id q s true closed e e' found = refl
guards-Stamped org_id question_id q s false true e e' found = refl
guards-Stamped org_id question_id q s false false e e' found = (found, refl)

commit_publish-Stamped :
    (org_id question_id : ℕ) (s : Store)
    → Stamped org_id question_id s (commit_publish org_id question_id s)
commit_publish-Stamped org_id question_id s =
    elim (Option-cases (find_question org_id question_id s)) [
      | inl absent ↦ rw absent refl
      | inr (q, found) ↦ rw found (
          guards-Stamped org_id question_id q s (is_archived q.status)
            (opt_eq q.current_version_id q.published_version_id) _ _ found)
    ]

-- Where the stamped question's current version is the one in question, no question may change it.
stamped-IsSealed :
    (s : Store) (q : Question) (c : ℕ)
    → q.current_version_id ≡ some c
    → IsOwned s q
    → All (IsOwned s) s.questions
    → All (IsSealed c) (set_question q.id publish_row s).questions
stamped-IsSealed s q c current owned all_owned =
    All-update_where (IsOwned s) (IsSealed c) _ publish_row s.questions (λ a _ _ points. points)
      (λ a a_owned other points.
        let (u, u_there, u_owner) = owned c current in
        let (w, w_there, w_owner) = a_owned c points in
        absurd (ground (arith, u_there, w_there, u_owner, w_owner)))
      all_owned

-- A version that was read by its number has that number.
version_at-id :
    (org_id : ℕ) (o : Option ℕ) (u : QuestionVersion) (s : Store)
    → version_at org_id o s ≡ some u
    → o ≡ some u.id
version_at-id org_id none u s found = absurd (ground arith)
version_at-id org_id (some id) u s found =
    let hit =
      and_both (u.id == id) (u.org_id == org_id)
        (first_sound (is_version org_id id) s.versions found) in
    ap some (sym ((==_iff u.id id).0 hit.0))

asserted-PublishOutcome :
    (f : Fresh) (rs : List Request) (s s' : Store) (o : Option QuestionVersion)
    → ((u : QuestionVersion) → o ≡ some u → IsUnchanged f rs u s')
    → PublishOutcome f rs s (or_raise BankError.assertion_failed o s')
asserted-PublishOutcome f rs s s' none kept = inr refl
asserted-PublishOutcome f rs s s' (some u) kept = kept u refl

module _ (f : Fresh) (fresh : IsFresh f) (s : Store) (all_owned : All (IsOwned s) s.questions) where
  module _ (keyed : IsKeyed (λ (t : TestCase). t.id) s.test_cases) (rs : List Request) where
    stamped-IsUnchanged :
        (q : Question) (u : QuestionVersion)
        → IsOwned s q
        → q.current_version_id ≡ some u.id
        → IsUnchanged f rs u (set_question q.id publish_row s)
    stamped-IsUnchanged q u owned current =
        let (w, w_there, _) = owned u.id current in
        let kept =
          serve_all-IsFrozen f fresh u.id w (case_rows u.id s) rs (set_question q.id publish_row s)
            (record {
              row = w_there;
              cases = refl;
              sealed = stamped-IsSealed s q u.id current owned all_owned;
              keyed = keyed;
            }) in
        (kept.row ∙ sym w_there, kept.cases)

    read-PublishOutcome :
        (q : Question)
        → IsOwned s q
        → PublishOutcome f rs s (current_version q (set_question q.id publish_row s))
    read-PublishOutcome q owned =
        let s' = set_question q.id publish_row s in
        asserted-PublishOutcome f rs s s' (version_at q.org_id q.current_version_id s') (λ u found.
          stamped-IsUnchanged q u owned (version_at-id q.org_id q.current_version_id u s' found))

    committed-PublishOutcome :
        (org_id question_id : ℕ) (r : Result BankError Question × Store)
        → Stamped org_id question_id s r
        → PublishOutcome f rs s (after r (λ q. current_version q))
    committed-PublishOutcome org_id question_id (ok q, s') (found, same) =
        subst (λ z. PublishOutcome f rs s (current_version q z)) (sym same)
          (read-PublishOutcome q
            (first-All (IsOwned s) (is_question org_id question_id) s.questions all_owned found))
    committed-PublishOutcome org_id question_id (err e, s') same = inl same

    -- Take identifiers that are new, questions whose current versions are in the table and are their
    -- own, and test cases with distinct identifiers. A publication that succeeds returns a version
    -- whose row and test cases all later creations, edits, publications, additions and deletions of
    -- test cases leave as they are; one that fails changes nothing, or fails an assertion.
    pub publish_question-PublishOutcome :
        (org_id question_id : ℕ) → PublishOutcome f rs s (publish_question org_id question_id s)
    unfolding publish_question
    publish_question-PublishOutcome org_id question_id =
        committed-PublishOutcome org_id question_id (commit_publish org_id question_id s)
          (commit_publish-Stamped org_id question_id s)
