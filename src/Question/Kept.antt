-- ===== src/Question/Kept.antt =====
-- Every handler of the question service keeps a frozen version.
use mathlib.Core.Path.{subst}
use dsa_platform.Prelude.{
  ℕ, Bool, true, false, Option, none, some, List, [], ◌∷◌, ◌≡◌, refl, sym, ap, ◌∙◌, inl, inr, ◌==◌,
  ==_iff, Bool-cases, and_both, ◌>>◌, if◌then◌else◌, arith, opt_eq, not, Result, ok, err, after,
  raise_if, pure, modify_state, length,
}
use dsa_platform.Prelude.Table.{first-append, first_sound, or_else}
use dsa_platform.Prelude.Removal.{first-All}
use dsa_platform.Question.Bank.{
  Question, QuestionVersion, TestCase, Store, Fresh, BankError, find_question, list_cases, add_case,
  add_version, set_topics, is_question,
}
use dsa_platform.Question.Versions.{
  Handler, settled, or_raise, require_question, version_at, current_version, validate_topics,
  link_topics, distinct, copied, copy_cases, next_version, point_to, fork, ensure_mutable_version,
  Edit, is_empty, has_null, write_fields, edit_version, edit_topics,
}
use dsa_platform.Question.Frozen.{
  IsFresh, IsSealed, IsFrozen, case_row, fresh-ne, set_question-IsFrozen, add_version-IsFrozen,
  set_version-IsFrozen, add_case-IsFrozen,
}

module _ (f : Fresh) (fresh : IsFresh f) (vid : ℕ) (v : QuestionVersion) (cs : List TestCase) where
  abbrev pub Frozen : Store → Type 0
  Frozen s = IsFrozen vid v cs s

  -- After a step the version is as it was, and the result is as told.
  abbrev pub After : {A : Type 0} → (A → Store → Type 0) → Result BankError A × Store → Type 0
  After P (ok a, s) = Frozen s × P a s
  After P (err e, s) = Frozen s

  pub after-After :
      {A B : Type 0} (P : A → Store → Type 0) (Q : B → Store → Type 0)
      (r : Result BankError A × Store) (k : A → Handler B)
      → After P r
      → ((a : A) (s : Store) → Frozen s → P a s → After Q (k a s))
      → After Q (after r k)
  after-After P Q (ok a, s) k h rest = rest a s h.0 h.1
  after-After P Q (err e, s) k h rest = h

  pub settled-After :
      {A : Type 0} (P : A → Store → Type 0) (s : Store) (r : Result BankError A × Store)
      → Frozen s
      → After P r
      → After P (settled s r)
  settled-After P s (ok a, s') h r = r
  settled-After P s (err e, s') h r = h

  pub or_raise-After :
      {A : Type 0} (P : A → Store → Type 0) (e : BankError) (o : Option A) (s : Store)
      → Frozen s
      → ((a : A) → o ≡ some a → P a s)
      → After P (or_raise e o s)
  or_raise-After P e none s h found = h
  or_raise-After P e (some a) s h found = (h, found a refl)

  pub guarded-After :
      {B : Type 0} (Q : B → Store → Type 0) (test : Bool) (e : BankError) (m : Handler B)
      (s : Store)
      → Frozen s
      → After Q (m s)
      → After Q ((raise_if test e >> m) s)
  guarded-After Q true e m s h r = h
  guarded-After Q false e m s h r = r

  -- a result of which nothing is told
  abbrev pub Any : {A : Type 0} → A → Store → Type 0
  Any a s = Unit

  -- a version that may be changed, with the test cases in place
  abbrev pub Mutable : Store → QuestionVersion → Store → Type 0
  Mutable s u s' =
      ((u.id == vid) ≡ false)
      × ((t : TestCase) → case_row t.id s ≡ some t → case_row t.id s' ≡ some t)

  copy_cases-After :
      (org_id id : ℕ) (ts : List TestCase) (s : Store)
      → (id == vid) ≡ false
      → Frozen s
      → Frozen (copy_cases f org_id id ts s)
        × ((t : TestCase)
            → case_row t.id s ≡ some t
            → case_row t.id (copy_cases f org_id id ts s) ≡ some t)
  unfolding copy_cases
  copy_cases-After org_id id [] s other h = (h, λ t found. found)
  copy_cases-After org_id id (u ∷ us) s other h =
      let c = copied f org_id id u s in
      let rest =
        copy_cases-After org_id id us (add_case c s) other
          (add_case-IsFrozen vid f fresh v cs c s other (fresh s).1 h) in
      (
        rest.0,
        λ t found. rest.1 t (
            first-append _ s.test_cases (c ∷ [])
            ∙ ap (λ o. or_else o (case_row t.id (record s { test_cases = c ∷ [] }))) found),
      )

  pub elsewhere : (id : ℕ) → (id == vid) ≡ false → (a : Question) → IsSealed vid (point_to id a)
  elsewhere id other a points = absurd (ground arith)

  fork-After :
      (q : Question) (current : QuestionVersion) (s : Store)
      → Frozen s
      → After (Mutable s) (fork f q current s)
  unfolding fork
  fork-After q current s h =
      let u = next_version f q current s in
      let other = fresh-ne vid f fresh v cs s h in
      let copies =
        copy_cases-After q.org_id u.id (list_cases q.org_id current.id s) (add_version u s) other
          (add_version-IsFrozen vid f fresh v cs u s h) in
      (
        set_question-IsFrozen vid f fresh v cs q.id (point_to u.id) _
            (λ a sealed. elsewhere u.id other a) copies.0,
        (other, copies.1),
      )

  version_at-id :
      (org_id : ℕ) (o : Option ℕ) (u : QuestionVersion) (s : Store)
      → version_at org_id o s ≡ some u
      → o ≡ some u.id
  version_at-id org_id none u s found = absurd (ground arith)
  version_at-id org_id (some id) u s found = ap some (
      sym (
        (==_iff u.id id).0
          (and_both (u.id == id) (u.org_id == org_id) (first_sound _ s.versions found)).0))

  clash : (o p : Option ℕ) → o ≡ some vid → p ≡ some vid → opt_eq o p ≡ false → ⊥
  clash none p h h' differ = ground arith
  clash (some a) none h h' differ = ground arith
  clash (some a) (some b) h h' differ = ground arith

  -- The current version of a sealed question, where it is not the published one, is another one.
  current-ne :
      (q : Question) (current : QuestionVersion) (s : Store)
      → IsSealed vid q
      → version_at q.org_id q.current_version_id s ≡ some current
      → opt_eq q.current_version_id q.published_version_id ≡ false
      → (current.id == vid) ≡ false
  current-ne q current s sealed found open_it = elim (Bool-cases (current.id == vid)) [
    | inr other ↦ other
    | inl same ↦
        let points =
          version_at-id q.org_id q.current_version_id current s found
          ∙ ap some ((==_iff current.id vid).0 same) in
        absurd (clash q.current_version_id q.published_version_id points (sealed points) open_it)
  ]

  Mutable-After :
      (q : Question) (current : QuestionVersion) (s : Store)
      → Frozen s
      → IsSealed vid q
      → version_at q.org_id q.current_version_id s ≡ some current
      → After (Mutable s) (
          (if not (opt_eq q.current_version_id q.published_version_id)
              then pure current
              else fork f q current)
            s)
  Mutable-After q current s h sealed found =
      elim (Bool-cases (opt_eq q.current_version_id q.published_version_id)) [
        | inl closed ↦ rw closed (fork-After q current s h)
        | inr open_it ↦
            rw open_it (h, (current-ne q current s sealed found open_it, λ t there. there))
      ]

  pub ensure-After :
      (q : Question) (s : Store)
      → Frozen s
      → IsSealed vid q
      → After (Mutable s) (ensure_mutable_version f q s)
  unfolding ensure_mutable_version
  ensure-After q s h sealed =
      after-After (λ u s'. (s' ≡ s) × (version_at q.org_id q.current_version_id s ≡ some u))
        (Mutable s) (current_version q s) _
        (or_raise-After _ _ (version_at q.org_id q.current_version_id s) s h
          (λ u found. (refl, found)))
        (λ u s' h' found.
          subst
            (λ (z : Store). After (Mutable s) (
              (if not (opt_eq q.current_version_id q.published_version_id)
                  then pure u
                  else fork f q u)
                z))
            (sym found.0) (Mutable-After q u s h sealed found.1))

  write_fields-After :
      (e : Edit) (u : QuestionVersion) (s : Store)
      → (u.id == vid) ≡ false
      → Frozen s
      → After Any (write_fields e u s)
  unfolding write_fields
  write_fields-After e u s other h = elim (Bool-cases (has_null e)) [
    | inl bad ↦ rw bad h
    | inr good ↦ rw good (set_version-IsFrozen vid f fresh v cs u.id e s other h, tt)
  ]

  pub require_question-After :
      (org_id question_id : ℕ) (s : Store)
      → Frozen s
      → After (λ q z. IsSealed vid q) (require_question org_id question_id s)
  require_question-After org_id question_id s h =
      or_raise-After _ _ (find_question org_id question_id s) s h (λ q found.
        first-All (IsSealed vid) (is_question org_id question_id) s.questions h.sealed found)

  pub current_version-After :
      (q : Question) (s : Store) → Frozen s → After Any (current_version q s)
  current_version-After q s h = or_raise-After _ _ _ s h (λ a found. tt)

  pub edit_version-After :
      (q : Question) (e : Edit) (s : Store)
      → Frozen s
      → IsSealed vid q
      → After Any (edit_version f q e s)
  unfolding edit_version
  edit_version-After q e s h sealed = elim (Bool-cases (is_empty e)) [
    | inl empty ↦ rw empty (current_version-After q s h)
    | inr filled ↦ rw filled (
        after-After (Mutable s) _ (ensure_mutable_version f q s) _ (ensure-After q s h sealed)
          (λ u s' h' open_it. write_fields-After e u s' open_it.0 h'))
  ]

  -- Links and topics are in other tables.
  set_topics-Frozen : (id : ℕ) (ts : List ℕ) (s : Store) → Frozen s → Frozen (set_topics id ts s)
  set_topics-Frozen id ts s h = record {
    row = h.row;
    cases = h.cases;
    sealed = h.sealed;
    keyed = h.keyed;
  }

  pub valid-After :
      (test : Bool) (e : BankError) (s : Store) → Frozen s → After Any (raise_if test e s)
  valid-After true e s h = h
  valid-After false e s h = (h, tt)

  pub validate_topics-After :
      (org_id : ℕ) (ts : List ℕ) (s : Store) → Frozen s → After Any (validate_topics org_id ts s)
  unfolding validate_topics
  validate_topics-After org_id ts s h = valid-After _ _ s h

  pub link_topics-After :
      (id : ℕ) (ts : List ℕ) (s : Store) → Frozen s → After Any (link_topics id ts s)
  unfolding link_topics
  link_topics-After id ts s h =
      guarded-After Any (not (distinct ts == length ts)) BankError.integrity_error
        (modify_state (set_topics id ts)) s h (set_topics-Frozen id ts s h, tt)

  pub edit_topics-After :
      (org_id id : ℕ) (ts : Option (List ℕ)) (s : Store)
      → Frozen s
      → After Any (edit_topics org_id id ts s)
  edit_topics-After org_id id none s h = (h, tt)
  edit_topics-After org_id id (some ts) s h =
      after-After _ _ (validate_topics org_id ts s) _ (validate_topics-After org_id ts s h)
        (λ x s' h' _. link_topics-After id ts s' h')
