-- ===== src/Question/Published.antt =====
-- A published version never changes, whatever requests follow.
use dsa_platform.Prelude.{
  ℕ, Bool, true, false, Option, none, some, List, ◌≡◌, inl, inr, ◌==◌, ◌&&◌, Bool-cases, arith,
  opt_eq, not, raise_if, pure, modify_state, ◌>>◌, ◌>>=◌, and_both,
}
use dsa_platform.Prelude.Table.{first_sound}
use dsa_platform.Prelude.Keyed.{first-has_key}
use dsa_platform.Question.Bank.{
  Question, Content, QuestionVersion, TestCase, Store, Fresh, BankError, find_case, case_by_ordinal,
  add_question, set_question,
}
use dsa_platform.Question.Versions.{
  Handler, atomic, or_raise, require_question, is_archived, point_to, ensure_mutable_version,
  new_question, first_version, insert_question, create_question, Edit, edit_topics, update_question,
  publish_row, publish_question,
}
use dsa_platform.Question.Cases.{
  require_open, choose_ordinal, new_case, insert_case, create_test_case, not_on_current,
  require_case, row_to_delete, delete_test_case,
}
use dsa_platform.Question.Frozen.{
  IsFresh, IsSealed, case_row, fresh-ne, set_question-IsFrozen, add_question-IsFrozen,
  add_version-IsFrozen, add_case-IsFrozen, delete_case-IsFrozen,
}
use dsa_platform.Question.Kept.{
  Frozen, After, Any, Mutable, after-After, settled-After, or_raise-After, guarded-After,
  ensure-After, require_question-After, valid-After, edit_version-After, validate_topics-After,
  link_topics-After, edit_topics-After, current_version-After, elsewhere,
}

module _ (f : Fresh) (fresh : IsFresh f) (vid : ℕ) (v : QuestionVersion) (cs : List TestCase) where
  -- A handler after which the version is as it was.
  pub record Holds {A : Type 0} (m : Handler A) : Type 0 where
    pub run :
        (s : Store)
        → Frozen f fresh vid v cs s
        → After f fresh vid v cs (Any f fresh vid v cs) (m s)

  atomic-Holds : {A : Type 0} {m : Handler A} → Holds m → Holds (atomic m)
  atomic-Holds {m} holds = record {
    run = λ s h. settled-After f fresh vid v cs (Any f fresh vid v cs) s (m s) h (holds.run s h);
  }

  bind-Holds :
      {A B : Type 0} {m : Handler A} {k : A → Handler B}
      → Holds m
      → ((a : A) → Holds (k a))
      → Holds (m >>= k)
  bind-Holds {m} {k} before rest = record {
    run = λ s h.
        after-After f fresh vid v cs (Any f fresh vid v cs) (Any f fresh vid v cs) (m s) k
          (before.run s h) (λ a s' h' _. (rest a).run s' h');
  }

  then-Holds : {A B : Type 0} {m : Handler A} {k : Handler B} → Holds m → Holds k → Holds (m >> k)
  then-Holds before rest = bind-Holds before (λ a. rest)

  raise_if-Holds : (test : Bool) (e : BankError) → Holds (raise_if test e)
  raise_if-Holds test e = record { run = valid-After f fresh vid v cs test e }

  pure-Holds : {A : Type 0} (a : A) → Holds (pure a)
  pure-Holds a = record { run = λ s h. (h, tt) }

  -- a question that was found
  question-Holds :
      {B : Type 0} (org_id question_id : ℕ) {k : Question → Handler B}
      → ((q : Question) → IsSealed vid q → Holds (k q))
      → Holds (require_question org_id question_id >>= k)
  question-Holds org_id question_id {k} rest = record {
    run = λ s h.
        after-After f fresh vid v cs (λ q z. IsSealed vid q) (Any f fresh vid v cs)
          (require_question org_id question_id s) k
          (require_question-After f fresh vid v cs org_id question_id s h)
          (λ q s' h' sealed. (rest q sealed).run s' h');
  }

  edit_topics-Holds : (org_id id : ℕ) (ts : Option (List ℕ)) → Holds (edit_topics org_id id ts)
  edit_topics-Holds org_id id ts = record { run = edit_topics-After f fresh vid v cs org_id id ts }

  pub update_question-Holds :
      (org_id question_id : ℕ) (e : Edit) (topic_ids : Option (List ℕ))
      → Holds (update_question f org_id question_id e topic_ids)
  unfolding update_question
  update_question-Holds org_id question_id e topic_ids = atomic-Holds (
      question-Holds org_id question_id (λ q sealed.
        bind-Holds
          (then-Holds (raise_if-Holds _ _)
            (record { run = λ s h. edit_version-After f fresh vid v cs q e s h sealed }))
          (λ u. then-Holds (edit_topics-Holds org_id q.id topic_ids) (pure-Holds u))))

  insert_question-Holds : (org_id : ℕ) (c : Content) → Holds (insert_question f org_id c)
  unfolding insert_question
  insert_question-Holds org_id c = record {
    run = λ s h.
        let q = new_question (f.question s) org_id in
        let added =
          add_question-IsFrozen vid f fresh v cs q s (λ points. absurd (ground arith)) h in
        let u = first_version (f.version (add_question q s)) org_id (f.question s) c in
        let other = fresh-ne vid f fresh v cs (add_question q s) added in
        (
          set_question-IsFrozen vid f fresh v cs (f.question s) (point_to u.id) _
              (λ a sealed. elsewhere f fresh vid v cs u.id other a)
              (add_version-IsFrozen vid f fresh v cs u _ added),
          tt,
        );
  }

  pub create_question-Holds :
      (org_id : ℕ) (c : Content) (topic_ids : List ℕ) → Holds (create_question f org_id c topic_ids)
  unfolding create_question
  create_question-Holds org_id c topic_ids = atomic-Holds (
      bind-Holds
        (then-Holds (record { run = validate_topics-After f fresh vid v cs org_id topic_ids })
          (insert_question-Holds org_id c))
        (λ (u : QuestionVersion).
          then-Holds (record { run = link_topics-After f fresh vid v cs u.question_id topic_ids })
            (pure-Holds u)))

  publish_row-Holds : (id : ℕ) → Holds (modify_state (set_question id publish_row))
  publish_row-Holds id = record {
    run = λ s h.
        (set_question-IsFrozen vid f fresh v cs id publish_row s (λ a seal points. points) h, tt);
  }

  pub publish_question-Holds :
      (org_id question_id : ℕ) → Holds (publish_question org_id question_id)
  unfolding publish_question
  publish_question-Holds org_id question_id =
      bind-Holds
        (atomic-Holds (
          question-Holds org_id question_id (λ q sealed.
            then-Holds
              (then-Holds (then-Holds (raise_if-Holds _ _) (raise_if-Holds _ _))
                (publish_row-Holds q.id))
              (pure-Holds q))))
        (λ q. record { run = current_version-After f fresh vid v cs q })

  require_open-After :
      (org_id question_id : ℕ) (s : Store)
      → Frozen f fresh vid v cs s
      → After f fresh vid v cs (λ q z. IsSealed vid q) (require_open org_id question_id s)
  require_open-After org_id question_id s h =
      after-After f fresh vid v cs (λ q z. IsSealed vid q) (λ q z. IsSealed vid q)
        (require_question org_id question_id s) _
        (require_question-After f fresh vid v cs org_id question_id s h)
        (λ q s' h' sealed.
          guarded-After f fresh vid v cs (λ q z. IsSealed vid q) (is_archived q.status) _ (pure q)
            s' h' (h', sealed))

  -- an open question, and a version of it that may be changed
  open-Holds :
      {B : Type 0} (org_id question_id : ℕ) {k : Question → Handler B}
      → ((q : Question) → IsSealed vid q → Holds (k q))
      → Holds (require_open org_id question_id >>= k)
  open-Holds org_id question_id {k} rest = record {
    run = λ s h.
        after-After f fresh vid v cs (λ q z. IsSealed vid q) (Any f fresh vid v cs)
          (require_open org_id question_id s) k (require_open-After org_id question_id s h)
          (λ q s' h' sealed. (rest q sealed).run s' h');
  }

  insert_case-After :
      (org_id question_id : ℕ) (u : QuestionVersion) (n : ℕ) (is_sample : Bool) (s : Store)
      → (u.id == vid) ≡ false
      → Frozen f fresh vid v cs s
      → After f fresh vid v cs
          (Any f fresh vid v cs)
          (insert_case f org_id question_id u n is_sample s)
  unfolding insert_case
  insert_case-After org_id question_id u n is_sample s other h = (
    add_case-IsFrozen vid f fresh v cs (new_case f org_id question_id u n is_sample s) s other
        (fresh s).1 h,
    tt,
  )

  choose_ordinal-Holds : (org_id id : ℕ) (n : Option ℕ) → Holds (choose_ordinal org_id id n)
  choose_ordinal-Holds org_id id none = record { run = λ s h. (h, tt) }
  choose_ordinal-Holds org_id id (some n) = record {
    run = λ s h. (then-Holds (raise_if-Holds _ _) (pure-Holds n)).run s h;
  }

  pub create_test_case-Holds :
      (org_id question_id : ℕ) (n : Option ℕ) (is_sample : Bool)
      → Holds (create_test_case f org_id question_id n is_sample)
  unfolding create_test_case
  create_test_case-Holds org_id question_id n is_sample = atomic-Holds (
      open-Holds org_id question_id (λ q sealed. record {
        run = λ s h.
            after-After f fresh vid v cs (Mutable f fresh vid v cs s) (Any f fresh vid v cs)
              (ensure_mutable_version f q s) _ (ensure-After f fresh vid v cs q s h sealed)
              (λ (u : QuestionVersion) s' h' open_it.
                (bind-Holds (choose_ordinal-Holds org_id u.id n) (λ m. record {
                  run = λ z hz. insert_case-After org_id question_id u m is_sample z (open_it.0) hz;
                })).run
                  s' h');
      }))

  -- a case on another version that stands in the table
  abbrev Deletable : TestCase → Store → Type 0
  Deletable t s = ((t.question_version_id == vid) ≡ false) × (case_row t.id s ≡ some t)

  require_case-After :
      (org_id case_id : ℕ) (q : Question) (s : Store)
      → Frozen f fresh vid v cs s
      → After f fresh vid v cs (λ t z. case_row t.id z ≡ some t) (require_case org_id case_id q s)
  require_case-After org_id case_id q s h =
      after-After f fresh vid v cs (λ t z. case_row t.id z ≡ some t)
        (λ t z. case_row t.id z ≡ some t) (or_raise not_on_current (find_case org_id case_id s) s) _
        (or_raise-After f fresh vid v cs _ not_on_current (find_case org_id case_id s) s h
          (λ t found. first-has_key (λ (r : TestCase). r.id) _ s.test_cases h.keyed found))
        (λ t z hz there.
          guarded-After f fresh vid v cs (λ u y. case_row u.id y ≡ some u)
            (not (opt_eq (some t.question_version_id) q.current_version_id)) not_on_current (pure t)
            z hz (hz, there))

  elsewhere_row : (a b : ℕ) → (b == vid) ≡ false → (a == b) ≡ true → (a == vid) ≡ false
  elsewhere_row a b other same = ground arith

  row_to_delete-After :
      (org_id : ℕ) (u : QuestionVersion) (t : TestCase) (s : Store)
      → Frozen f fresh vid v cs s
      → (u.id == vid) ≡ false
      → case_row t.id s ≡ some t
      → After f fresh vid v cs Deletable (row_to_delete org_id u t s)
  row_to_delete-After org_id u t s h other there =
      elim (Bool-cases (u.id == t.question_version_id)) [
        | inl same ↦ rw same (h, (ground arith, there))
        | inr copied_it ↦ rw copied_it (
            or_raise-After f fresh vid v cs Deletable BankError.assertion_failed
              (case_by_ordinal org_id u.id t.ordinal s) s h
              (λ w found. (
                elsewhere_row w.question_version_id u.id other
                    (and_both (w.question_version_id == u.id) (w.org_id == org_id)
                      (and_both (w.question_version_id == u.id && w.org_id == org_id)
                        (w.ordinal == t.ordinal) (first_sound _ s.test_cases found)).0).0,
                first-has_key (λ (r : TestCase). r.id) _ s.test_cases h.keyed found,
              )))
      ]

  pub delete_test_case-Holds :
      (org_id question_id case_id : ℕ) → Holds (delete_test_case f org_id question_id case_id)
  unfolding delete_test_case
  delete_test_case-Holds org_id question_id case_id = atomic-Holds (
      open-Holds org_id question_id (λ q sealed. record {
        run = λ s h.
            after-After f fresh vid v cs (λ t z. case_row t.id z ≡ some t) (Any f fresh vid v cs)
              (require_case org_id case_id q s) _ (require_case-After org_id case_id q s h)
              (λ t z hz there.
                after-After f fresh vid v cs (Mutable f fresh vid v cs z) (Any f fresh vid v cs)
                  (ensure_mutable_version f q z) _ (ensure-After f fresh vid v cs q z hz sealed)
                  (λ u y hy open_it.
                    after-After f fresh vid v cs Deletable (Any f fresh vid v cs)
                      (row_to_delete org_id u t y) _
                      (row_to_delete-After org_id u t y hy (open_it.0) (open_it.1 t there))
                      (λ (w : TestCase) x hx deletable. (
                        delete_case-IsFrozen vid f fresh v cs w x (deletable.1) (deletable.0) hx,
                        tt,
                      ))));
      }))
