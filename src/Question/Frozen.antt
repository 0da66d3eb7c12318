-- ===== src/Question/Frozen.antt =====
-- A version that is published, and its test cases, stay as they are: the invariant and the changes of
-- the tables that keep it.
use mathlib.Core.Path.{subst}
use mathlib.Core.Option
use dsa_platform.Prelude.{
  ℕ, true, false, Option, none, some, List, [], ◌∷◌, ◌≡◌, refl, ap, ◌∙◌, inl, inr, ◌==◌, ==_iff,
  Bool-cases, All, All-append, if◌then◌else◌, arith,
}
use dsa_platform.Prelude.Table.{first, select, first-append, first-update, first_sound, or_else}
use dsa_platform.Prelude.Keyed.{has_key, IsKeyed, IsKeyed-append}
use dsa_platform.Prelude.Removal.{select-remove, IsKeyed-remove, All-update, select-append_other}
use dsa_platform.Question.Bank.{
  Question, QuestionVersion, TestCase, Store, Fresh, add_question, add_version, add_case,
  set_question, set_version, delete_case,
}
use dsa_platform.Question.Versions.{Edit, edit_row}

-- The identifiers are new.
abbrev pub IsFresh : Fresh → Type 0
IsFresh f =
    (s : Store)
    → (first (has_key (λ (v : QuestionVersion). v.id) (f.version s)) s.versions ≡ none)
      × (first (has_key (λ (t : TestCase). t.id) (f.test_case s)) s.test_cases ≡ none)

abbrev pub version_row : ℕ → Store → Option QuestionVersion
version_row id s = first (has_key (λ (v : QuestionVersion). v.id) id) s.versions

-- All rows of a version's test cases, of whatever organisation.
abbrev pub case_rows : ℕ → Store → List TestCase
case_rows id s = select (λ (t : TestCase). t.question_version_id == id) s.test_cases

abbrev pub case_row : ℕ → Store → Option TestCase
case_row id s = first (has_key (λ (t : TestCase). t.id) id) s.test_cases

module _ (vid : ℕ) where
  -- Where the version is a question's current one, it is the published one too.
  abbrev pub IsSealed : Question → Type 0
  IsSealed q = q.current_version_id ≡ some vid → q.published_version_id ≡ some vid

  -- The version stands in its table, with these cases, and no question may change it.
  pub record IsFrozen (v : QuestionVersion) (cs : List TestCase) (s : Store) : Type 0 where
    pub row : version_row vid s ≡ some v
    pub cases : case_rows vid s ≡ cs
    pub sealed : All IsSealed s.questions
    pub keyed : IsKeyed (λ (t : TestCase). t.id) s.test_cases

  module _ (f : Fresh) (fresh : IsFresh f) (v : QuestionVersion) (cs : List TestCase) where
    pub fresh-ne : (s : Store) → IsFrozen v cs s → (f.version s == vid) ≡ false
    fresh-ne s h = elim (Bool-cases (f.version s == vid)) [
      | inr other ↦ other
      | inl same ↦
          let unseen : version_row vid s ≡ none =
            subst (λ n. version_row n s ≡ none) ((==_iff (f.version s) vid).0 same) (fresh s).0 in
          absurd (grind (arith, unseen, h.row))
    ]

    pub set_question-IsFrozen :
        (id : ℕ) (g : Question → Question) (s : Store)
        → ((q : Question) → IsSealed q → IsSealed (g q))
        → IsFrozen v cs s
        → IsFrozen v cs (set_question id g s)
    set_question-IsFrozen id g s keep h = record {
      row = h.row;
      cases = h.cases;
      sealed = All-update IsSealed (λ (q : Question). q.id == id) g s.questions keep h.sealed;
      keyed = h.keyed;
    }

    pub add_question-IsFrozen :
        (q : Question) (s : Store) → IsSealed q → IsFrozen v cs s → IsFrozen v cs (add_question q s)
    add_question-IsFrozen q s sealed h = record {
      row = h.row;
      cases = h.cases;
      sealed = All-append IsSealed s.questions (q ∷ []) h.sealed (sealed, tt);
      keyed = h.keyed;
    }

    pub add_version-IsFrozen :
        (u : QuestionVersion) (s : Store) → IsFrozen v cs s → IsFrozen v cs (add_version u s)
    add_version-IsFrozen u s h = record {
      row =
          first-append _ s.versions (u ∷ [])
          ∙ ap (λ o. or_else o (version_row vid (record s { versions = u ∷ [] }))) h.row;
      cases = h.cases;
      sealed = h.sealed;
      keyed = h.keyed;
    }

    untouched :
        (id : ℕ) (e : Edit) (u : QuestionVersion)
        → (id == vid) ≡ false
        → (u.id == vid) ≡ true
        → (if u.id == id then edit_row e u else u) ≡ u
    untouched id e u other mine = let apart : (u.id == id) ≡ false = ground arith in rw apart refl

    pub set_version-IsFrozen :
        (id : ℕ) (e : Edit) (s : Store)
        → (id == vid) ≡ false
        → IsFrozen v cs s
        → IsFrozen v cs (set_version id (edit_row e) s)
    set_version-IsFrozen id e s other h = record {
      row =
          first-update _ (λ (u : QuestionVersion). u.id == id) (edit_row e) s.versions (λ a. refl)
          ∙ ap (Option.map _) h.row
          ∙ ap some (untouched id e v other (first_sound _ s.versions h.row));
      cases = h.cases;
      sealed = h.sealed;
      keyed = h.keyed;
    }

    pub add_case-IsFrozen :
        (t : TestCase) (s : Store)
        → (t.question_version_id == vid) ≡ false
        → case_row t.id s ≡ none
        → IsFrozen v cs s
        → IsFrozen v cs (add_case t s)
    add_case-IsFrozen t s other new h = record {
      row = h.row;
      cases = select-append_other _ s.test_cases t other ∙ h.cases;
      sealed = h.sealed;
      keyed = IsKeyed-append _ s.test_cases t h.keyed new;
    }

    pub delete_case-IsFrozen :
        (t : TestCase) (s : Store)
        → case_row t.id s ≡ some t
        → (t.question_version_id == vid) ≡ false
        → IsFrozen v cs s
        → IsFrozen v cs (delete_case t.id s)
    delete_case-IsFrozen t s found other h = record {
      row = h.row;
      cases =
          select-remove (λ (u : TestCase). u.id) (λ (u : TestCase). u.question_version_id == vid)
            t.id s.test_cases t h.keyed found other
          ∙ h.cases;
      sealed = h.sealed;
      keyed = IsKeyed-remove _ _ s.test_cases h.keyed;
    }
