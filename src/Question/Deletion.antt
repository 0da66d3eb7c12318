-- ===== src/Question/Deletion.antt =====
-- Only a topic without children is deleted.
use dsa_platform.Prelude.{
  ℕ, Bool, true, false, Option, none, some, List, [], ◌∷◌, ◌≡◌, refl, sym, ◌∙◌, inl, inr, ◌==◌,
  ◌&&◌, any, opt_eq, not, is_some, Bool-cases, Option-cases, arith, Result, ok, err,
}
use dsa_platform.Prelude.Table.{first, remove, first_sound}
use dsa_platform.Question.Topics.{Topic, Bank, TopicError, find_topic, delete_topic}
use dsa_platform.Question.Rooted.{IsRooted, at_root, below, IsForest}

module _ {A : Type 0} where
  -- A row that is found is not one of those that do not exist.
  first-none_such :
      (q r : A → Bool) (xs : List A) (a : A) → first q xs ≡ some a → any r xs ≡ false → r a ≡ false
  unfolding first
  first-none_such q r [] a found h = absurd (ground arith)
  first-none_such q r (x ∷ xs) a found h = elim (Bool-cases (q x)) [
    | inl here ↦ ground arith
    | inr later ↦ first-none_such q r xs a (ground arith) (ground arith)
  ]

  -- A removal of other rows.
  first-remove :
      (q p : A → Bool) (xs : List A)
      → ((a : A) → q a ≡ true → p a ≡ false)
      → first q (remove p xs) ≡ first q xs
  unfolding first remove
  first-remove q p [] apart = refl
  first-remove q p (x ∷ xs) apart = ground (arith, first-remove q p xs apart, apart x)

  first-removed :
      (q p : A → Bool) (xs : List A) (a : A) → first q (remove p xs) ≡ some a → p a ≡ false
  unfolding first remove
  first-removed q p [] a found = absurd (ground arith)
  first-removed q p (x ∷ xs) a found = elim (Bool-cases (p x)) [
    | inl gone ↦ first-removed q p xs a (ground arith)
    | inr stays ↦ elim (Bool-cases (q x)) [
      | inl here ↦ ground arith
      | inr later ↦ first-removed q p xs a (ground arith)
    ]
  ]

module _ (org_id topic_id : ℕ) where
  abbrev left : List Topic → List Topic
  left ts = remove (λ (t : Topic). t.id == topic_id) ts

  abbrev has_child : List Topic → Bool
  has_child ts = any (λ (t : Topic). opt_eq t.parent_id (some topic_id) && t.org_id == org_id) ts

  apart :
      (x : ℕ)
      → (x == topic_id) ≡ false
      → (t : Topic) → (t.id == x && t.org_id == org_id) ≡ true
      → (t.id == topic_id) ≡ false
  apart x other t h = ground arith

  find-left :
      (x : ℕ) (ts : List Topic)
      → (x == topic_id) ≡ false
      → find_topic org_id x (left ts) ≡ find_topic org_id x ts
  find-left x ts other = first-remove _ _ ts (apart x other)

  other_parent :
      (p : ℕ) (u : Option ℕ) (mine here : Bool)
      → u ≡ some p
      → (opt_eq u (some topic_id) && here) ≡ false
      → (mine && here) ≡ true
      → (p == topic_id) ≡ false
  other_parent p none mine here up no_child row = absurd (ground arith)
  other_parent p (some q) mine here up no_child row = ground arith

  not_parent :
      (x p : ℕ) (ts : List Topic) (t : Topic)
      → find_topic org_id x ts ≡ some t
      → t.parent_id ≡ some p
      → has_child ts ≡ false
      → (p == topic_id) ≡ false
  not_parent x p ts t found up childless =
      other_parent p t.parent_id (t.id == x) (t.org_id == org_id) up
        (first-none_such _ _ ts t found childless) (first_sound _ ts found)

  left-keeps :
      (ts : List Topic) (x : ℕ)
      → has_child ts ≡ false
      → (x == topic_id) ≡ false
      → IsRooted org_id ts x
      → IsRooted org_id (left ts) x
  left-keeps ts x childless other (at_root _ t found up) =
      at_root x t (find-left x ts other ∙ found) up
  left-keeps ts x childless other (below _ p t found up above) =
      below x p t (find-left x ts other ∙ found) up
        (left-keeps ts p childless (not_parent x p ts t found up childless) above)

  gone :
      (x : ℕ) (t : Topic)
      → (t.id == topic_id) ≡ false
      → (t.id == x && t.org_id == org_id) ≡ true
      → (x == topic_id) ≡ false
  gone x t h row = ground arith

  clash : (x : ℕ) (t : Topic) → (x == x) ≡ false → ⊥
  clash x t h = ground arith

  left-IsForest :
      (ts : List Topic) → has_child ts ≡ false → IsForest org_id ts → IsForest org_id (left ts)
  left-IsForest ts childless forest x t found =
      let other = gone x t (first-removed _ _ ts t found) (first_sound _ (left ts) found) in
      left-keeps ts x childless other (forest x t (sym (find-left x ts other) ∙ found))

  abbrev is_linked : Bank → Bool
  is_linked bank = any (λ (l : ℕ × ℕ). l.1 == topic_id) bank.question_topics

  -- What the deletion of a topic leaves behind, or why there was none.
  abbrev pub Deleted : Bank → Result TopicError Bank → Type 0
  Deleted bank (ok bank') =
      IsForest org_id bank'.topics × (find_topic org_id topic_id bank'.topics ≡ none)
  Deleted bank (err e) =
      (is_some (find_topic org_id topic_id bank.topics)
        && not (has_child bank.topics)
        && not (is_linked bank))
      ≡ false

  find-gone : (ts : List Topic) → find_topic org_id topic_id (left ts) ≡ none
  find-gone ts = elim (Option-cases (find_topic org_id topic_id (left ts))) [
    | inl none_it ↦ none_it
    | inr (t, found) ↦ absurd (
        clash topic_id t
          (gone topic_id t (first-removed _ _ ts t found) (first_sound _ (left ts) found)))
  ]

-- In tables where from every topic the walk over the parents ends at a topic without a parent, the
-- deletion of a topic leaves tables of the same kind without that topic; or it is refused, which
-- happens only to a topic that is missing, has a child or is attached to a question.
pub delete_topic-Deleted :
    (org_id topic_id : ℕ) (bank : Bank)
    → IsForest org_id bank.topics
    → Deleted org_id topic_id bank (delete_topic org_id topic_id bank)
unfolding delete_topic
delete_topic-Deleted org_id topic_id bank forest =
    elim (Bool-cases (is_some (find_topic org_id topic_id bank.topics))) [
      | inr missing ↦ rw (missing, Deleted) (rw missing refl)
      | inl there ↦ elim (Bool-cases (has_child org_id topic_id bank.topics)) [
        | inl child ↦ rw there (rw child (ground (arith, child)))
        | inr childless ↦ elim (Bool-cases (is_linked org_id topic_id bank)) [
          | inl linked ↦ rw there (rw childless (rw linked (ground (arith, linked))))
          | inr free ↦ rw there (
              rw childless (
                rw free (
                  left-IsForest org_id topic_id bank.topics childless forest,
                  find-gone org_id topic_id bank.topics,
                )))
        ]
      ]
    ]
