-- ===== src/Question/Creation.antt =====
-- A new topic stands under an old one, or at a root.
use dsa_platform.Prelude.{
  ℕ, String, true, false, Option, none, some, List, [], ◌∷◌, ◌++◌, ◌≡◌, sym, ap, ◌∙◌, inl, inr,
  Bool-cases, Option-cases, arith, Result, ok, err,
}
use dsa_platform.Prelude.Table.{first, first-append, or_else}
use dsa_platform.Question.Topics.{Topic, TopicError, find_topic, has_parent, create_topic}
use dsa_platform.Question.Rooted.{IsRooted, at_root, below, IsForest}

module _ (org_id : ℕ) where
  find-append :
      (x : ℕ) (ts us : List Topic) (t : Topic)
      → find_topic org_id x ts ≡ some t
      → find_topic org_id x (ts ++ us) ≡ some t
  find-append x ts us t found =
      first-append _ ts us ∙ ap (λ o. or_else o (find_topic org_id x us)) found

  append-keeps : (ts us : List Topic) (x : ℕ) → IsRooted org_id ts x → IsRooted org_id (ts ++ us) x
  append-keeps ts us x (at_root _ t found up) = at_root x t (find-append x ts us t found) up
  append-keeps ts us x (below _ p t found up above) =
      below x p t (find-append x ts us t found) up (append-keeps ts us p above)

  -- Of one row, only that row is found.
  find-one :
      (x : ℕ) (u t : Topic) → find_topic org_id x (u ∷ []) ≡ some t → u.parent_id ≡ t.parent_id
  unfolding first
  find-one x u t found = ground arith

  new-IsRooted :
      (ts us : List Topic) (x : ℕ) (t : Topic) (parent : Option ℕ)
      → IsForest org_id ts
      → has_parent org_id parent ts ≡ true
      → find_topic org_id x (ts ++ us) ≡ some t
      → t.parent_id ≡ parent
      → IsRooted org_id (ts ++ us) x
  new-IsRooted ts us x t none forest there found up = at_root x t found up
  new-IsRooted ts us x t (some p) forest there found up =
      elim (Option-cases (find_topic org_id p ts)) [
        | inl missing ↦ absurd (grind (arith, missing, there))
        | inr (above, seen) ↦ below x p t found up (append-keeps ts us p (forest p above seen))
      ]

  append-IsForest :
      (ts : List Topic) (u : Topic)
      → IsForest org_id ts
      → has_parent org_id u.parent_id ts ≡ true
      → IsForest org_id (ts ++ (u ∷ []))
  append-IsForest ts u forest there x t found = elim (Option-cases (find_topic org_id x ts)) [
    | inr (old, seen) ↦ append-keeps ts (u ∷ []) x (forest x old seen)
    | inl new ↦
        let one =
          sym (first-append _ ts (u ∷ []) ∙ ap (λ o. or_else o (find_topic org_id x (u ∷ []))) new)
          ∙ found in
        new-IsRooted ts (u ∷ []) x t u.parent_id forest there found (sym (find-one x u t one))
  ]

  -- What the creation of a topic leaves behind: an error means that the parent is missing.
  abbrev pub Created : Option ℕ → List Topic → Result TopicError (List Topic) → Type 0
  Created parent ts (ok ts') = IsForest org_id ts'
  Created parent ts (err e) = has_parent org_id parent ts ≡ false

-- In tables where from every topic the walk over the parents ends at a topic without a parent, the
-- creation of a topic leaves tables of the same kind, or is refused because its parent is missing.
pub create_topic-Created :
    (id org_id : ℕ) (name : String) (parent : Option ℕ) (ts : List Topic)
    → IsForest org_id ts
    → Created org_id parent ts (create_topic id org_id name parent ts)
unfolding create_topic
create_topic-Created id org_id name parent ts forest =
    elim (Bool-cases (has_parent org_id parent ts)) [
      | inr missing ↦ rw (missing, Created) missing
      | inl there ↦ rw there (append-IsForest org_id ts _ forest there)
    ]
