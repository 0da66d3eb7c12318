-- ===== src/Question/Forest.antt =====
-- The parents of topics never run in a circle.
use mathlib.Core.Path.{subst}
use dsa_platform.Prelude.{
  ℕ, zero, suc, ◌<◌, ◌≤◌, String, Bool, true, false, Option, none, some, List, ◌≡◌, refl, sym, ◌∙◌,
  inl, inr, ◌==◌, Bool-cases, Option-cases, arith, Result, ok, err,
}
use dsa_platform.Question.Topics.{
  Topic, TopicError, find_topic, up_from, reject_cycle, set_parent, set_name, set_if_free, move,
  update_found, update_topic,
}
use dsa_platform.Question.Rooted.{
  IsRooted, at_root, below, IsForest, OptRooted, reject_cycle-OptRooted, set_parent-IsForest,
  set_name-IsForest,
}

module _ (org_id : ℕ) where
  abbrev Ended : Option (Result TopicError Unit) → Type 0
  Ended none = ⊥
  Ended (some r) = Unit

  up_from-Ended :
      (go : Option ℕ → Option (Result TopicError Unit)) (found : Option Topic)
      → ((t : Topic) → found ≡ some t → Ended (go t.parent_id))
      → Ended (up_from go found)
  up_from-Ended go none h = tt
  up_from-Ended go (some t) h = h t refl

  none-Ended : (m topic_id : ℕ) (ts : List Topic) → Ended (reject_cycle m org_id topic_id ts none)
  unfolding reject_cycle
  none-Ended m topic_id ts = tt

  Ended-step :
      (fuel topic_id c : ℕ) (ts : List Topic)
      → ((t : Topic)
          → find_topic org_id c ts ≡ some t
          → Ended (reject_cycle fuel org_id topic_id ts t.parent_id))
      → Ended (reject_cycle (suc fuel) org_id topic_id ts (some c))
  unfolding reject_cycle
  Ended-step fuel topic_id c ts h = elim (Bool-cases (c == topic_id)) [
    | inl cycle ↦ rw cycle tt
    | inr other ↦ rw other (up_from-Ended _ (find_topic org_id c ts) h)
  ]

  Ended-positive :
      (m topic_id c : ℕ) (ts : List Topic)
      → 1 ≤ m
      → ((fuel : ℕ) (t : Topic)
          → suc fuel ≡ m
          → find_topic org_id c ts ≡ some t
          → Ended (reject_cycle fuel org_id topic_id ts t.parent_id))
      → Ended (reject_cycle m org_id topic_id ts (some c))
  Ended-positive zero topic_id c ts h next = absurd (omega (arith, h))
  Ended-positive (suc fuel) topic_id c ts h next =
      Ended-step fuel topic_id c ts (λ t found. next fuel t refl found)

  same_row :
      (ts : List Topic) (x : ℕ) (t t' : Topic)
      → find_topic org_id x ts ≡ some t
      → find_topic org_id x ts ≡ some t'
      → t.parent_id ≡ t'.parent_id
  same_row ts x t t' h h' = cc

  -- More steps than the topic lies deep end the walk.
  reject_cycle-Ended :
      (topic_id : ℕ) (ts : List Topic) (x : ℕ)
      → IsRooted org_id ts x
      → (n : ℕ) × ((m : ℕ) → n < m → Ended (reject_cycle m org_id topic_id ts (some x)))
  reject_cycle-Ended topic_id ts x (at_root _ t found up) = (
    0,
    λ m h. Ended-positive m topic_id x ts (omega (arith, h)) (λ fuel t' e found'.
        subst (λ o. Ended (reject_cycle fuel org_id topic_id ts o))
          (sym up ∙ same_row ts x t t' found found') (none-Ended fuel topic_id ts)),
  )
  reject_cycle-Ended topic_id ts x (below _ q t found up above) =
      let (n, enough) = reject_cycle-Ended topic_id ts q above in
      (
        suc n,
        λ m h. Ended-positive m topic_id x ts (omega (arith, h)) (λ fuel t' e found'.
            subst (λ o. Ended (reject_cycle fuel org_id topic_id ts o))
              (sym up ∙ same_row ts x t t' found found') (enough fuel (omega (arith, h, e)))),
      )

  -- for any new parent
  reject_cycle_ends :
      (topic_id : ℕ) (ts : List Topic) (p : Option ℕ)
      → IsForest org_id ts
      → (n : ℕ) × ((m : ℕ) → n < m → Ended (reject_cycle m org_id topic_id ts p))
  reject_cycle_ends topic_id ts none forest = (0, λ m h. none-Ended m topic_id ts)
  reject_cycle_ends topic_id ts (some p) forest = elim (Option-cases (find_topic org_id p ts)) [
    | inl missing ↦ (
      0,
      λ m h.
          Ended-positive m topic_id p ts (omega (arith, h))
            (λ fuel t e found. absurd (grind (arith, missing, found))),
    )
    | inr (t, found) ↦ reject_cycle-Ended topic_id ts p (forest p t found)
  ]

  -- What an edit of a topic leaves behind. It has an answer.
  abbrev pub Kept : Option (Result TopicError (List Topic)) → Type 0
  Kept none = ⊥
  Kept (some (err e)) = Unit
  Kept (some (ok ts)) = IsForest org_id ts

  set_if_free-Kept :
      (topic_id : ℕ) (p : Option ℕ) (ts : List Topic) (walked : Option (Result TopicError Unit))
      → Ended walked
      → (walked ≡ some (ok tt) → OptRooted org_id (set_parent topic_id p ts) p)
      → IsForest org_id ts
      → Kept (set_if_free topic_id p ts walked)
  set_if_free-Kept topic_id p ts none h rooted forest = absurd h
  set_if_free-Kept topic_id p ts (some (err e)) h rooted forest = tt
  set_if_free-Kept topic_id p ts (some (ok u)) h rooted forest =
      set_parent-IsForest org_id topic_id p ts (rooted refl) forest

  move-Kept :
      (topic_id : ℕ) (p : Option ℕ) (parent_set : Bool) (ts : List Topic)
      → IsForest org_id ts
      → (n : ℕ) × ((m : ℕ) → n < m → Kept (move m org_id topic_id p parent_set ts))
  move-Kept topic_id p false ts forest = (0, λ m h. forest)
  move-Kept topic_id p true ts forest =
      let (n, enough) = reject_cycle_ends topic_id ts p forest in
      (
        n,
        λ m h.
            set_if_free-Kept topic_id p ts (reject_cycle m org_id topic_id ts p) (enough m h)
              (λ free. reject_cycle-OptRooted org_id m topic_id p ts p free) forest,
      )

  update_found-Kept :
      (topic_id : ℕ) (name : Option String) (p : Option ℕ) (parent_set : Bool) (ts : List Topic)
      (found : Option Topic)
      → IsForest org_id ts
      → (n : ℕ) × ((m : ℕ)
          → n < m
          → Kept (update_found m org_id topic_id name p parent_set ts found))
  update_found-Kept topic_id name p parent_set ts none forest = (0, λ m h. tt)
  update_found-Kept topic_id name p parent_set ts (some t) forest =
      move-Kept topic_id p parent_set (set_name topic_id name ts)
        (set_name-IsForest org_id topic_id name ts forest)

-- In tables where from every topic the walk over the parents ends at a topic without a parent, an
-- edit of a topic, whatever its new name and its new parent, comes to its end with some amount of
-- fuel and all larger ones; it is refused, or it leaves tables of the same kind.
pub update_topic-Kept :
    (org_id topic_id : ℕ) (name : Option String) (p : Option ℕ) (parent_set : Bool)
    (ts : List Topic)
    → IsForest org_id ts
    → (n : ℕ) × ((m : ℕ)
        → n < m
        → Kept org_id (update_topic m org_id topic_id name p parent_set ts))
unfolding update_topic
update_topic-Kept org_id topic_id name p parent_set ts forest =
    update_found-Kept org_id topic_id name p parent_set ts (find_topic org_id topic_id ts) forest
