-- ===== src/Question/Rooted.antt =====
-- Topics from which the walk over the parents ends, and what keeps them so.
use mathlib.Core.Path.{subst}
use mathlib.Core.Option
use dsa_platform.Prelude.{
  and_both, ℕ, zero, suc, String, false, Option, none, some, List, ◌≡◌, refl, sym, ap, ◌∙◌, inl,
  inr, ◌==◌, ◌&&◌, ==_iff, Bool-cases, Option-cases, if◌then◌else◌, arith, ok,
}
use dsa_platform.Prelude.Table.{first-update, first_sound}
use dsa_platform.Question.Topics.{
  Topic, find_topic, up_from, reject_cycle, set_parent, set_name, renamed,
}

module _ (org_id : ℕ) where
  -- The walk from a topic to its parents ends at a topic without a parent.
  pub data IsRooted (ts : List Topic) : ℕ → Type 0 where
    at_root :
        (x : ℕ) (t : Topic) → find_topic org_id x ts ≡ some t → t.parent_id ≡ none → IsRooted ts x
    below :
        (x p : ℕ) (t : Topic)
        → find_topic org_id x ts ≡ some t
        → t.parent_id ≡ some p
        → IsRooted ts p
        → IsRooted ts x

  -- Every topic of the organisation is rooted.
  abbrev pub IsForest : List Topic → Type 0
  IsForest ts = (x : ℕ) (t : Topic) → find_topic org_id x ts ≡ some t → IsRooted ts x

  abbrev pub OptRooted : List Topic → Option ℕ → Type 0
  OptRooted ts none = Unit
  OptRooted ts (some p) = IsRooted ts p

  node :
      (ts : List Topic) (x : ℕ) (t : Topic) (parent : Option ℕ)
      → find_topic org_id x ts ≡ some t
      → t.parent_id ≡ parent
      → OptRooted ts parent
      → IsRooted ts x
  node ts x t none found up h = at_root x t found up
  node ts x t (some p) found up h = below x p t found up h

  find-id : (ts : List Topic) (x : ℕ) (t : Topic) → find_topic org_id x ts ≡ some t → t.id ≡ x
  find-id ts x t found =
      (==_iff t.id x).0 (and_both (t.id == x) (t.org_id == org_id) (first_sound _ ts found)).0

  -- The row with the new parent, where it is this topic's.
  abbrev moved : ℕ → Option ℕ → Topic → Topic
  moved topic_id p t = if t.id == topic_id then record t { parent_id = p } else t

  find-set_parent :
      (topic_id x : ℕ) (p : Option ℕ) (ts : List Topic)
      → find_topic org_id x (set_parent topic_id p ts)
        ≡ Option.map (moved topic_id p) (find_topic org_id x ts)
  find-set_parent topic_id x p ts = first-update _ _ _ ts (λ a. refl)

  find-some :
      (topic_id x : ℕ) (p : Option ℕ) (ts : List Topic) (t : Topic)
      → find_topic org_id x ts ≡ some t
      → find_topic org_id x (set_parent topic_id p ts) ≡ some (moved topic_id p t)
  find-some topic_id x p ts t found =
      find-set_parent topic_id x p ts ∙ ap (Option.map (moved topic_id p)) found

  moved-other :
      (topic_id : ℕ) (p : Option ℕ) (t : Topic)
      → (t.id == topic_id) ≡ false
      → moved topic_id p t ≡ t
  moved-other topic_id p t h = rw h refl

  -- Another topic's row stays.
  find-other :
      (topic_id x : ℕ) (p : Option ℕ) (ts : List Topic) (t : Topic)
      → (x == topic_id) ≡ false
      → find_topic org_id x ts ≡ some t
      → find_topic org_id x (set_parent topic_id p ts) ≡ some t
  find-other topic_id x p ts t other found =
      find-some topic_id x p ts t found
      ∙ ap some (
          moved-other topic_id p t
            (subst (λ y. (y == topic_id) ≡ false) (sym (find-id ts x t found)) other))

  no_fuel :
      (topic_id c : ℕ) (ts : List Topic)
      → reject_cycle zero org_id topic_id ts (some c) ≡ some (ok tt)
      → ⊥
  unfolding reject_cycle
  no_fuel topic_id c ts h = ground arith

  -- one step of the walk
  step :
      (fuel topic_id c : ℕ) (ts : List Topic)
      → reject_cycle (suc fuel) org_id topic_id ts (some c) ≡ some (ok tt)
      → ((c == topic_id) ≡ false)
        × ((t : Topic) × (find_topic org_id c ts ≡ some t)
            × (reject_cycle fuel org_id topic_id ts t.parent_id ≡ some (ok tt)))
  unfolding reject_cycle
  step fuel topic_id c ts = elim (Bool-cases (c == topic_id)) [
    | inl cycle ↦ rw cycle (λ h. absurd (ground arith))
    | inr other ↦ rw other (λ h. elim (Option-cases (find_topic org_id c ts)) [
      | inl missing ↦ absurd (grind (arith, missing, h))
      | inr (t, found) ↦
          (refl, (t, found, sym (ap (up_from (reject_cycle fuel org_id topic_id ts)) found) ∙ h))
    ])
  ]

  -- A walk that ends has passed rooted topics only, whatever the topic's own parent is now.
  pub reject_cycle-OptRooted :
      (fuel topic_id : ℕ) (p : Option ℕ) (ts : List Topic) (cursor : Option ℕ)
      → reject_cycle fuel org_id topic_id ts cursor ≡ some (ok tt)
      → OptRooted (set_parent topic_id p ts) cursor
  reject_cycle-OptRooted fuel topic_id p ts none h = tt
  reject_cycle-OptRooted zero topic_id p ts (some c) h = absurd (no_fuel topic_id c ts h)
  reject_cycle-OptRooted (suc fuel) topic_id p ts (some c) h =
      let (other, (t, found, rest)) = step fuel topic_id c ts h in
      node (set_parent topic_id p ts) c t t.parent_id (find-other topic_id c p ts t other found)
        refl (reject_cycle-OptRooted fuel topic_id p ts t.parent_id rest)

  -- What was rooted is still rooted, once the topic has a rooted parent.
  set_parent-keeps :
      (topic_id : ℕ) (p : Option ℕ) (ts : List Topic) (x : ℕ)
      → OptRooted (set_parent topic_id p ts) p
      → IsRooted ts x
      → IsRooted (set_parent topic_id p ts) x
  set_parent-keeps topic_id p ts x h (at_root _ t found up) = elim (Bool-cases (t.id == topic_id)) [
    | inl mine ↦
        node _ x (moved topic_id p t) p (find-some topic_id x p ts t found) (rw mine refl) h
    | inr other ↦
        node _ x (moved topic_id p t) none (find-some topic_id x p ts t found) (rw other up) tt
  ]
  set_parent-keeps topic_id p ts x h (below _ q t found up above) =
      elim (Bool-cases (t.id == topic_id)) [
        | inl mine ↦
            node _ x (moved topic_id p t) p (find-some topic_id x p ts t found) (rw mine refl) h
        | inr other ↦
            node _ x (moved topic_id p t) (some q) (find-some topic_id x p ts t found) (rw other up)
              (set_parent-keeps topic_id p ts q h above)
      ]

  pub set_parent-IsForest :
      (topic_id : ℕ) (p : Option ℕ) (ts : List Topic)
      → OptRooted (set_parent topic_id p ts) p
      → IsForest ts
      → IsForest (set_parent topic_id p ts)
  set_parent-IsForest topic_id p ts h forest x t found =
      elim (Option-cases (find_topic org_id x ts)) [
        | inl missing ↦ absurd (grind (arith, find-set_parent topic_id x p ts, missing, found))
        | inr (old, there) ↦ set_parent-keeps topic_id p ts x h (forest x old there)
      ]

  abbrev named : ℕ → Option String → Topic → Topic
  named topic_id name t = if t.id == topic_id then renamed name t else t

  named-parent :
      (topic_id : ℕ) (name : Option String) (t : Topic)
      → (named topic_id name t).parent_id ≡ t.parent_id
  named-parent topic_id none t = ground arith
  named-parent topic_id (some name) t = ground arith

  renamed-is_topic :
      (x : ℕ) (name : Option String) (t : Topic)
      → ((renamed name t).id == x && (renamed name t).org_id == org_id)
        ≡ (t.id == x && t.org_id == org_id)
  renamed-is_topic x none t = refl
  renamed-is_topic x (some name) t = refl

  find-set_name :
      (topic_id x : ℕ) (name : Option String) (ts : List Topic)
      → find_topic org_id x (set_name topic_id name ts)
        ≡ Option.map (named topic_id name) (find_topic org_id x ts)
  find-set_name topic_id x name ts = first-update _ _ _ ts (λ a. renamed-is_topic x name a)

  set_name-keeps :
      (topic_id : ℕ) (name : Option String) (ts : List Topic) (x : ℕ)
      → IsRooted ts x
      → IsRooted (set_name topic_id name ts) x
  set_name-keeps topic_id name ts x (at_root _ t found up) =
      node _ x (named topic_id name t) none
        (find-set_name topic_id x name ts ∙ ap (Option.map (named topic_id name)) found)
        (named-parent topic_id name t ∙ up) tt
  set_name-keeps topic_id name ts x (below _ q t found up above) =
      node _ x (named topic_id name t) (some q)
        (find-set_name topic_id x name ts ∙ ap (Option.map (named topic_id name)) found)
        (named-parent topic_id name t ∙ up) (set_name-keeps topic_id name ts q above)

  pub set_name-IsForest :
      (topic_id : ℕ) (name : Option String) (ts : List Topic)
      → IsForest ts
      → IsForest (set_name topic_id name ts)
  set_name-IsForest topic_id name ts forest x t found =
      elim (Option-cases (find_topic org_id x ts)) [
        | inl missing ↦ absurd (grind (arith, find-set_name topic_id x name ts, missing, found))
        | inr (old, there) ↦ set_name-keeps topic_id name ts x (forest x old there)
      ]
