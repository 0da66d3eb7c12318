-- ===== src/Question/Tests.antt =====
-- A bank with two topics, and the theorem about edits of topics at it.
use dsa_platform.Prelude.{
  ℕ, ◌<◌, ◌≡◌, refl, inl, inr, true, none, some, List, [], ◌∷◌, ◌==◌, Bool-cases, arith, err,
}
use dsa_platform.Prelude.Table.{first, update}
use dsa_platform.Question.Topics.{Topic, TopicError, update_topic, reject_cycle}
use dsa_platform.Question.Rooted.{IsRooted, at_root, below, IsForest}
use dsa_platform.Question.Topics.{create_topic}
use dsa_platform.Question.Creation.{Created, create_topic-Created}
use dsa_platform.Question.Topics.{Bank, delete_topic}
use dsa_platform.Question.Deletion.{Deleted, delete_topic-Deleted}
use dsa_platform.Question.Forest.{Kept, update_topic-Kept}

abbrev graphs : Topic
graphs = record { id = 1; org_id = 5; name = "Graphs"; parent_id = none }

abbrev paths : Topic
paths = record { id = 2; org_id = 5; name = "Paths"; parent_id = some 1 }

abbrev bank : List Topic
bank = graphs ∷ paths ∷ []

graphs-IsRooted : IsRooted 5 bank 1
unfolding first
graphs-IsRooted = at_root 1 graphs refl refl

bank-IsForest : IsForest 5 bank
unfolding first
bank-IsForest x t found = elim (Bool-cases (1 == x)) [
  | inl root ↦ at_root x t found (ground arith)
  | inr other ↦ below x 1 t found (ground arith) graphs-IsRooted
]

cycle_refused :
    update_topic 4 5 1 none (some 2) true bank
    ≡ some (err (TopicError.conflict "Topic parent would create a cycle"))
unfolding update_topic reject_cycle first update
cycle_refused = refl

update_topic-Kept_example :
    (n : ℕ) × ((m : ℕ) → n < m → Kept 5 (update_topic m 5 2 (some "Walks") (some 1) true bank))
update_topic-Kept_example = update_topic-Kept 5 2 (some "Walks") (some 1) true bank bank-IsForest

create_topic-Created_example : Created 5 (some 2) bank (create_topic 3 5 "Trees" (some 2) bank)
create_topic-Created_example = create_topic-Created 3 5 "Trees" (some 2) bank bank-IsForest

abbrev tables : Bank
tables = record { topics = bank; question_topics = (9, 1) ∷ [] }

delete_topic-Deleted_example : Deleted 5 2 tables (delete_topic 5 2 tables)
delete_topic-Deleted_example = delete_topic-Deleted 5 2 tables bank-IsForest
