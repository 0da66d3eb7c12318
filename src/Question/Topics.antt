-- ===== src/Question/Topics.antt =====
-- services/question/app/services/topics.py with app/repositories/topics.py. A handler gives the
-- tables it commits; after an error the request's transaction is rolled back, so there are none.
use dsa_platform.Prelude.{
  ℕ, zero, suc, String, Bool, true, false, Option, none, some, List, [], ◌∷◌, ◌++◌, ◌==◌, ◌&&◌,
  opt_eq, not, any, is_some, if◌then◌else◌, Result, ok, err,
}
use dsa_platform.Prelude.Table.{first, update, remove}

pub record Topic : Type 0 where
  pub id : ℕ
  pub org_id : ℕ
  pub name : String
  pub parent_id : Option ℕ

-- The table of topics, and the links of questions to topics.
pub record Bank : Type 0 where
  pub topics : List Topic
  pub question_topics : List (ℕ × ℕ)

pub data TopicError : Type 0 where
  not_found conflict : String → TopicError

abbrev is_topic : ℕ → ℕ → Topic → Bool
is_topic org_id topic_id t = t.id == topic_id && t.org_id == org_id

-- `get_by_id`
abbrev pub find_topic : ℕ → ℕ → List Topic → Option Topic
find_topic org_id topic_id ts = first (is_topic org_id topic_id) ts

abbrev pub up_from :
    (Option ℕ → Option (Result TopicError Unit)) → Option Topic → Option (Result TopicError Unit)
up_from go none = some (err (TopicError.not_found "Topic not found"))
up_from go (some t) = go t.parent_id

-- The loop of `_reject_cycle`; without fuel it has not ended.
unfoldable pub reject_cycle : ℕ → ℕ → ℕ → List Topic → Option ℕ → Option (Result TopicError Unit)
reject_cycle fuel org_id topic_id ts none = some (ok tt)
reject_cycle zero org_id topic_id ts (some cursor) = none
reject_cycle (suc fuel) org_id topic_id ts (some cursor) =
    let go = reject_cycle fuel org_id topic_id ts in
    if cursor == topic_id
    then some (err (TopicError.conflict "Topic parent would create a cycle"))
    else up_from go (find_topic org_id cursor ts)

abbrev pub renamed : Option String → Topic → Topic
renamed none t = t
renamed (some name) t = record t { name = name }

-- `topic.parent_id = parent_id` on the row
abbrev pub set_parent : ℕ → Option ℕ → List Topic → List Topic
set_parent topic_id parent_id ts =
    update (λ (r : Topic). r.id == topic_id) (λ r. record r { parent_id = parent_id }) ts

abbrev pub set_name : ℕ → Option String → List Topic → List Topic
set_name topic_id name ts = update (λ (r : Topic). r.id == topic_id) (renamed name) ts

abbrev pub set_if_free :
    ℕ
    → Option ℕ
    → List Topic
    → Option (Result TopicError Unit)
    → Option (Result TopicError (List Topic))
set_if_free topic_id parent_id ts none = none
set_if_free topic_id parent_id ts (some (err e)) = some (err e)
set_if_free topic_id parent_id ts (some (ok u)) = some (ok (set_parent topic_id parent_id ts))

-- the part of `update_topic` that moves a topic, under `parent_set`
abbrev pub move : ℕ → ℕ → ℕ → Option ℕ → Bool → List Topic → Option (Result TopicError (List Topic))
move fuel org_id topic_id parent_id false ts = some (ok ts)
move fuel org_id topic_id parent_id true ts =
    set_if_free topic_id parent_id ts (reject_cycle fuel org_id topic_id ts parent_id)

abbrev pub update_found :
    ℕ
    → ℕ
    → ℕ
    → Option String
    → Option ℕ
    → Bool
    → List Topic
    → Option Topic
    → Option (Result TopicError (List Topic))
update_found fuel org_id topic_id name parent_id parent_set ts none =
    some (err (TopicError.not_found "Topic not found"))
update_found fuel org_id topic_id name parent_id parent_set ts (some t) =
    move fuel org_id topic_id parent_id parent_set (set_name topic_id name ts)

-- The topics after the commit. Nothing is returned where the walk is not at its end.
unfoldable pub update_topic :
    ℕ
    → ℕ
    → ℕ
    → Option String
    → Option ℕ
    → Bool
    → List Topic
    → Option (Result TopicError (List Topic))
update_topic fuel org_id topic_id name parent_id parent_set ts =
    update_found fuel org_id topic_id name parent_id parent_set ts (find_topic org_id topic_id ts)

abbrev pub has_parent : ℕ → Option ℕ → List Topic → Bool
has_parent org_id none ts = true
has_parent org_id (some p) ts = is_some (find_topic org_id p ts)

-- `id` is a fresh one
unfoldable pub create_topic :
    ℕ → ℕ → String → Option ℕ → List Topic → Result TopicError (List Topic)
create_topic id org_id name parent_id ts =
    if has_parent org_id parent_id ts
    then ok (ts ++ (record { id = id; org_id = org_id; name = name; parent_id = parent_id } ∷ []))
    else err (TopicError.not_found "Topic not found")

unfoldable pub delete_topic : ℕ → ℕ → Bank → Result TopicError Bank
delete_topic org_id topic_id bank =
    if not (is_some (find_topic org_id topic_id bank.topics))
    then err (TopicError.not_found "Topic not found")
    else if any (λ (t : Topic). opt_eq t.parent_id (some topic_id) && t.org_id == org_id)
        bank.topics
    then err (TopicError.conflict "Topic has child topics")
    else if any (λ (l : ℕ × ℕ). l.1 == topic_id) bank.question_topics
    then err (TopicError.conflict "Topic is attached to questions")
    else ok (record bank { topics = remove (λ (t : Topic). t.id == topic_id) bank.topics })
