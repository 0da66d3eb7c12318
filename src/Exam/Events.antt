-- ===== src/Exam/Events.antt =====
-- services/exam/app/repositories/session_events.py and app/services/session_events.py: the
-- append-only event log of a session.
use dsa_platform.Prelude.{ℕ, ◌+◌, Bool, Option, [], ◌∷◌, ◌++◌, ◌==◌}
use dsa_platform.Prelude.Table.{max_of}
use dsa_platform.Exam.Db.{SessionEvent, Payload, Db, World, commit}

abbrev pub of_session : ℕ → SessionEvent → Bool
of_session sid e = e.session_id == sid

pub next_event : Db → ℕ → ℕ → Payload → Option ℕ → SessionEvent
next_event db org_id session_id payload version = record {
  org_id = org_id;
  session_id = session_id;
  seq = max_of (of_session session_id) (λ e. e.seq) db.events + 1;
  payload = payload;
  question_version_id = version;
}

pub create_event : SessionEvent → World → World
create_event e w = record w { db = record w.db { events = w.db.events ++ (e ∷ []) } }

unfoldable pub emit : ℕ → ℕ → Payload → Option ℕ → World → World
unfolding next_event create_event
emit org_id session_id payload version w =
    let e = next_event w.db org_id session_id payload version in
    let w' = commit (create_event e w) in record w' { published = w'.published ++ (e ∷ []) }
