-- ===== src/Exam/ExchangeTests.antt =====
-- An invitation in Redis, its exchange, and the theorem about a second one at it.
use dsa_platform.Prelude.{◌≡◌, refl, true, none, some, [], ◌∷◌, ok}
use dsa_platform.Prelude.Table.{first, update, remove}
use dsa_platform.Exam.Scheduling.{InviteStatus, Invite, InviteKey, Board}
use dsa_platform.Exam.SchedulingTests.{proposal, services}
use dsa_platform.Exam.Exchange.{InvitePayload, Plane, Event, exchange, steps, used}
use dsa_platform.Exam.Exchange.Once.{is_refused, exchange_once}

abbrev payload : InvitePayload
payload = record {
  jti = 3;
  invite_id = 6;
  exam_id = 1;
  org_id = 5;
  candidate_email = "ada@example.org";
  type = "candidate_invite";
}

abbrev plane : Plane
plane = record {
  decode = λ token now. some payload;
  verify = λ google. some (record { email = "ada@example.org"; email_verified = true });
  normalize = λ email. email;
  create_candidate_exam_token = λ i e now. "exam";
}

abbrev invitation : Invite
invitation = record {
  id = 6;
  org_id = 5;
  exam_id = 1;
  jti = 3;
  candidate_email = "ada@example.org";
  status = InviteStatus.pending;
  consumed_at = none;
}

abbrev key : InviteKey
key = record { jti = 3; invite_id = 6; exam_id = 1; set_at = 100; ttl = 800 }

abbrev invited : Board
invited = record {
  versions = [];
  exams = proposal ∷ [];
  slots = [];
  invites = invitation ∷ [];
  keys = key ∷ [];
  emails = [];
}

abbrev admitted : Board
admitted = record invited { invites = used 200 invitation ∷ []; keys = [] }

exchanged : exchange plane 200 "t" "g" invited ≡ (ok (proposal, "exam"), admitted)
unfolding exchange first update remove
exchanged = refl

exchange_once_example :
    is_refused
      (exchange plane 300 "t" "h"
        (steps services plane (Event.invite 250 proposal ∷ []) admitted)).0
    ≡ true
exchange_once_example =
    exchange_once services plane 200 300 "t" "g" "t" "h" payload payload invited admitted
      (proposal, "exam") (Event.invite 250 proposal ∷ []) refl refl refl (λ s. refl) exchanged
