-- ===== src/Exam/Verdicts/Rows.antt =====
-- The rows of `case_verdicts`: which verdict a case keeps, and that no key is stored twice.
use mathlib.Core.Path.{subst}
use dsa_platform.Prelude.{
  ℕ, ◌≡◌, refl, ◌∙◌, false, Option, none, some, List, [], ◌∷◌, ◌++◌, arith, ◌==◌, ◌&&◌, inl, inr,
  Option-cases, Bool-cases, ==_refl, ==_iff, if◌then◌else◌, is_some,
}
use dsa_platform.Prelude.Table.{first, or_else, first-append}
use dsa_platform.Exam.Db.{Submission, CaseVerdict, World}
use dsa_platform.Exam.Events.{emit}
use dsa_platform.Exam.Verdicts.Redelivery.{by_id, process-unknown, process-known}
use dsa_platform.Exam.Verdicts.Settle.{
  is_terminal, CaseResult, VerdictMessage, AiClient, is_case, case_row, upsert_case_verdict,
  upsert_all, signal_difficulty, settle, announce, deliver, process_verdict_message,
}

abbrev pub row_at : ℕ → ℕ → List CaseVerdict → Option CaseVerdict
row_at sid o rows = first (is_case sid o) rows

-- The first result that a message lists for a case.
unfoldable pub listed : ℕ → ℕ → ℕ → List CaseResult → Option CaseVerdict
listed org_id sid o [] = none
listed org_id sid o (c ∷ cs) =
    if c.ordinal == o then some (case_row org_id sid c) else listed org_id sid o cs

upsert_self :
    (org_id sid : ℕ) (c : CaseResult) (rows : List CaseVerdict)
    → row_at sid c.ordinal (upsert_case_verdict org_id sid c rows)
      ≡ or_else (row_at sid c.ordinal rows) (some (case_row org_id sid c))
unfolding upsert_case_verdict
upsert_self org_id sid c rows = elim (Option-cases (row_at sid c.ordinal rows)) [
  | inl new ↦ rw new (
      rw (first-append (is_case sid c.ordinal) rows (case_row org_id sid c ∷ []), new)
        (unfold first in rw (==_refl sid, ==_refl c.ordinal) refl))
  | inr (v, old) ↦ rw old old
]

upsert_other :
    (org_id sub sid o : ℕ) (c : CaseResult) (rows : List CaseVerdict)
    → (sub == sid && c.ordinal == o) ≡ false
    → row_at sid o (upsert_case_verdict org_id sub c rows) ≡ row_at sid o rows
unfolding upsert_case_verdict
upsert_other org_id sub sid o c rows other =
    elim (Bool-cases (is_some (row_at sub c.ordinal rows))) [
      | inl old ↦ rw old
      | inr new ↦
          rw (new, first-append (is_case sid o) rows (case_row org_id sub c ∷ []))
            (unfold first in rw other (ground arith))
    ]

-- After the cases of a message are stored, the row of a case is the one that was there before, or
-- else the first that the message lists for it.
pub row_at-upsert_all :
    (org_id sid o : ℕ) (cs : List CaseResult) (rows : List CaseVerdict)
    → row_at sid o (upsert_all org_id sid cs rows)
      ≡ or_else (row_at sid o rows) (listed org_id sid o cs)
unfolding upsert_all listed
row_at-upsert_all org_id sid o [] rows = ground arith
row_at-upsert_all org_id sid o (c ∷ cs) rows =
    row_at-upsert_all org_id sid o cs (upsert_case_verdict org_id sid c rows)
    ∙ elim (Bool-cases (c.ordinal == o)) [
      | inl here ↦ rw here (
          subst
            (λ k.
              or_else (row_at sid k (upsert_case_verdict org_id sid c rows))
                (listed org_id sid o cs)
              ≡ or_else (row_at sid k rows) (some (case_row org_id sid c)))
            ((==_iff c.ordinal o).0 here) (rw (upsert_self org_id sid c rows) (ground arith)))
      | inr there ↦ rw (there, upsert_other org_id sid sid o c rows (ground arith)) refl
    ]

-- Rows of other submissions are not touched.
row_at-upsert_all_other :
    (org_id sub sid o : ℕ) (cs : List CaseResult) (rows : List CaseVerdict)
    → (sub == sid) ≡ false
    → row_at sid o (upsert_all org_id sub cs rows) ≡ row_at sid o rows
unfolding upsert_all
row_at-upsert_all_other org_id sub sid o [] rows other = refl
row_at-upsert_all_other org_id sub sid o (c ∷ cs) rows other =
    row_at-upsert_all_other org_id sub sid o cs (upsert_case_verdict org_id sub c rows) other
    ∙ upsert_other org_id sub sid o c rows (rw other refl)

-- No two rows have the same submission and ordinal.
abbrev pub KeysUnique : List CaseVerdict → Type 0
KeysUnique [] = Unit
KeysUnique (v ∷ vs) = (row_at v.submission_id v.ordinal vs ≡ none) × KeysUnique vs

is_case_sym :
    (v u : CaseVerdict) → is_case u.submission_id u.ordinal v ≡ is_case v.submission_id v.ordinal u
is_case_sym v u = ground arith

KeysUnique-append :
    (rows : List CaseVerdict) (v : CaseVerdict)
    → KeysUnique rows
    → row_at v.submission_id v.ordinal rows ≡ none
    → KeysUnique (rows ++ v ∷ [])
unfolding first
KeysUnique-append [] v h new = (refl, tt)
KeysUnique-append (u ∷ us) v h new = (
  rw (first-append (is_case u.submission_id u.ordinal) us (v ∷ []), h.0)
      (ground (arith, is_case_sym u v)),
  KeysUnique-append us v h.1 (ground arith),
)

upsert-KeysUnique :
    (org_id sid : ℕ) (c : CaseResult) (rows : List CaseVerdict)
    → KeysUnique rows
    → KeysUnique (upsert_case_verdict org_id sid c rows)
unfolding upsert_case_verdict
upsert-KeysUnique org_id sid c rows h = elim (Option-cases (row_at sid c.ordinal rows)) [
  | inl new ↦ rw new (KeysUnique-append rows (case_row org_id sid c) h new)
  | inr (v, old) ↦ rw old h
]

upsert_all-KeysUnique :
    (org_id sid : ℕ) (cs : List CaseResult) (rows : List CaseVerdict)
    → KeysUnique rows
    → KeysUnique (upsert_all org_id sid cs rows)
unfolding upsert_all
upsert_all-KeysUnique org_id sid [] rows h = h
upsert_all-KeysUnique org_id sid (c ∷ cs) rows h =
    upsert_all-KeysUnique org_id sid cs (upsert_case_verdict org_id sid c rows)
      (upsert-KeysUnique org_id sid c rows h)

verdicts-signal :
    (ai : AiClient) (now sid : ℕ) (s : Submission) (m : VerdictMessage) (w : World)
    → (signal_difficulty ai now sid s m w).db.verdicts ≡ w.db.verdicts
unfolding signal_difficulty
verdicts-signal ai now sid s m w = ground arith

pub verdicts-announce :
    (ai : AiClient) (now : ℕ) (m : VerdictMessage) (s : Submission) (w : World)
    → (announce ai now m s w).db.verdicts ≡ w.db.verdicts
unfolding announce emit
verdicts-announce ai now m s w = grind (arith, verdicts-signal)

deliver-KeysUnique :
    (ai : AiClient) (now : ℕ) (m : VerdictMessage) (s : Submission) (w : World)
    → KeysUnique w.db.verdicts
    → KeysUnique (deliver ai now m s w).db.verdicts
unfolding deliver settle
deliver-KeysUnique ai now m s w h = elim (Bool-cases (s.org_id == m.org_id)) [
  | inr foreign ↦ rw foreign h
  | inl ours ↦ elim (Bool-cases (is_terminal s.status)) [
    | inl done ↦ rw (ours, done) h
    | inr live ↦
        rw (ours, live, verdicts-announce ai now m s (settle m s w))
          (upsert_all-KeysUnique s.org_id s.id m.cases w.db.verdicts h)
  ]
]

-- Processing any message keeps the case rows free of duplicate keys.
pub process_verdict_message-KeysUnique :
    (ai : AiClient) (now : ℕ) (m : VerdictMessage) (w : World)
    → KeysUnique w.db.verdicts
    → KeysUnique (process_verdict_message ai now m w).db.verdicts
process_verdict_message-KeysUnique ai now m w h = elim (Option-cases (by_id m.submission_id w)) [
  | inl unknown ↦ rw (process-unknown ai now m w unknown) h
  | inr (s, found) ↦ rw (process-known ai now m s w found) (deliver-KeysUnique ai now m s w h)
]
