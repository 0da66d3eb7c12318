-- ===== src/Lib.antt =====
-- The services of an exam platform for programming interviews: what they do to their data, and the
-- theorems that make it right.
--
-- A candidate takes an exam over the gateway (services/gateway), the only service that can be
-- reached from outside. It forwards to the exam service (services/exam), which opens a session,
-- assigns questions that it gets from the question service, stores submissions and puts a job for
-- each one on a queue. The judge (services/judge) takes the job, compiles and runs the program in
-- containers and puts a verdict on another queue, which the exam service consumes: it stores the
-- verdict once, tells the live channel and asks the ai service for the next difficulty. Examiners log
-- in to the exam service and schedule exams there, by a blueprint that the ai service proposes; the
-- ai service (services/ai) drafts the questions, has the judge compare two solutions of each on
-- inputs that it draws, and puts the question, with its test cases, into the bank of the question
-- service (services/question). A candidate exchanges an invitation for a token and begins.
--
-- Files and sources:
--   Prelude        tests, lists, handlers, tables, keys and signed numbers that the parts share
--   Exam.Db        services/exam/app/models, messaging/contracts.py, core/exceptions.py, db/session.py:
--                  the rows, the messages, the world of a service; `close` is what is left of a
--                  transaction when its request ends
--   Exam.Events    services/exam/app/services/session_events.py and its repository
--   Exam.Submissions  services/exam/app/services/submissions.py and its repository
--   Exam.Verdicts  services/exam/app/services/verdicts.py: Settle has the handler
--                  `process_verdict_message`, the other files what is proved of it
--   Exam.Sessions  services/exam/app/services/sessions.py, sampling.py and their repositories: Rows
--                  and Assign have the tables and the choice of questions, Handlers and Grading the
--                  handlers `start_session`, `get_session`, `get_question_content` and `submit`, the
--                  other files what is proved of them
--   Exam.Login     services/exam/app/services/auth.py and its repositories: registration, login, and
--                  the rotation of refresh tokens, of which Reuse and Rotation prove
--   Exam.Scheduling  services/exam/app/services/ai_scheduling.py, `send_invite` of scheduling.py,
--                  `create_blueprint` of blueprints.py and the routes of api/routes/exams.py that call
--                  them; Ready, Reviewed and Reachable have the proofs
--   Exam.Exchange  services/exam/app/services/candidate_auth.py, and Once what is proved of it
--   Gateway        services/gateway/app: Routing is routing.py, Auth is auth.py, Limits is
--                  rate_limit.py, with a clock and faults of Redis, Edge is the handler of main.py with
--                  proxy.py and the handshake of ws_proxy.py, where the upstream may have no answer;
--                  Longest, Limiting, Planes, Headers and Window have the proofs
--   Judge          services/judge/app: Contracts, Compare and Sandbox are the files of these names,
--                  Runner is exec_common.py and runner.py, Differ is gen_runner.py, and Sides says what
--                  its sides printed
--   Question       services/question/app/services and its repositories: Topics is topics.py, with
--                  proofs in Rooted, Forest, Creation and Deletion; Bank has the tables, Versions is
--                  questions.py and Cases is test_cases.py, with proofs in Frozen, Kept, Published,
--                  Requests and Outcome
--   Ai             services/ai/app: Drafts is generation/schemas.py, Validate is
--                  generation/validate.py, Inputs is generation/input_generator.py, Texts the methods
--                  of `str` that they use; Jobs has the models and repositories, Generation is
--                  services/generation.py, Factory services/testcase_generation.py and Consumer
--                  services/gen_consumer.py; the other files are what is proved of them
--
-- How the model is made. Identifiers are natural numbers and so are points in time, in seconds; a
-- request reads the clock once, but for the rate limiter, which reads it twice as its source does. A
-- service's world is its database, the rows that are committed, and what it has sent to queues,
-- channels and Redis, in order. A handler maps a world to a result or an error, with the world as
-- far as it got. In the exam service the calls of Redis and of the queue succeed, but for those of
-- `_lock_if_expired`, which may raise after the commit (`lock_stopped`); in the gateway each command
-- of the rate limiter may raise and the upstream may have no answer, and the body of a request is
-- taken to arrive whole. A difficulty is kept in tenths (Ai/Difficulty.antt has its rules,
-- Ai/Behaviour.antt the scores). Texts that are only passed on are strings; where the code looks into
-- them they are lists of code points. A job of the judge keeps the commands that it gave to docker.
-- Requests and messages are handled one after the other; a sequence of them is a list.
--
-- Parameters: the answers of other services and of the language model, `random`, fresh identifiers
-- and names, argon2, pyotp, PyJWT's decoder, Google's verifier, the mail, the upstream's answer,
-- docker, the object store, JSON, base64 and UTF-8. What the code needs of them stands as a hypothesis
-- of the theorem that uses it. Three recursions have fuel: the one that writes a number in decimal has
-- as much as the number, and the proof that it is read back shows that this is enough; for the walk
-- over the parents of a topic it is proved that there is enough; the rounds of a generation job are
-- as many as attempts are left, and it is proved that they end it. The questions of the bank and the
-- jobs of the ai service are changed in segments that are committed or rolled back as a whole.
--
-- Not modelled: profiles, evaluations and reports of the ai service, the change of blueprints,
-- exams that are scheduled by hand, follow-up questions and results of the exam
-- service, the relayed frames of a websocket, the queues' delivery, two requests at the same time,
-- digits of other scripts than ASCII in the check of an input, the files that the judge writes in its
-- scratch directory, configuration, logging, migrations and the frontend.
pub mod Prelude
pub mod Ai
pub mod Exam
pub mod Gateway
pub mod Judge
pub mod Question
