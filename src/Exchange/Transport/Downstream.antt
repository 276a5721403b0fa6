-- ===== src/Exchange/Transport/Downstream.antt =====
-- From `send` and `broadcast` of NightNetwork/src/Server.cpp to the packets of NightNetwork/src/Client.cpp.
use project_night.Prelude.{
  ℕ, ◌*◌, ◌≤◌, ◌≡◌, refl, sym, ◌∙◌, ap, subst, inr, List, [], ◌∷◌, ◌++◌, map, length,
}
use project_night.Prelude.Within.{Within, Within-front, Within-trans}
use project_night.Wire.{Bytes}
use project_night.Pool.{Buffer, BufferPool}
use project_night.Pool.Laws.{IsValid}
use project_night.Frame.Laws.{data_frame_lem}
use project_night.Session.{Session, session, start, read_header}
use project_night.Session.Step.{
  Step, Steps, header_read, body_read, written, timer_fired, frame_posted, close_posted,
  other_thread, none_left, then_step,
}
use project_night.NetworkClient.{Client}
use project_night.NetworkClient.Stream.{Ready}
use project_night.Server.{Server, Listening, create}
use project_night.Server.Sending.{frame_of}
use project_night.Server.Step.{ServerSteps}
use project_night.Server.Posting.{raw_frames, Fit, IsPosting}
use project_night.Server.Posting.Runs.{given_in, create-IsPosting}
use project_night.Exchange.Transport.{StepPosts, PostsPayloads, step_payloads, posted_payloads}
use project_night.Exchange.Transport.Delivery.{concat, Reached, session-Reached}

-- The frames that a run of a session took from its strand, in order.
abbrev posted_in_step : (s t : Session) → Step s t → List Buffer
posted_in_step _ _ (header_read s ok bytes now reading sized) = []
posted_in_step _ _ (body_read s ok size body reading sized) = []
posted_in_step _ _ (written s ok pending) = []
posted_in_step _ _ (timer_fired s ok now armed) = []
posted_in_step _ _ (frame_posted s frame) = frame ∷ []
posted_in_step _ _ (close_posted s) = []
posted_in_step _ _ (other_thread s pool valid) = []

abbrev pub posted_in : (s t : Session) → Steps s t → List Buffer
posted_in _ _ (none_left s) = []
posted_in _ _ (then_step s t u run last) = posted_in s t run ++ posted_in_step t u last

-- Frames of payloads in two parts.
record Parts (ps : List Bytes) (xs ys : List Buffer) : Type 0 where
  first : List Bytes
  second : List Bytes
  split : ps ≡ first ++ second
  first_lem : xs ≡ map frame_of first
  second_lem : ys ≡ map frame_of second
  first_fit : Fit first
  second_fit : Fit second

parts :
    (ps : List Bytes) (xs ys : List Buffer) → xs ++ ys ≡ map frame_of ps → Fit ps → Parts ps xs ys
parts ps [] ys e f = record {
  first = [];
  second = ps;
  split = refl;
  first_lem = refl;
  second_lem = e;
  first_fit = tt;
  second_fit = f;
}
parts [] (x ∷ xs) ys e f = cc
parts (p ∷ ps) (x ∷ xs) ys e f =
    let rest = parts ps xs ys (cc e) f.2 in
    record {
      first = p ∷ rest.first;
      second = rest.second;
      split = ap (◌∷◌ p) rest.split;
      first_lem = cc (e, rest.first_lem);
      second_lem = rest.second_lem;
      first_fit = (f.0, f.1, rest.first_fit);
      second_fit = rest.second_fit;
    }

module _ (pool : BufferPool) (valid : IsValid pool) where
  step_posts :
      (s t : Session) (step : Step s t) (ps : List Bytes)
      → posted_in_step s t step ≡ map frame_of ps
      → Fit ps
      → (posts : StepPosts s t step) × (step_payloads s t step posts ≡ ps)
  step_posts _ _ (header_read s ok bytes now reading sized) [] e f = (tt, refl)
  step_posts _ _ (body_read s ok size body reading sized) [] e f = (tt, refl)
  step_posts _ _ (written s ok pending) [] e f = (tt, refl)
  step_posts _ _ (timer_fired s ok now armed) [] e f = (tt, refl)
  step_posts _ _ (frame_posted s frame) [] e f = cc
  step_posts _ _ (close_posted s) [] e f = (tt, refl)
  step_posts _ _ (other_thread s pool' ok) [] e f = (tt, refl)
  step_posts _ _ (frame_posted s frame) (p ∷ []) e f =
      let same : frame ≡ frame_of p = cc e in
      let built = data_frame_lem pool p valid f.0 f.1 in
      ((pool, p, (valid, f.0, f.1), ap (λ (b : Buffer). b.bytes) (same ∙ sym built)), refl)
  step_posts _ _ (frame_posted s frame) (p ∷ q ∷ ps) e f = cc
  step_posts _ _ (header_read s ok bytes now reading sized) (p ∷ ps) e f = cc
  step_posts _ _ (body_read s ok size body reading sized) (p ∷ ps) e f = cc
  step_posts _ _ (written s ok pending) (p ∷ ps) e f = cc
  step_posts _ _ (timer_fired s ok now armed) (p ∷ ps) e f = cc
  step_posts _ _ (close_posted s) (p ∷ ps) e f = cc
  step_posts _ _ (other_thread s pool' ok) (p ∷ ps) e f = cc

  -- A run that took the frames of payloads from its strand posts those payloads.
  run_posts :
      (s t : Session) (run : Steps s t) (ps : List Bytes)
      → posted_in s t run ≡ map frame_of ps
      → Fit ps
      → (posts : PostsPayloads s t run) × (posted_payloads s t run posts ≡ ps)
  run_posts _ _ (none_left s) [] e f = (tt, refl)
  run_posts _ _ (none_left s) (p ∷ ps) e f = cc
  run_posts _ _ (then_step s t u run last) ps e f =
      let cut = parts ps (posted_in s t run) (posted_in_step t u last) e f in
      let before = run_posts s t run cut.first cut.first_lem cut.first_fit in
      let after = step_posts t u last cut.second cut.second_lem cut.second_fit in
      (
        (before.0, after.0),
        ap (λ (l : List Bytes). l ++ step_payloads t u last after.0) before.1
            ∙ ap (◌++◌ cut.first) after.1
            ∙ sym cut.split,
      )

-- In every run of a server that `create` gave, and every run of the session with an id, which takes
-- the frames that the server posted to it from its strand in order: a client that waits for a header,
-- is connected and is not shutting down reads all the bytes that the session wrote, in at most two
-- reads for each frame, and stays connected; what arrives is payloads that were given to `send` for
-- that id or to `broadcast`, unchanged and in the order of the calls, each at most once; some may be
-- missing, for they were refused, or wait. The pools of the threads are valid.
pub server-Reached :
    (calls : Listening) (v w : Server) (id : ℕ) (pool : BufferPool) (now : ℕ) (t : Session)
    (later : List Buffer) (clock : ℕ → ℕ) (n : ℕ) (c : Client)
    → create calls ≡ inr v
    → (run : ServerSteps v w) → IsValid pool
    → (talk : Steps (start (session pool now)) t)
    → posted_in (start (session pool now)) t talk ++ later ≡ raw_frames id w.to_sessions
    → c.reading ≡ read_header
    → Ready c
    → 2 * length t.wire ≤ n
    → Reached clock n c (concat t.wire) (given_in id v w run)
server-Reached calls v w id pool now t later clock n c made run valid talk taken waits ready
      enough =
    let s = start (session pool now) in
    let all : IsPosting id w (given_in id v w run) = create-IsPosting id calls v w made run in
    let cut = parts all.posted (posted_in s t talk) later (taken ∙ all.posted_lem) all.posted_fit in
    let posts = run_posts pool valid s t talk cut.first cut.first_lem cut.first_fit in
    let given : Within cut.first (given_in id v w run) =
      Within-front cut.first cut.second (given_in id v w run) (
        subst (λ l. Within l (given_in id v w run)) cut.split
          (Within-front all.posted all.waiting (given_in id v w run) all.order)) in
    let r = session-Reached pool now t clock n c valid talk posts.0 waits ready enough in
    record {
      next = r.next;
      read = r.read;
      new = r.new;
      arrived = r.arrived;
      from_posted =
          Within-trans r.new cut.first (given_in id v w run)
            (subst (Within r.new) posts.1 r.from_posted) given;
      waiting = r.waiting;
      ready = r.ready;
    }
