-- ===== src/Exchange/Transport.antt =====
-- From the write queue of NightNetwork/src/Session.cpp to the packets of NightNetwork/src/Client.cpp.
pub mod Delivery
pub mod Upstream
pub mod Downstream
pub mod Arrival
pub mod Posted
pub mod Received
use mathlib.Core.List.{map-append}
use project_night.Prelude.{
  ℕ, ◌+◌, ◌*◌, ◌<◌, ◌≤◌, ◌≡◌, refl, sym, ◌∙◌, ap, subst, List, [], ◌∷◌, ◌++◌, map, arith, length,
  length-map,
}
use project_night.Prelude.Within.{Within, nothing, also, without}
use project_night.Wire.{Bytes}
use project_night.Pool.{BufferPool}
use project_night.Pool.Laws.{IsValid}
use project_night.Frame.{build_data_frame, build_keepalive_frame}
use project_night.Session.{Session, session, start, read_header}
use project_night.Session.Sound.{IsSound}
use project_night.Session.Invariant.{Steps-IsSound, start-IsSound}
use project_night.Session.Step.{
  Step, Steps, header_read, body_read, written, timer_fired, frame_posted, close_posted,
  other_thread, none_left, then_step,
}
use project_night.Session.Fifo.{line}
use project_night.Session.Fifo.Runs.{offered_in, start-Within}
use project_night.Reader.{
  Sent, sent_data, sent_keepalive, frame_of, stream_of, payloads_of, IsSendable, AreSendable,
  read_stream,
}
use project_night.NetworkClient.{Client}
use project_night.NetworkClient.Stream.{client_reader, Ready, client-Delivers}

-- The frames that a run is given are those of payloads.
abbrev pub StepPosts : (s t : Session) → Step s t → Type 0
StepPosts _ _ (header_read s ok bytes now reading sized) = Unit
StepPosts _ _ (body_read s ok size body reading sized) = Unit
StepPosts _ _ (written s ok pending) = Unit
StepPosts _ _ (timer_fired s ok now armed) = Unit
StepPosts _ _ (frame_posted s frame) =
    (pool : BufferPool) × (payload : Bytes) × IsSendable (sent_data pool payload)
    × (frame.bytes ≡ (build_data_frame pool payload).0.bytes)
StepPosts _ _ (close_posted s) = Unit
StepPosts _ _ (other_thread s pool valid) = Unit

abbrev pub PostsPayloads : (s t : Session) → Steps s t → Type 0
PostsPayloads _ _ (none_left s) = Unit
PostsPayloads _ _ (then_step s t u run last) = PostsPayloads s t run × StepPosts t u last

-- What a step offers to the write queue, by what it is the frame of.
abbrev step_units : (s t : Session) (step : Step s t) → StepPosts s t step → List Sent
step_units _ _ (header_read s ok bytes now reading sized) p = []
step_units _ _ (body_read s ok size body reading sized) p = []
step_units _ _ (written s ok pending) p = []
step_units _ _ (timer_fired s ok now armed) p = sent_keepalive s.pool ∷ []
step_units _ _ (frame_posted s frame) p = sent_data p.0 p.1 ∷ []
step_units _ _ (close_posted s) p = []
step_units _ _ (other_thread s pool valid) p = []

abbrev pub units : (s t : Session) (run : Steps s t) → PostsPayloads s t run → List Sent
units _ _ (none_left s) p = []
units _ _ (then_step s t u run last) p = units s t run p.0 ++ step_units t u last p.1

-- The payloads that were posted, in order.
abbrev pub step_payloads : (s t : Session) (step : Step s t) → StepPosts s t step → List Bytes
step_payloads _ _ (header_read s ok bytes now reading sized) p = []
step_payloads _ _ (body_read s ok size body reading sized) p = []
step_payloads _ _ (written s ok pending) p = []
step_payloads _ _ (timer_fired s ok now armed) p = []
step_payloads _ _ (frame_posted s frame) p = p.1 ∷ []
step_payloads _ _ (close_posted s) p = []
step_payloads _ _ (other_thread s pool valid) p = []

abbrev pub posted_payloads : (s t : Session) (run : Steps s t) → PostsPayloads s t run → List Bytes
posted_payloads _ _ (none_left s) p = []
posted_payloads _ _ (then_step s t u run last) p =
    posted_payloads s t run p.0 ++ step_payloads t u last p.1

pub AreSendable-append :
    (us vs : List Sent) → AreSendable us → AreSendable vs → AreSendable (us ++ vs)
AreSendable-append [] vs a b = b
AreSendable-append (u ∷ us) vs a b = (a.0, AreSendable-append us vs a.1 b)

pub payloads_of-append :
    (us vs : List Sent) → payloads_of (us ++ vs) ≡ payloads_of us ++ payloads_of vs
payloads_of-append [] vs = refl
payloads_of-append (sent_data pool payload ∷ us) vs = ap (◌∷◌ payload) (payloads_of-append us vs)
payloads_of-append (sent_keepalive pool ∷ us) vs = payloads_of-append us vs

-- The units of a run stand for what it offers.
pub record StandsFor (us : List Sent) (frames payloads : List Bytes) : Type 0 where
  pub sendable : AreSendable us
  pub frames_lem : map frame_of us ≡ frames
  pub payloads_lem : payloads_of us ≡ payloads

StandsFor-append :
    (us vs : List Sent) (fs gs ps qs : List Bytes)
    → StandsFor us fs ps
    → StandsFor vs gs qs
    → StandsFor (us ++ vs) (fs ++ gs) (ps ++ qs)
StandsFor-append us vs fs gs ps qs a b = record {
  sendable = AreSendable-append us vs a.sendable b.sendable;
  frames_lem =
      map-append frame_of us vs
      ∙ ap (λ (l : List Bytes). l ++ map frame_of vs) a.frames_lem
      ∙ ap (◌++◌ fs) b.frames_lem;
  payloads_lem =
      payloads_of-append us vs
      ∙ ap (λ (l : List Bytes). l ++ payloads_of vs) a.payloads_lem
      ∙ ap (◌++◌ ps) b.payloads_lem;
}

nothing_offered : StandsFor [] [] []
nothing_offered = record { sendable = tt; frames_lem = refl; payloads_lem = refl }

step_units-StandsFor :
    (s t : Session) (step : Step s t) (p : StepPosts s t step)
    → IsSound s
    → StandsFor
        (step_units s t step p)
        (offered_in s t (then_step s s t (none_left s) step))
        (step_payloads s t step p)
step_units-StandsFor _ _ (header_read s ok bytes now reading sized) p v = nothing_offered
step_units-StandsFor _ _ (body_read s ok size body reading sized) p v = nothing_offered
step_units-StandsFor _ _ (written s ok pending) p v = nothing_offered
step_units-StandsFor _ _ (timer_fired s ok now armed) p v = record {
  sendable = (v.safe.pool, tt);
  frames_lem = refl;
  payloads_lem = refl;
}
step_units-StandsFor _ _ (frame_posted s frame) p v = record {
  sendable = (p.2, tt);
  frames_lem = ap (λ (b : Bytes). b ∷ []) (sym p.3);
  payloads_lem = refl;
}
step_units-StandsFor _ _ (close_posted s) p v = nothing_offered
step_units-StandsFor _ _ (other_thread s pool valid) p v = nothing_offered

pub units-StandsFor :
    (s t : Session) (run : Steps s t) (p : PostsPayloads s t run)
    → IsSound s
    → StandsFor (units s t run p) (offered_in s t run) (posted_payloads s t run p)
units-StandsFor _ _ (none_left s) p v = nothing_offered
units-StandsFor _ _ (then_step s t u run last) p v =
    StandsFor-append (units s t run p.0) (step_units t u last p.1) (offered_in s t run)
      (offered_in t u (then_step t t u (none_left t) last)) (posted_payloads s t run p.0)
      (step_payloads t u last p.1) (units-StandsFor s t run p.0 v)
      (step_units-StandsFor t u last p.1 (Steps-IsSound s t run v))
