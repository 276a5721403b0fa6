-- ===== src/Session/Fifo/Runs.antt =====
-- What a run of NightNetwork/src/Session.cpp writes, against the frames that it was offered.
use mathlib.Core.List.{append-nil, append_assoc}
use project_night.Prelude.{
  ℕ, ◌-◌, ◌*◌, ◌^◌, ◌≡◌, refl, sym, ◌∙◌, ap, subst, ◌⊎◌, inl, inr, Bool, true, false, List, [], ◌∷◌,
  ◌++◌, Bool-cases, leb,
}
use project_night.Prelude.Within.{Within, nothing, without, Within-all, Within-append}
use project_night.Wire.{Bytes, Decoded, header, unexpected, decode_header, is_keepalive}
use project_night.Pool.{BufferPool}
use project_night.Pool.Laws.{IsValid}
use project_night.Frame.{build_keepalive_frame}
use project_night.Frame.Laws.{build_keepalive_frame-IsValid}
use project_night.Session.{
  Session, session, start, no_read, read_header, header_completed, body_completed, timer_completed,
}
use project_night.Session.Sound.{IsSound, session-IsSound}
use project_night.Session.Invariant.{idle-IsSound, with_pool-IsSound, Steps-IsSound}
use project_night.Session.Step.{
  Step, Steps, header_read, body_read, written, timer_fired, frame_posted, close_posted,
  other_thread, none_left, then_step,
}
use project_night.Session.Fifo.{line, handle_close-line, write_completed-line, enqueue_write-line}

-- The frame that a step offers to the queue: a posted one, or a keepalive.
abbrev offered : (s t : Session) → Step s t → List Bytes
offered _ _ (header_read s ok bytes now reading sized) = []
offered _ _ (body_read s ok size body reading sized) = []
offered _ _ (written s ok pending) = []
offered _ _ (timer_fired s ok now armed) = (build_keepalive_frame s.pool).0.bytes ∷ []
offered _ _ (frame_posted s frame) = frame.bytes ∷ []
offered _ _ (close_posted s) = []
offered _ _ (other_thread s pool valid) = []

-- The frames that a run offers, in order.
abbrev pub offered_in : (s t : Session) → Steps s t → List Bytes
offered_in _ _ (none_left s) = []
offered_in _ _ (then_step s t u run last) = offered_in s t run ++ offered t u last

header_completed-line :
    (s : Session) (ok : Bool) (bytes : Bytes) (now : ℕ)
    → line (header_completed s ok bytes now) ≡ line s
unfolding header_completed
header_completed-line s false bytes now = handle_close-line (record s { reading = no_read })
header_completed-line s true bytes now = go (decode_header bytes) refl
  where
    go : (d : Decoded) → decode_header bytes ≡ d → line (header_completed s true bytes now) ≡ line s
    go (unexpected error) e =
        rw (e, header_completed) (handle_close-line (record s { reading = no_read }))
    go (header h) e = elim (Bool-cases (is_keepalive h)) [
      | inl beat ↦ rw (e, beat, header_completed) refl
      | inr content ↦ rw (e, content, header_completed) refl
    ]

body_completed-line :
    (s : Session) (ok : Bool) (body : Bytes) → line (body_completed s ok body) ≡ line s
unfolding body_completed
body_completed-line s false body = handle_close-line (record s { reading = no_read })
body_completed-line s true body = refl

timer_completed-line :
    (s : Session) (ok : Bool) (now : ℕ)
    → IsSound s
    → (line (timer_completed s ok now) ≡ line s)
      ⊎ (line (timer_completed s ok now) ≡ line s ++ (build_keepalive_frame s.pool).0.bytes ∷ [])
unfolding timer_completed
timer_completed-line s false now v = inl refl
timer_completed-line s true now v =
    let done = record s { timer = false } in
    let sound = idle-IsSound s s.reading s.last_activity false v in
    let (frame, pool) = build_keepalive_frame s.pool in
    elim (Bool-cases (leb (15 * 10 ^ 9) (now - s.last_activity))) [
      | inl late ↦ rw late (inl (handle_close-line done))
      | inr alive ↦ rw alive (
          enqueue_write-line (record done { pool = pool }) frame
            (with_pool-IsSound done pool (build_keepalive_frame-IsValid s.pool v.safe.pool) sound))
    ]

-- A step adds to the line at most what it was offered.
pub record Added (s t : Session) (frames : List Bytes) : Type 0 where
  pub new : List Bytes
  pub grown : line t ≡ line s ++ new
  pub from : Within new frames

unchanged : (s t : Session) → line t ≡ line s → Added s t []
unchanged s t e = record { new = []; grown = e ∙ sym (append-nil (line s)); from = nothing }

perhaps :
    (s t : Session) (b : Bytes)
    → (line t ≡ line s) ⊎ (line t ≡ line s ++ b ∷ [])
    → Added s t (b ∷ [])
perhaps s t b (inl e) = record {
  new = [];
  grown = e ∙ sym (append-nil (line s));
  from = without b [] [] nothing;
}
perhaps s t b (inr e) = record { new = b ∷ []; grown = e; from = Within-all (b ∷ []) }

Step-Added : (s t : Session) (step : Step s t) → IsSound s → Added s t (offered s t step)
Step-Added _ _ (header_read s ok bytes now reading sized) v =
    unchanged s _ (header_completed-line s ok bytes now)
Step-Added _ _ (body_read s ok size body reading sized) v =
    unchanged s _ (body_completed-line s ok body)
Step-Added _ _ (written s ok pending) v = unchanged s _ (write_completed-line s ok v pending)
Step-Added _ _ (timer_fired s ok now armed) v = perhaps s _ _ (timer_completed-line s ok now v)
Step-Added _ _ (frame_posted s frame) v = perhaps s _ _ (enqueue_write-line s frame v)
Step-Added _ _ (close_posted s) v = unchanged s _ (handle_close-line s)
Step-Added _ _ (other_thread s pool valid) v = unchanged s _ refl

Steps-Added : (s t : Session) (run : Steps s t) → IsSound s → Added s t (offered_in s t run)
Steps-Added _ _ (none_left s) v = unchanged s s refl
Steps-Added _ _ (then_step s t u run last) v =
    let before = Steps-Added s t run v in
    let after = Step-Added t u last (Steps-IsSound s t run v) in
    record {
      new = before.new ++ after.new;
      grown =
          after.grown
          ∙ ap (λ (l : List Bytes). l ++ after.new) before.grown
          ∙ append_assoc (line s) before.new after.new;
      from =
          Within-append before.new (offered_in s t run) after.new (offered t u last) before.from
            after.from;
    }

-- In every run of a session that was constructed and started, the frames that were given to the
-- socket, followed by those that wait, are the frames that were posted and the keepalives, in
-- that order, each at most once and unchanged; some may be missing, for they were refused.
pub start-Within :
    (pool : BufferPool) (now : ℕ) (t : Session)
    → IsValid pool
    → (run : Steps (start (session pool now)) t)
    → Within (line t) (offered_in (start (session pool now)) t run)
unfolding start
start-Within pool now t valid run =
    let all =
      Steps-Added (start (session pool now)) t run
        (idle-IsSound (session pool now) read_header now true (session-IsSound pool now valid)) in
    subst (λ l. Within l (offered_in (start (session pool now)) t run)) (sym all.grown) all.from
