-- ===== src/Session/Invariant.antt =====
-- What holds in every run of NightNetwork/src/Session.cpp.
use project_night.Prelude.{
  ℕ, ◌-◌, ◌<◌, ◌≡◌, refl, sym, subst, inl, inr, Bool, true, false, List, [], ◌∷◌, arith, ◌*◌, ◌^◌,
  Bool-cases, length, leb,
}
use project_night.Wire.{Bytes, Decoded, header, unexpected, decode_header, is_keepalive}
use project_night.Pool.{Buffer, BufferPool, acquire, release}
use project_night.Pool.Laws.{IsValid, acquire-IsValid, release-IsValid}
use project_night.Frame.Laws.{build_keepalive_frame-IsValid}
use project_night.Frame.{build_keepalive_frame}
use project_night.Session.{
  Session, Reading, read_header, read_body, no_read, session, handle_close, header_completed,
  body_completed, write_completed, write_popped, timer_completed, send_keepalive, start,
}
use project_night.Session.Step.{
  Step, Steps, header_read, body_read, written, timer_fired, frame_posted, close_posted,
  other_thread, none_left, then_step,
}
use project_night.Session.Sound.{
  IsSafe, IsSound, session-IsSound, handle_close-IsSound, do_write-IsSound, enqueue_write-IsSound,
}

-- What is not in the invariant may change.
pub idle-IsSound :
    (s : Session) (reading : Reading) (last_activity : ℕ) (timer : Bool)
    → IsSound s
    → IsSound (record s { reading = reading; last_activity = last_activity; timer = timer })
idle-IsSound s reading last_activity timer v = record {
  safe = record {
    pool = v.safe.pool;
    bounded = v.safe.bounded;
    single = v.safe.single;
    front = v.safe.front;
    told = v.safe.told;
  };
  awake = v.awake;
}

pub with_pool-IsSound :
    (s : Session) (pool : BufferPool)
    → IsValid pool
    → IsSound s
    → IsSound (record s { pool = pool })
with_pool-IsSound s pool valid v = record {
  safe = record {
    pool = valid;
    bounded = v.safe.bounded;
    single = v.safe.single;
    front = v.safe.front;
    told = v.safe.told;
  };
  awake = v.awake;
}

header_completed-IsSound :
    (s : Session) (ok : Bool) (bytes : Bytes) (now : ℕ)
    → IsSound s
    → IsSound (header_completed s ok bytes now)
unfolding header_completed
header_completed-IsSound s false bytes now v =
    handle_close-IsSound _ (idle-IsSound s no_read s.last_activity s.timer v).safe
header_completed-IsSound s true bytes now v = go (decode_header bytes) refl
  where
    ends :
        (t : Session)
        → header_completed s true bytes now ≡ t
        → IsSound t
        → IsSound (header_completed s true bytes now)
    ends t e sound = subst IsSound (sym e) sound

    go : (d : Decoded) → decode_header bytes ≡ d → IsSound (header_completed s true bytes now)
    go (unexpected error) e =
        ends (handle_close (record s { reading = no_read })) (ground arith)
          (handle_close-IsSound _ (idle-IsSound s no_read s.last_activity s.timer v).safe)
    go (header h) e = elim (Bool-cases (is_keepalive h)) [
      | inl beat ↦
          ends (record s { reading = read_header; last_activity = now }) (ground arith)
            (idle-IsSound s read_header now s.timer v)
      | inr content ↦
          ends (record s { reading = read_body h.payload_size; last_activity = now }) (ground arith)
            (idle-IsSound s (read_body h.payload_size) now s.timer v)
    ]

body_completed-IsSound :
    (s : Session) (ok : Bool) (body : Bytes) → IsSound s → IsSound (body_completed s ok body)
unfolding body_completed
body_completed-IsSound s false body v =
    handle_close-IsSound _ (idle-IsSound s no_read s.last_activity s.timer v).safe
body_completed-IsSound s true body v =
    let u =
      with_pool-IsSound s (acquire s.pool (length body)).1
        (acquire-IsValid s.pool (length body) v.safe.pool) v in
    record {
      safe = record {
        pool = u.safe.pool;
        bounded = u.safe.bounded;
        single = u.safe.single;
        front = u.safe.front;
        told = u.safe.told;
      };
      awake = u.awake;
    }

write_completed-IsSound :
    (s : Session) (ok : Bool) → IsSound s → 0 < s.writes → IsSound (write_completed s ok)
unfolding write_completed
write_completed-IsSound s ok v pending = go s.write_queue refl ok
  where
    go :
        (frames : List Buffer)
        → s.write_queue ≡ frames
        → (ok : Bool) → IsSound (write_popped s ok frames)
    go [] e ok = absurd (ground (arith, v.safe.front))
    go (front ∷ rest) e ok = done ok
      where
        popped : Session
        popped = record s { pool = release s.pool front; write_queue = rest; writes = s.writes - 1 }

        safe : IsSafe popped
        safe = record {
          pool = release-IsValid s.pool front v.safe.pool;
          bounded = ground (arith, v.safe.bounded);
          single = ground (arith, v.safe.single);
          front = λ h. absurd (ground (arith, v.safe.single));
          told = v.safe.told;
        }

        done : (ok : Bool) → IsSound (write_popped s ok (front ∷ rest))
        done false = handle_close-IsSound popped safe
        done true = do_write-IsSound popped safe (ground (arith, v.safe.single))

timer_completed-IsSound :
    (s : Session) (ok : Bool) (now : ℕ) → IsSound s → IsSound (timer_completed s ok now)
unfolding timer_completed
timer_completed-IsSound s false now v = idle-IsSound s s.reading s.last_activity false v
timer_completed-IsSound s true now v =
    let done = record s { timer = false } in
    let sound = idle-IsSound s s.reading s.last_activity false v in
    elim (Bool-cases (leb (15 * 10 ^ 9) (now - s.last_activity))) [
      | inl late ↦ rw late (handle_close-IsSound done sound.safe)
      | inr alive ↦
          let (frame, pool) = build_keepalive_frame s.pool in
          let sent =
            enqueue_write-IsSound (record done { pool = pool }) frame
              (with_pool-IsSound done pool (build_keepalive_frame-IsValid s.pool v.safe.pool)
                sound) in
          rw alive (
            idle-IsSound (send_keepalive done) (send_keepalive done).reading
              (send_keepalive done).last_activity true sent)
    ]

Step-IsSound : (s t : Session) → Step s t → IsSound s → IsSound t
Step-IsSound _ _ (header_read s ok bytes now reading sized) v =
    header_completed-IsSound s ok bytes now v
Step-IsSound _ _ (body_read s ok size body reading sized) v = body_completed-IsSound s ok body v
Step-IsSound _ _ (written s ok pending) v = write_completed-IsSound s ok v pending
Step-IsSound _ _ (timer_fired s ok now armed) v = timer_completed-IsSound s ok now v
Step-IsSound _ _ (frame_posted s frame) v = enqueue_write-IsSound s frame v
Step-IsSound _ _ (close_posted s) v = handle_close-IsSound s v.safe
Step-IsSound _ _ (other_thread s pool valid) v = with_pool-IsSound s pool valid v

pub Steps-IsSound : (s t : Session) → Steps s t → IsSound s → IsSound t
Steps-IsSound _ _ (none_left s) v = v
Steps-IsSound _ _ (then_step s t u run last) v = Step-IsSound t u last (Steps-IsSound s t run v)

-- In every run of a session that was constructed and started: writes never overlap, and the one that
-- is pending has its frame at the front of the queue, so that its completion finds one; at most 1024
-- frames wait; while the session is open, `writing_` is set and a write is pending just when a
-- frame waits; and the owner is told of the end once, when the session is closed, and not before.
pub start-IsSound :
    (pool : BufferPool) (now : ℕ) (t : Session)
    → IsValid pool
    → Steps (start (session pool now)) t
    → IsSound t
unfolding start
start-IsSound pool now t valid run =
    Steps-IsSound _ t run
      (idle-IsSound (session pool now) read_header now true (session-IsSound pool now valid))
