-- ===== src/NetworkClient/Sound/Writes.antt =====
-- Writing, the heartbeat and the posted tasks of NightNetwork/src/Client.cpp keep its invariant.
use project_night.Prelude.{
  ℕ, ◌-◌, ◌*◌, ◌^◌, ◌<◌, ◌≤◌, ◌≡◌, refl, ◌∙◌, subst, inl, inr, Bool, true, false, not, ◌||◌, List,
  [], ◌∷◌, arith, Bool-cases, length, leb,
}
use project_night.Wire.{Bytes}
use project_night.Pool.{Buffer, release}
use project_night.Pool.Laws.{release-IsValid}
use project_night.Frame.{build_keepalive_frame}
use project_night.Frame.Laws.{build_keepalive_frame-IsValid}
use project_night.NetworkClient.{
  Client, Task, send_frame, close_connection, write_completed, write_popped, timer_completed,
  send_keepalive, enqueue_frame, run_task, run_posted, release_frame,
}
use project_night.NetworkClient.Sound.{
  IsSafe, IsSound, IsWriting, handle_disconnect-IsSound, do_write-IsWriting, do_write-Keeps,
  enqueue_frame-IsWriting, enqueue_frame-Keeps, idle-IsSafe, with_pool-IsSafe, with_pool-IsSound,
}

pub write_completed-IsSound :
    (c : Client) (ok : Bool) → IsSound c → 0 < c.writes → IsSound (write_completed c ok)
unfolding write_completed
write_completed-IsSound c ok v pending = go c.write_queue refl
  where
    go : (frames : List Buffer) → c.write_queue ≡ frames → IsSound (write_popped c ok frames)
    go [] e = absurd (ground (arith, v.safe.front))
    go (front ∷ rest) e = elim (Bool-cases (not ok || c.shutting_down)) [
      | inl ends ↦ rw ends (handle_disconnect-IsSound popped safe)
      | inr goes ↦
          let w = do_write-IsWriting popped safe (ground (arith, v.safe.single)) in
          let k = do_write-Keeps popped in
          rw goes (record {
            safe = w.safe;
            awake = w.awake;
            beating = λ on. k.timer ∙ v.beating (k.connected on);
            watching =
                λ on up. ground (arith, k.reading, k.shutting_down, v.watching (k.connected on));
          })
    ]
      where
        popped : Client
        popped = record c { pool = release c.pool front; write_queue = rest; writes = c.writes - 1 }

        safe : IsSafe popped
        safe = record {
          pool = release-IsValid c.pool front v.safe.pool;
          bounded = ground (arith, v.safe.bounded);
          received = v.safe.received;
          single = ground (arith, v.safe.single);
          front = λ h. absurd (ground (arith, v.safe.single));
          open_lem = v.safe.open_lem;
        }

-- A frame that comes to the queue while nothing else is done.
enqueue_frame-IsSound : (c : Client) (frame : Buffer) → IsSound c → IsSound (enqueue_frame c frame)
enqueue_frame-IsSound c frame v =
    let w = enqueue_frame-IsWriting c frame (record { safe = v.safe; awake = v.awake }) in
    let k = enqueue_frame-Keeps c frame in
    record {
      safe = w.safe;
      awake = w.awake;
      beating = λ on. k.timer ∙ v.beating (k.connected on);
      watching = λ on up. ground (arith, k.reading, k.shutting_down, v.watching (k.connected on));
    }

send_keepalive-IsWriting : (c : Client) → IsWriting c → IsWriting (send_keepalive c)
send_keepalive-IsWriting c w =
    let (frame, pool) = build_keepalive_frame c.pool in
    enqueue_frame-IsWriting (record c { pool = pool }) frame
      (record {
        safe = with_pool-IsSafe c pool (build_keepalive_frame-IsValid c.pool w.safe.pool) w.safe;
        awake = w.awake;
      })

pub timer_completed-IsSound :
    (c : Client) (now : ℕ) → IsSound c → IsSound (timer_completed c true now)
unfolding timer_completed
timer_completed-IsSound c now v =
    let done = record c { timer = false } in
    let safe = idle-IsSafe c c.reading c.last_activity false v.safe in
    elim (Bool-cases (leb (15 * 10 ^ 9) (now - c.last_activity))) [
      | inl late ↦ rw late (handle_disconnect-IsSound done safe)
      | inr alive ↦
          let w = send_keepalive-IsWriting done (record { safe = safe; awake = v.awake }) in
          let (frame, pool) = build_keepalive_frame c.pool in
          let k = enqueue_frame-Keeps (record done { pool = pool }) frame in
          rw alive (record {
            safe =
                idle-IsSafe (send_keepalive done) (send_keepalive done).reading
                  (send_keepalive done).last_activity true w.safe;
            awake = w.awake;
            beating = λ on. refl;
            watching =
                λ on up. ground (arith, k.reading, k.shutting_down, v.watching (k.connected on));
          })
    ]

-- A cancelled timer is left alone; the connection is gone then.
pub timer_cancelled-IsSound :
    (c : Client) (now : ℕ)
    → IsSound c
    → c.socket_open ≡ false
    → IsSound (timer_completed c false now)
unfolding timer_completed
timer_cancelled-IsSound c now v gone = record {
  safe = idle-IsSafe c c.reading c.last_activity false v.safe;
  awake = v.awake;
  beating = ground (arith, v.safe.open_lem);
  watching = v.watching;
}

-- The tasks that wait, and what the other thread sees, are not in the invariant.
pub apart-IsSound :
    (c : Client) (posted : List Task) (packets polled : List Bytes) (stopped : Bool)
    → length packets ≤ 4096
    → IsSound c
    → IsSound
        (record c { posted = posted; receive_queue = packets; polled = polled; stopped = stopped })
apart-IsSound c posted packets polled stopped few v = record {
  safe = record {
    pool = v.safe.pool;
    bounded = v.safe.bounded;
    received = few;
    single = v.safe.single;
    front = v.safe.front;
    open_lem = v.safe.open_lem;
  };
  awake = v.awake;
  beating = v.beating;
  watching = v.watching;
}

run_task-IsSound : (c : Client) (task : Task) → IsSound c → IsSound (run_task c task)
unfolding run_task
run_task-IsSound c (send_frame frame) v = elim (Bool-cases c.shutting_down) [
  | inl down ↦ subst IsSound (ground arith) (released c frame v)
  | inr up ↦ subst IsSound (ground arith) (enqueue_frame-IsSound c frame v)
]
  where
    released : (c : Client) (frame : Buffer) → IsSound c → IsSound (release_frame c frame)
    released c frame v =
        with_pool-IsSound c (release c.pool frame) (release-IsValid c.pool frame v.safe.pool) v
run_task-IsSound c close_connection v = record {
  safe = record {
    pool = v.safe.pool;
    bounded = v.safe.bounded;
    received = v.safe.received;
    single = v.safe.single;
    front = v.safe.front;
    open_lem = refl;
  };
  awake = λ on. cc;
  beating = λ on. cc;
  watching = λ on up. cc;
}

pub run_posted-IsSound : (c : Client) → IsSound c → IsSound (run_posted c)
unfolding run_posted
run_posted-IsSound c v = go c.posted refl
  where
    go : (tasks : List Task) → c.posted ≡ tasks → IsSound (run_posted c)
    go [] e = subst IsSound (ground arith) v
    go (task ∷ rest) e = subst IsSound (ground arith) (
        run_task-IsSound (record c { posted = rest }) task
          (apart-IsSound c rest c.receive_queue c.polled c.stopped v.safe.received v))
