-- ===== src/NetworkClient/Invariant.antt =====
-- What holds in every run of NightNetwork/src/Client.cpp.
use project_night.Prelude.{
  Option-cases, ◌⊎◌, ℕ, ◌≡◌, refl, sym, subst, inl, inr, true, List, [], ◌∷◌, ◌++◌, none, some,
  arith, Bool-cases,
}
use project_night.Wire.{Bytes}
use project_night.Pool.{Buffer, BufferPool}
use project_night.Pool.Laws.{IsValid}
use project_night.Frame.{build_data_frame}
use project_night.Session.{read_header}
use project_night.NetworkClient.{
  resolve_failed, connect_failed, no_delay_failed, Client, Connecting, send_frame, impl, create,
  send, poll_packet, begin_shutdown,
}
use project_night.NetworkClient.Step.{
  Step, Steps, header_read, body_read, written, timer_fired, timer_cancelled, task_run, sent,
  polled, shutdown_begun, shutdown_ended, none_left, then_step,
}
use project_night.NetworkClient.Sound.{IsSound}
use project_night.NetworkClient.Sound.Reads.{
  header_completed-IsSound, body_completed-IsSound, begin_shutdown-IsSound,
}
use project_night.NetworkClient.Sound.Writes.{
  write_completed-IsSound, timer_completed-IsSound, timer_cancelled-IsSound, run_posted-IsSound,
  apart-IsSound,
}

send-cases :
    (c : Client) (pool : BufferPool) (payload : Bytes)
    → ((send c pool payload).0 ≡ c)
      ⊎ ((send c pool payload).0
          ≡ record c { posted = c.posted ++ send_frame (build_data_frame pool payload).0 ∷ [] })
unfolding send
send-cases c pool payload = ground arith

send-IsSound :
    (c : Client) (pool : BufferPool) (payload : Bytes) → IsSound c → IsSound (send c pool payload).0
unfolding send
send-IsSound c pool payload v =
    let posts = λ (frame : Buffer).
      apart-IsSound c (c.posted ++ send_frame frame ∷ []) c.receive_queue c.polled c.stopped
        v.safe.received v in
    elim (send-cases c pool payload) [
      | inl same ↦ subst IsSound (sym same) v
      | inr posted ↦ subst IsSound (sym posted) (posts (build_data_frame pool payload).0)
    ]

poll_packet-IsSound : (c : Client) → IsSound c → IsSound (poll_packet c).1
unfolding poll_packet
poll_packet-IsSound c v = go c.receive_queue refl
  where
    go : (packets : List Bytes) → c.receive_queue ≡ packets → IsSound (poll_packet c).1
    go [] e = subst IsSound (ground arith) v
    go (packet ∷ rest) e = subst IsSound (ground arith) (
        apart-IsSound c c.posted rest (c.polled ++ packet ∷ []) c.stopped
          (ground (arith, v.safe.received)) v)

shutdown-IsSound : (c : Client) → IsSound c → IsSound (begin_shutdown c)
unfolding begin_shutdown
shutdown-IsSound c v = elim (Bool-cases c.shutting_down) [
  | inl down ↦ subst IsSound (ground arith) v
  | inr up ↦ begin_shutdown-IsSound c c.reading v up
]

Step-IsSound : (c d : Client) → Step c d → IsSound c → IsSound d
Step-IsSound _ _ (header_read c ok bytes now runs reading sized) v =
    header_completed-IsSound c ok bytes now v
Step-IsSound _ _ (body_read c ok size body meanwhile runs reading sized) v =
    body_completed-IsSound c ok body meanwhile v
Step-IsSound _ _ (written c ok runs pending) v = write_completed-IsSound c ok v pending
Step-IsSound _ _ (timer_fired c now runs armed) v = timer_completed-IsSound c now v
Step-IsSound _ _ (timer_cancelled c now runs armed gone) v = timer_cancelled-IsSound c now v gone
Step-IsSound _ _ (task_run c runs) v = run_posted-IsSound c v
Step-IsSound _ _ (sent c pool payload valid) v = send-IsSound c pool payload v
Step-IsSound _ _ (polled c) v = poll_packet-IsSound c v
Step-IsSound _ _ (shutdown_begun c) v = shutdown-IsSound c v
Step-IsSound _ _ (shutdown_ended c down done) v =
    apart-IsSound c c.posted c.receive_queue c.polled true v.safe.received v

pub Steps-IsSound : (c d : Client) → Steps c d → IsSound c → IsSound d
Steps-IsSound _ _ (none_left c) v = v
Steps-IsSound _ _ (then_step c d e run last) v = Step-IsSound d e last (Steps-IsSound c d run v)

-- A client that was made: connected, its first read pending, its timer armed.
unfoldable pub started : BufferPool → ℕ → Client
started pool now = record (impl pool now) {
  socket_open = true;
  connected = true;
  reading = read_header;
  timer = true;
}

started-IsSound : (pool : BufferPool) (now : ℕ) → IsValid pool → IsSound (started pool now)
unfolding started
started-IsSound pool now valid = record {
  safe = record {
    pool = valid;
    bounded = omega arith;
    received = omega arith;
    single = omega arith;
    front = λ h. absurd (omega arith);
    open_lem = refl;
  };
  awake = λ on. (refl, refl);
  beating = λ on. refl;
  watching = λ on up. refl;
}

-- `create` gives the started client when its three calls succeed, and else the message of the first
-- that fails, behind what it was for.
pub create_lem :
    (pool : BufferPool) (now : ℕ) (calls : Connecting)
    → ((calls.resolve ≡ none)
        × (calls.connect ≡ none)
        × (calls.set_no_delay ≡ none)
        × (create pool now calls ≡ inr (started pool now)))
      ⊎ ((message : Bytes) × (calls.resolve ≡ some message)
          × (create pool now calls ≡ inl (resolve_failed ++ message)))
      ⊎ ((message : Bytes) × (calls.resolve ≡ none)
          × (calls.connect ≡ some message)
          × (create pool now calls ≡ inl (connect_failed ++ message)))
      ⊎ ((message : Bytes) × (calls.resolve ≡ none)
          × (calls.connect ≡ none)
          × (calls.set_no_delay ≡ some message)
          × (create pool now calls ≡ inl (no_delay_failed ++ message)))
unfolding create started
create_lem pool now calls = elim (Option-cases calls.resolve) [
  | inr (m, e) ↦ inr (inl (m, e, ground arith))
  | inl resolved ↦ elim (Option-cases calls.connect) [
    | inr (m, e) ↦ inr (inr (inl (m, resolved, e, ground arith)))
    | inl reached ↦ elim (Option-cases calls.set_no_delay) [
      | inr (m, e) ↦ inr (inr (inr (m, resolved, reached, e, ground arith)))
      | inl set ↦ inl (resolved, reached, set, ground arith)
    ]
  ]
]

-- A client that `create` gave is the started one.
pub create-started :
    (pool : BufferPool) (now : ℕ) (calls : Connecting) (c : Client)
    → create pool now calls ≡ inr c
    → c ≡ started pool now
create-started pool now calls c made = elim (create_lem pool now calls) [
  | inl h ↦ cc (h.3)
  | inr (inl (m, h, e)) ↦ cc
  | inr (inr (inl (m, h, h', e))) ↦ cc
  | inr (inr (inr (m, h, h', h'', e))) ↦ cc
]

-- In every run of a client that `create` gave: writes never overlap, and the one that is pending has
-- its frame at the front of the queue, so that its completion finds one; at most 1024 frames wait to
-- be written and at most 4096 packets to be polled; `connected` says whether the socket is open;
-- and while it is connected, `writing` is set and a write is pending just when a frame waits, the
-- heartbeat's timer is armed, and a read is pending until the shutdown begins.
pub create-IsSound :
    (pool : BufferPool) (now : ℕ) (calls : Connecting) (c d : Client)
    → IsValid pool
    → create pool now calls ≡ inr c
    → Steps c d
    → IsSound d
create-IsSound pool now calls c d valid made run =
    Steps-IsSound c d run
      (subst IsSound (sym (create-started pool now calls c made)) (started-IsSound pool now valid))
