-- ===== src/NetworkClient/Sound.antt =====
-- The invariant of NightNetwork/src/Client.cpp, and the functions that its handlers share.
pub mod Reads
pub mod Writes
use project_night.Prelude.{
  ℕ, ◌<◌, ◌≤◌, ◌≡◌, refl, sym, subst, inl, inr, Bool, true, false, not, ◌||◌, List, [], ◌∷◌, ◌++◌,
  ◌∙◌, ap, arith, Bool-cases, length, length-append, is_empty, leb, if◌then◌else◌,
}
use project_night.Pool.{Buffer, BufferPool}
use project_night.Pool.Laws.{IsValid, release-IsValid}
use project_night.Frame
use project_night.Session.{Reading, no_read, read_header, read_body}
use project_night.NetworkClient.{
  Client, handle_disconnect, do_write, write_front, enqueue_frame, release_frame,
}

-- What holds inside a handler too.
pub record IsSafe (c : Client) : Type 0 where
  pub pool : IsValid c.pool
  pub bounded : length c.write_queue ≤ 1024
  pub received : length c.receive_queue ≤ 4096
  -- Writes do not overlap, and the one that is pending has its frame at the front of the queue.
  pub single : c.writes ≤ 1
  pub front : 0 < c.writes → 0 < length c.write_queue
  -- `connected` says whether the socket is open.
  pub open_lem : c.socket_open ≡ c.connected

-- While it is connected, a write is pending just when there are frames, and `writing` says so.
abbrev pub Awake : Client → Type 0
Awake c =
    c.connected ≡ true
    → (c.writing ≡ not (is_empty c.write_queue)) × (c.writes ≡ (if c.writing then 1 else 0))

abbrev pub is_pending : Reading → Bool
is_pending no_read = false
is_pending read_header = true
is_pending (read_body size) = true

pub record IsSound (c : Client) : Type 0 where
  pub safe : IsSafe c
  pub awake : Awake c
  -- While it is connected, the heartbeat's timer is armed,
  pub beating : c.connected ≡ true → c.timer ≡ true
  -- and a read is pending, until the shutdown begins.
  pub watching : c.connected ≡ true → c.shutting_down ≡ false → is_pending c.reading ≡ true

pub handle_disconnect-IsSound : (c : Client) → IsSafe c → IsSound (handle_disconnect c)
unfolding handle_disconnect
handle_disconnect-IsSound c v = record {
  safe = record {
    pool = ground (arith, v.pool);
    bounded = ground (arith, v.bounded);
    received = ground (arith, v.received);
    single = ground (arith, v.single);
    front = ground (arith, v.front);
    open_lem = ground (arith, v.open_lem);
  };
  awake = ground arith;
  beating = ground arith;
  watching = ground arith;
}

-- What writing keeps.
pub record IsWriting (c : Client) : Type 0 where
  pub safe : IsSafe c
  pub awake : Awake c

pub do_write-IsWriting : (c : Client) → IsSafe c → c.writes ≡ 0 → IsWriting (do_write c)
unfolding do_write
do_write-IsWriting c v quiet = go c.write_queue refl
  where
    go : (frames : List Buffer) → c.write_queue ≡ frames → IsWriting (write_front c frames)
    go [] e = record {
      safe = record {
        pool = v.pool;
        bounded = v.bounded;
        received = v.received;
        single = v.single;
        front = v.front;
        open_lem = v.open_lem;
      };
      awake = ground arith;
    }
    go (frame ∷ rest) e = record {
      safe = record {
        pool = v.pool;
        bounded = v.bounded;
        received = v.received;
        single = ground arith;
        front = ground arith;
        open_lem = v.open_lem;
      };
      awake = ground arith;
    }

pub release_frame-IsSafe : (c : Client) (frame : Buffer) → IsSafe c → IsSafe (release_frame c frame)
release_frame-IsSafe c frame v = record {
  pool = release-IsValid c.pool frame v.pool;
  bounded = v.bounded;
  received = v.received;
  single = v.single;
  front = v.front;
  open_lem = v.open_lem;
}

not_empty {ℓ} : {A : Type ℓ} (xs : List A) (x : A) → is_empty (xs ++ x ∷ []) ≡ false
not_empty [] x = refl
not_empty (y ∷ ys) x = refl

longer-IsSafe :
    (c : Client) (frame : Buffer)
    → IsSafe c
    → length c.write_queue < 1024
    → IsSafe (record c { write_queue = c.write_queue ++ frame ∷ [] })
longer-IsSafe c frame v h =
    let n = length-append c.write_queue (frame ∷ []) in
    record {
      pool = v.pool;
      bounded = omega (arith, n);
      received = v.received;
      single = v.single;
      front = λ _. omega (arith, n);
      open_lem = v.open_lem;
    }

pub enqueue_frame-IsWriting :
    (c : Client) (frame : Buffer) → IsWriting c → IsWriting (enqueue_frame c frame)
unfolding enqueue_frame Frame.enqueue_frame
enqueue_frame-IsWriting c frame v = elim (Bool-cases (c.shutting_down || not c.connected)) [
  | inl shut ↦
      ends (release_frame c frame) (ground arith)
        (record { safe = release_frame-IsSafe c frame v.safe; awake = v.awake })
  | inr live ↦ elim (Bool-cases (leb 1024 (length c.write_queue))) [
    | inl many ↦
        let closed =
          handle_disconnect-IsSound (release_frame c frame) (release_frame-IsSafe c frame v.safe) in
        ends (handle_disconnect (release_frame c frame)) (ground arith)
          (record { safe = closed.safe; awake = closed.awake })
    | inr few ↦
        let longer = record c { write_queue = c.write_queue ++ frame ∷ [] } in
        let safe = longer-IsSafe c frame v.safe (ground arith) in
        elim (Bool-cases c.writing) [
          | inl busy ↦ ends longer (ground arith) (record {
            safe = safe;
            awake = λ on. (busy ∙ ap not (sym (not_empty c.write_queue frame)), (v.awake on).1);
          })
          | inr lazy ↦
              ends (do_write longer) (ground arith)
                (do_write-IsWriting longer safe (ground (arith, v.awake (ground arith))))
        ]
  ]
]
  where
    ends :
        (d : Client) → enqueue_frame c frame ≡ d → IsWriting d → IsWriting (enqueue_frame c frame)
    ends d e w = subst IsWriting (sym e) w

-- Writing starts no read and no timer, ends no shutdown, and may only disconnect.
pub record Keeps (c d : Client) : Type 0 where
  pub reading : d.reading ≡ c.reading
  pub timer : d.timer ≡ c.timer
  pub shutting_down : d.shutting_down ≡ c.shutting_down
  pub connected : d.connected ≡ true → c.connected ≡ true

pub do_write-Keeps : (c : Client) → Keeps c (do_write c)
unfolding do_write
do_write-Keeps c = go c.write_queue
  where
    go : (frames : List Buffer) → Keeps c (write_front c frames)
    go [] = record { reading = refl; timer = refl; shutting_down = refl; connected = λ h. h }
    go (f ∷ fs) = record { reading = refl; timer = refl; shutting_down = refl; connected = λ h. h }

pub enqueue_frame-Keeps : (c : Client) (frame : Buffer) → Keeps c (enqueue_frame c frame)
unfolding enqueue_frame handle_disconnect Frame.enqueue_frame
enqueue_frame-Keeps c frame =
    let k = do_write-Keeps (record c { write_queue = c.write_queue ++ frame ∷ [] }) in
    record {
      reading = ground (arith, k.reading);
      timer = ground (arith, k.timer);
      shutting_down = ground (arith, k.shutting_down);
      connected = ground (arith, k.connected);
    }

-- What is not in the safe part may change.
pub idle-IsSafe :
    (c : Client) (reading : Reading) (last_activity : ℕ) (timer : Bool)
    → IsSafe c
    → IsSafe (record c { reading = reading; last_activity = last_activity; timer = timer })
idle-IsSafe c reading last_activity timer v = record {
  pool = v.pool;
  bounded = v.bounded;
  received = v.received;
  single = v.single;
  front = v.front;
  open_lem = v.open_lem;
}

pub with_pool-IsSafe :
    (c : Client) (pool : BufferPool) → IsValid pool → IsSafe c → IsSafe (record c { pool = pool })
with_pool-IsSafe c pool valid v = record {
  pool = valid;
  bounded = v.bounded;
  received = v.received;
  single = v.single;
  front = v.front;
  open_lem = v.open_lem;
}

pub with_pool-IsSound :
    (c : Client) (pool : BufferPool) → IsValid pool → IsSound c → IsSound (record c { pool = pool })
with_pool-IsSound c pool valid v = record {
  safe = with_pool-IsSafe c pool valid v.safe;
  awake = v.awake;
  beating = v.beating;
  watching = v.watching;
}
