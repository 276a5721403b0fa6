-- ===== src/NetworkClient/Calm.antt =====
-- The handlers of NightNetwork/src/Client.cpp that have nothing to do with its shutdown.
use project_night.Prelude.{
  ℕ, ◌-◌, ◌≡◌, refl, inl, inr, Bool, true, false, not, ◌||◌, List, [], ◌∷◌, ◌++◌, arith, Bool-cases,
}
use project_night.Wire.{Bytes}
use project_night.Pool.{Buffer, release}
use project_night.Frame
use project_night.Frame.{build_keepalive_frame, memcpy}
use project_night.NetworkClient.{
  Client, handle_disconnect, do_write, write_front, header_completed, write_completed, write_popped,
  timer_completed, enqueue_frame,
}

-- What has nothing to do with the shutdown.
pub record Calm (c d : Client) : Type 0 where
  pub posted : d.posted ≡ c.posted
  pub stopped : d.stopped ≡ c.stopped
  pub shutting_down : d.shutting_down ≡ c.shutting_down
  pub connected : d.connected ≡ true → c.connected ≡ true

handle_disconnect-Calm : (c : Client) → Calm c (handle_disconnect c)
unfolding handle_disconnect
handle_disconnect-Calm c = record {
  posted = ground arith;
  stopped = ground arith;
  shutting_down = ground arith;
  connected = ground arith;
}

do_write-Calm : (c : Client) → Calm c (do_write c)
unfolding do_write
do_write-Calm c = go c.write_queue
  where
    go : (frames : List Buffer) → Calm c (write_front c frames)
    go [] = record { posted = refl; stopped = refl; shutting_down = refl; connected = λ h. h }
    go (f ∷ fs) = record { posted = refl; stopped = refl; shutting_down = refl; connected = λ h. h }

pub enqueue_frame-Calm : (c : Client) (frame : Buffer) → Calm c (enqueue_frame c frame)
unfolding enqueue_frame handle_disconnect Frame.enqueue_frame
enqueue_frame-Calm c frame =
    let k = do_write-Calm (record c { write_queue = c.write_queue ++ frame ∷ [] }) in
    record {
      posted = ground (arith, k.posted);
      stopped = ground (arith, k.stopped);
      shutting_down = ground (arith, k.shutting_down);
      connected = ground (arith, k.connected);
    }

pub header_completed-Calm :
    (c : Client) (ok : Bool) (bytes : Bytes) (now : ℕ) → Calm c (header_completed c ok bytes now)
unfolding header_completed handle_disconnect
header_completed-Calm c ok bytes now = record {
  posted = ground arith;
  stopped = ground arith;
  shutting_down = ground arith;
  connected = ground arith;
}

pub write_completed-Calm : (c : Client) (ok : Bool) → Calm c (write_completed c ok)
unfolding write_completed
write_completed-Calm c ok = go c.write_queue
  where
    go : (frames : List Buffer) → Calm c (write_popped c ok frames)
    go [] = record { posted = refl; stopped = refl; shutting_down = refl; connected = λ h. h }
    go (front ∷ rest) =
        let popped : Client = record c {
          pool = release c.pool front;
          write_queue = rest;
          writes = c.writes - 1;
        } in
        let off = handle_disconnect-Calm popped in
        let on = do_write-Calm popped in
        elim (Bool-cases (not ok || c.shutting_down)) [
          | inl ends ↦ rw ends (record {
            posted = off.posted;
            stopped = off.stopped;
            shutting_down = off.shutting_down;
            connected = off.connected;
          })
          | inr goes ↦ rw goes (record {
            posted = on.posted;
            stopped = on.stopped;
            shutting_down = on.shutting_down;
            connected = on.connected;
          })
        ]

pub timer_completed-Calm : (c : Client) (ok : Bool) (now : ℕ) → Calm c (timer_completed c ok now)
unfolding timer_completed handle_disconnect
timer_completed-Calm c ok now =
    let (frame, pool) = build_keepalive_frame c.pool in
    let k = enqueue_frame-Calm (record c { timer = false; pool = pool }) frame in
    record {
      posted = ground (arith, k.posted);
      stopped = ground (arith, k.stopped);
      shutting_down = ground (arith, k.shutting_down);
      connected = ground (arith, k.connected);
    }
