-- ===== src/Tests/Connection.antt =====
-- The theorems about the transport's client, and about both of its sides, at small inputs.
use project_night.Prelude.{
  ◌-◌, ◌*◌, ◌^◌, ◌<◌, true, ◌≤◌, ◌≡◌, inr, refl, arith, [], ◌∷◌, none, some, false, length,
}
use project_night.Pool.{acquire}
use project_night.Wire.{write_header}
use project_night.Frame
use project_night.Frame.{build_data_frame, build_keepalive_frame}
use project_night.NetworkClient.{
  Client, Connecting, create, connect, start_io, send, run_posted, write_completed, begin_shutdown,
  end_shutdown,
}
use project_night.NetworkClient.Step.{
  Steps, sent, written, shutdown_begun, shutdown_ended, task_run, none_left, then_step,
}
use project_night.NetworkClient.Sound.{IsSound}
use project_night.NetworkClient.Invariant.{started, create-IsSound}
use project_night.NetworkClient.Shutdown.{IsOver, shutdown-IsOver}
use project_night.NetworkClient.Stopped.{stopped_is_closed}
use project_night.NetworkClient.Heartbeat.{Ends, silence-Ends}
use project_night.NetworkClient.Accounts.{Accounts}
use project_night.Wire.{decode_header, check_header, is_keepalive}
use project_night.Wire.Decode.{header_bytes}
use project_night.NetworkClient.{header_completed, body_completed, poll_packet}
use project_night.NetworkClient.Step.{header_read, body_read, polled}
use project_night.NetworkClient.Receiving.{bodies_in, create-Accounts}
use project_night.Session.{Session, session, start, enqueue_write, read_header, read_body}
use project_night.Pool.Laws.{IsValid}
use project_night.Exchange.Transport.Upstream.{payloads_in}
use project_night.Exchange.Transport.Received.{Arrived, client-Arrived}
use project_night.Session.Step as S
use project_night.Exchange.Transport.{PostsPayloads, posted_payloads}
use project_night.Exchange.Transport.Delivery.{concat, Reached, session-Reached}
use project_night.Tests.{hello}
use project_night.Tests.Transport.{pool, pool-IsValid}

-- Connecting without and with an error.
abbrev reached : Connecting
reached = record { resolve = none; connect = none; set_no_delay = none }

abbrev refused : Connecting
refused = record { resolve = none; connect = some (110 ∷ 111 ∷ []); set_no_delay = none }

abbrev pub made : Client
made = started pool 0

was_made : create pool 0 reached ≡ inr made
unfolding create connect start_io started
was_made = refl

-- A payload is sent, and its frame is posted to the I/O thread and written.
abbrev asked : Client
asked = (send made pool hello).0

abbrev writing : Client
writing = run_posted asked

asked_runs : asked.stopped ≡ false
unfolding send started
asked_runs = ground arith

abbrev talk : Steps made writing
talk =
    then_step made asked writing
      (then_step made made asked (none_left made) (sent made pool hello pool-IsValid))
      (task_run asked asked_runs)

create-IsSound_example : IsSound writing
create-IsSound_example = create-IsSound pool 0 reached made writing pool-IsValid was_made talk

-- The frame of a payload is read, and its packet is polled.
abbrev announced : Client
announced = header_completed made true (header_bytes 0 2) 1

abbrev heard : Client
heard = body_completed announced true hello false

announced_runs : announced.stopped ≡ false
unfolding header_completed started decode_header check_header is_keepalive
announced_runs = refl

announced_size : announced.reading ≡ read_body 2
unfolding header_completed started decode_header check_header is_keepalive
announced_size = refl

abbrev hearing : Steps made (poll_packet heard).1
unfolding started
hearing =
    then_step made heard (poll_packet heard).1
      (then_step made announced heard
        (then_step made made announced (none_left made)
          (header_read made true (header_bytes 0 2) 1 refl refl refl))
        (body_read announced true 2 hello false announced_runs announced_size refl))
      (polled heard)

create-Accounts_example :
    Accounts (poll_packet heard).1 (bodies_in made (poll_packet heard).1 hearing)
create-Accounts_example =
    create-Accounts pool 0 reached made (poll_packet heard).1 pool-IsValid was_made hearing

writing_runs : writing.stopped ≡ false
unfolding send run_posted started Frame.enqueue_frame acquire write_header
writing_runs = refl

long_silent : 15 * 10 ^ 9 ≤ 15 * 10 ^ 9 - made.last_activity
unfolding started
long_silent = omega arith

silence-Ends_example : Ends writing (15 * 10 ^ 9)
silence-Ends_example =
    silence-Ends pool 0 reached made made writing (15 * 10 ^ 9) pool-IsValid was_made
      (none_left made) talk ((tt, tt), tt) writing_runs long_silent

-- A session to which the frame of a payload was posted.
abbrev pub greeted : Session
greeted = enqueue_write (start (session pool 0)) (build_data_frame pool hello).0

abbrev pub greeting : S.Steps (start (session pool 0)) greeted
greeting =
    S.then_step (start (session pool 0)) (start (session pool 0)) greeted
      (S.none_left (start (session pool 0)))
      (S.frame_posted (start (session pool 0)) (build_data_frame pool hello).0)

abbrev greeting_posts : PostsPayloads (start (session pool 0)) greeted greeting
greeting_posts = (tt, (pool, hello, (pool-IsValid, omega arith, omega arith), refl))

pub one_frame : 2 * length greeted.wire ≤ 2
unfolding start enqueue_write Frame.enqueue_frame
one_frame = omega arith

session-Reached_example :
    Reached
      (λ i. i)
      2
      made
      (concat greeted.wire)
      (posted_payloads (start (session pool 0)) greeted greeting greeting_posts)
unfolding started
session-Reached_example =
    session-Reached pool 0 greeted (λ i. i) 2 made pool-IsValid greeting greeting_posts refl
      (pool-IsValid, refl, refl) one_frame

one_written : 2 * length writing.wire ≤ 2
unfolding send run_posted started Frame.enqueue_frame acquire write_header
one_written = omega arith

listening_pool : IsValid (start (session pool 0)).pool
unfolding start
listening_pool = pool-IsValid

listening : (start (session pool 0)).reading ≡ read_header
unfolding start
listening = refl

client-Arrived_example :
    Arrived
      (λ i. i)
      2
      (start (session pool 0))
      (concat writing.wire)
      (payloads_in made writing talk)
client-Arrived_example =
    client-Arrived pool 0 reached made writing (λ i. i) 2 (start (session pool 0)) pool-IsValid
      was_made talk listening listening_pool one_written

-- The shutdown begins while a frame is written, and the write completes.
abbrev ending : Client
ending = write_completed (begin_shutdown writing) true

one_pending : 0 < (begin_shutdown writing).writes
unfolding begin_shutdown send run_posted started Frame.enqueue_frame acquire write_header
one_pending = omega arith

ending_runs : (begin_shutdown writing).stopped ≡ false
unfolding begin_shutdown send run_posted started Frame.enqueue_frame acquire write_header
ending_runs = refl

shutdown-IsOver_example : IsOver (begin_shutdown writing) ending
shutdown-IsOver_example = shutdown-IsOver writing ending (
    then_step (begin_shutdown writing) (begin_shutdown writing) ending
      (none_left (begin_shutdown writing))
      (written (begin_shutdown writing) true ending_runs one_pending))

-- The shutdown of a client that was just made: its task is run, and the I/O thread stops.
abbrev closing : Client
closing = run_posted (begin_shutdown made)

closing_runs : (begin_shutdown made).stopped ≡ false
unfolding begin_shutdown started
closing_runs = refl

closing_down : closing.shutting_down ≡ true
unfolding begin_shutdown run_posted started
closing_down = refl

closing_done : closing.posted ≡ []
unfolding begin_shutdown run_posted started
closing_done = refl

stopped_is_closed_example :
    ((end_shutdown closing).connected ≡ false) × ((end_shutdown closing).socket_open ≡ false)
stopped_is_closed_example =
    stopped_is_closed pool 0 reached made (end_shutdown closing) pool-IsValid was_made
      (then_step made closing (end_shutdown closing)
        (then_step made (begin_shutdown made) closing
          (then_step made made (begin_shutdown made) (none_left made) (shutdown_begun made))
          (task_run (begin_shutdown made) closing_runs))
        (shutdown_ended closing closing_down closing_done))
      refl
