-- ===== src/Tests/Delivery.antt =====
-- From the server's `send` to a client, at a small input.
use project_night.Prelude.{◌≡◌, ◌++◌, refl, arith, [], true, false}
use project_night.Prelude.Map
use project_night.Prelude.Set
use project_night.Wire.{write_header}
use project_night.Pool.{acquire}
use project_night.Session.{session, start}
use project_night.Server.{Server, accept_completed, take_connection, push_packet, send, run_posted}
use project_night.Server.Starting.{started}
use project_night.Server.Step.{ServerSteps, accepted, task_ran, sent, no_more, one_more}
use project_night.Server.Posting.{raw_frames}
use project_night.Server.Posting.Runs.{given_in}
use project_night.Exchange.Transport.Delivery.{concat, Reached}
use project_night.Exchange.Transport.Downstream.{posted_in, server-Reached}
use project_night.Tests.{hello}
use project_night.Tests.Transport.{pool, pool-IsValid, free_port, was_made}
use project_night.Tests.Connection.{made, greeted, greeting, one_frame}
use project_night.NetworkClient.Invariant as N

-- One session is connected, and the game's thread sends to it.
abbrev came : Server
came = accept_completed started true pool 0

abbrev asked : Server
asked = (send came pool 1 hello).0

abbrev posted : Server
posted = (run_posted asked pool).0

asked_runs : asked.stopped ≡ false
unfolding started accept_completed take_connection push_packet send start
asked_runs = ground arith

sending : ServerSteps started posted
unfolding started
sending =
    one_more started asked posted
      (one_more started came asked
        (one_more started started came (no_more started)
          (accepted started true pool 0 refl refl (omega arith)))
        (sent came pool 1 hello pool-IsValid))
      (task_ran asked pool asked_runs pool-IsValid)

all_taken :
    posted_in (start (session pool 0)) greeted greeting ++ [] ≡ raw_frames 1 posted.to_sessions
unfolding started accept_completed take_connection push_packet start send run_posted acquire
    write_header Set.insert Set.contains Map.try_emplace Map.find Map.append
all_taken = refl

server-Reached_example :
    Reached (λ i. i) 2 made (concat greeted.wire) (given_in 1 started posted sending)
unfolding N.started
server-Reached_example =
    server-Reached free_port started posted 1 pool 0 greeted [] (λ i. i) 2 made was_made sending
      pool-IsValid greeting all_taken refl (pool-IsValid, refl, refl) one_frame
