-- ===== src/Tests/Server.antt =====
-- The theorems about the server's logic at a small lobby.
use project_night.Prelude.{
  ℕ, ◌≡◌, refl, arith, List, [], ◌∷◌, ◌++◌, none, some, true, length, All, ◌⊎◌, ◌<◌, ◌≤◌, false,
}
use project_night.Prelude.Map
use project_night.Rooms.{
  SessionState, room_system, find_session, add_session, set_logged_in, move_session_to_room,
  remove_session_from_current_room, get_room_members, remove_session,
}
use project_night.Rooms.Lookup.{is_member}
use project_night.Rooms.Names.{Taken}
use project_night.Rooms.Members.{ids, Recipients, get_room_members-Recipients}
use project_night.Rooms.Consistency.Run.{
  apply, run, room_system-IsConsistent, run-refines, opened, places, direct_run,
}
use project_night.Message.{c_str, invalid_name, duplicate_name}
use project_night.Logic.{
  GameLogic, ServerEvent, room_list_request, login_request, join_room_request, chat_send_request,
  leave_room_request, session_connected, session_disconnected, disconnect_request,
}
use project_night.Logic.Handlers.{handle, update, left_the_room}
use project_night.Logic.Effect.{Handled, subject}
use project_night.Logic.Effect.Events.{handle-Handled}
use project_night.Logic.Names.{AreUnique, update-AreUnique}
use project_night.Logic.Inside.{IsAdmitted, update-IsAdmitted}
use project_night.Logic.Leave.{
  post, left_bytes, leave_answer, leave_note, leave_delivered, disconnected_delivered,
}
use project_night.Logic.Login.{Refuses, Accepts, login_answered}
use project_night.Logic.Disconnect.{disconnect_answer, disconnect_delivered}
use project_night.Exchange.Answers.{Spread, chat-Spread}
use project_night.Exchange.Requests.{Asked, requests_arrive}
use project_night.Network.{connect, data_packet, receive_packet}
use project_night.Network.Laws.{Served, serve-Served, receive_packet-subject}
use project_night.Client.{
  ChatProtocolClient, Transport, send_login_request, send_room_list_request, send_join_room_request,
  send_chat_request,
}
use project_night.Rooms.{RoomState, find_room}
use project_night.Prelude.Set
use project_night.Logic.Handlers.{entered_the_room}
use project_night.Logic.Join.Delivery.{Joined, join_delivered}
use project_night.Tests.{
  alice, hello, arrivals, lobby, lobby-IsConsistent, game, new_game, alice_session, codec, env,
  greeting-Fits, greeting-Carries,
}

-- The session that has only connected.
abbrev newcomer : SessionState
newcomer = record { session_id = 4; user_id = 4; display_name = []; room_id = 0; logged_in = false }

found_newcomer : find_session lobby 4 ≡ some newcomer
unfolding run apply room_system add_session set_logged_in move_session_to_room Map.find Map.modify
found_newcomer = refl

pub found_alice : find_session lobby 1 ≡ some alice_session
unfolding run apply room_system add_session set_logged_in move_session_to_room Map.find Map.modify
found_alice = refl

serve-Served_example : Served env game (
    (record { type = connect; session_id = 4; payload = [] }
      ∷ record { type = data_packet; session_id = 4; payload = 9 ∷ [] }
      ∷ [])
    ∷ [])
serve-Served_example = serve-Served env game _ lobby-IsConsistent

handle-Handled_example : Handled env game (join_room_request 1 7 1002)
handle-Handled_example = handle-Handled env game (join_room_request 1 7 1002) lobby-IsConsistent

chat-Spread_example : Spread env alice_session hello game 1 7
unfolding c_str
chat-Spread_example =
    chat-Spread env alice_session hello game 1 7 greeting-Fits greeting-Carries lobby-IsConsistent
      found_alice refl (ground arith) refl (omega arith)

nobody : (j : ℕ) → find_session room_system j ≡ none
unfolding room_system Map.find
nobody j = refl

new_game-AreUnique : AreUnique (find_session room_system)
new_game-AreUnique j k s t es et on on' same = absurd (ground (arith, nobody j))

new_game-IsAdmitted : IsAdmitted new_game
new_game-IsAdmitted j s e n = absurd (ground (arith, nobody j))

abbrev two_logins : List ServerEvent
two_logins =
    session_connected 1
    ∷ login_request 1 1 alice
    ∷ session_connected 2
    ∷ login_request 2 1 alice
    ∷ join_room_request 1 2 1001
    ∷ []

update-AreUnique_example :
    (h : GameLogic) × (update env new_game two_logins ≡ some h) × AreUnique (find_session h.rooms)
update-AreUnique_example =
    update-AreUnique env new_game two_logins room_system-IsConsistent new_game-AreUnique

update-IsAdmitted_example :
    (h : GameLogic) × (update env new_game two_logins ≡ some h) × IsAdmitted h
update-IsAdmitted_example =
    update-IsAdmitted env new_game two_logins room_system-IsConsistent new_game-IsAdmitted

run-refines_example :
    (find_session (run room_system arrivals) 2 ≡ direct_run opened (λ _. none) arrivals 2)
    × (is_member (run room_system arrivals) 1001 2
        ≡ places (direct_run opened (λ _. none) arrivals 2) 1001)
run-refines_example = run-refines arrivals 1001 2 (ground arith)

get_room_members-Recipients_example :
    Recipients lobby 1001 (some 1) (ids (get_room_members lobby 1001 (some 1)))
get_room_members-Recipients_example =
    get_room_members-Recipients lobby 1001 (some 1) lobby-IsConsistent (ground arith)

disconnected_delivered_example :
    (members : List ℕ) × Recipients lobby 1001 (some 1) members
    × (handle env game (session_disconnected 1)
        ≡ some (record game {
          rooms = remove_session lobby 1;
          outgoing = game.outgoing ++ post (left_bytes env alice_session) members;
        }))
unfolding c_str
disconnected_delivered_example =
    disconnected_delivered env game 1 alice_session lobby-IsConsistent found_alice refl
      (ground arith) (refl, omega arith)

login_answered_example :
    (((length hello ≡ 0) ⊎ (32 < length hello)) × Refuses env 4 7 hello game invalid_name)
    ⊎ (((0 < length hello) × (length hello ≤ 32))
        × ((Taken lobby.sessions hello 4 × Refuses env 4 7 hello game duplicate_name)
            ⊎ ((¬ Taken lobby.sessions hello 4) × Accepts env 4 7 hello newcomer game)))
unfolding c_str
login_answered_example =
    login_answered env 4 7 hello newcomer game (λ code. (refl, omega arith)) (refl, omega arith)
      lobby-IsConsistent found_newcomer

disconnect_delivered_example :
    (members : List ℕ) × Recipients lobby 1001 (some 1) members
    × (handle env game (disconnect_request 1 7)
        ≡ some (record game {
          rooms = remove_session lobby 1;
          outgoing =
              (game.outgoing ++ record { session_id = 1; payload = disconnect_answer env 7 } ∷ [])
              ++ post (left_bytes env alice_session) members;
          pending_disconnects = game.pending_disconnects ++ 1 ∷ [];
        }))
unfolding c_str
disconnect_delivered_example =
    disconnect_delivered env game 1 7 (refl, omega arith) alice_session lobby-IsConsistent
      found_alice refl (ground arith) (refl, omega arith)

leave_delivered_example :
    (members : List ℕ) × Recipients lobby 1001 (some 1) members
    × (handle env game (leave_room_request 1 7)
        ≡ some (record game {
          rooms = remove_session_from_current_room lobby 1;
          outgoing =
              (game.outgoing ++ post (left_bytes env alice_session) members)
              ++ record { session_id = 1; payload = leave_answer env 7 }
                ∷ record { session_id = 1; payload = leave_note env 1001 }
                ∷ [];
        }))
unfolding c_str left_the_room
leave_delivered_example =
    leave_delivered env game 1 alice_session lobby-IsConsistent found_alice refl (ground arith)
      (refl, omega arith) 7 (refl, omega arith) (refl, omega arith)

abbrev online : Transport
online = record { connected = true; sent = []; packets = [] }

abbrev client : ChatProtocolClient
client = record { client = some online; next_request_id = 5 }

requests_arrive_example :
    Asked codec client (send_login_request codec client alice) online 1 (login_request 1 5 alice)
    × Asked codec client (send_room_list_request codec client) online 1 (room_list_request 1 5)
    × Asked codec client
        (send_join_room_request codec client 1002)
        online
        1
        (join_room_request 1 5 1002)
    × Asked codec client
        (send_chat_request codec client hello)
        online
        1
        (chat_send_request 1 5 hello)
requests_arrive_example =
    requests_arrive codec client online 1 alice hello 1002 refl (refl, refl) (refl, refl)
      (refl, refl) (refl, refl)

receive_packet-subject_example :
    All
      (λ (e : ServerEvent). subject e ≡ 1)
      (receive_packet codec
        (record { type = data_packet; session_id = 1; payload = 4 ∷ 9 ∷ 0 ∷ 0 ∷ 0 ∷ hello }))
receive_packet-subject_example =
    receive_packet-subject codec
      (record { type = data_packet; session_id = 1; payload = 4 ∷ 9 ∷ 0 ∷ 0 ∷ 0 ∷ hello })

abbrev dev : RoomState
dev = record { room_id = 1002; room_name = 68 ∷ 101 ∷ 118 ∷ []; members = 3 ∷ [] }

found_dev : find_room lobby 1002 ≡ some dev
unfolding run apply room_system add_session set_logged_in move_session_to_room Map.find Map.modify
    Set.insert Set.contains
found_dev = refl

game-IsAdmitted : IsAdmitted game
unfolding run apply room_system add_session set_logged_in move_session_to_room Map.find Map.modify
game-IsAdmitted j s e n = ground arith

join_delivered_example : Joined env game 1 7 1002 alice_session dev
unfolding c_str entered_the_room
join_delivered_example =
    join_delivered env game lobby-IsConsistent 1 alice_session dev found_alice found_dev
      (ground arith) 7 game-IsAdmitted refl (refl, omega arith) (refl, omega arith)
      (refl, omega arith) (refl, omega arith) (λ j m e r. (refl, omega arith))
