-- ===== src/Tests/Window.antt =====
-- The theorems about the chat client's window at small inputs.
use project_night.Prelude.{
  Bool, Option, Bool-cases, inl, inr, zero, suc, ℕ, ◌+◌, ◌<◌, ◌≤◌, ◌≡◌, ◌↔◌, refl, arith, true,
  false, List, [], ◌∷◌, ◌++◌, map, none, some, length, All, leb, ◌&&◌, if◌then◌else◌, same_bytes,
  same_bytes_refl,
}
use project_night.Wire.{Bytes}
use project_night.Logic.{Env, room_list_request}
use project_night.Logic.Handlers.{handle}
use project_night.Logic.Leave.{bytes}
use project_night.Client.{ChatRoomInfo, chat_room_list, is_connected, send_join_room_request}
use project_night.Window.{
  Wx, ChatClientFrame, trimmed, parse_port, decimal, FindsItems, item_at, process_protocol_event,
  process_events,
}
use project_night.Window.Port.{IsDigit, value_of, parse_port_iff}
use project_night.Window.Handlers.{
  layout, chat_client_frame, on_poll_timer, on_join_room_clicked, lose_connection,
}
use project_night.Window.Step.{Steps, chosen, ticked, room_activated, none_left, then_step}
use project_night.Window.Lost.{IsStuck, connection_lost-IsStuck}
use project_night.Window.Shown.{IsShown}
use project_night.Window.Shown.Runs.{chat_client_frame-IsShown}
use project_night.Window.Users.{comings, comings_and_goings}
use project_night.Window.Requests.{row_at, listed, join_clicked-asks}
use project_night.Exchange.Window.{
  Displayed, receives, spread_shown, server_row, room_list_answer, room_list_shown,
}
use project_night.Tests.{
  alice, hello, game, alice_session, codec, env, lobby-IsConsistent, greeting-Fits,
  greeting-Carries,
}
use project_night.Tests.Server.{found_alice}

abbrev lower : ℕ → ℕ
lower c = if leb 65 c && leb c 90 then c + 32 else c

-- Compared without regard to case.
abbrev same : Bytes → Bytes → Bool
same item name = same_bytes (map lower item) (map lower name)

abbrev first_same : List Bytes → Bytes → Option ℕ
first_same [] name = none
first_same (item ∷ items) name =
    if same item name
    then some 0
    else elim (first_same items name) [ none ↦ none | some i ↦ some (suc i) ]

-- Texts as they are, without blanks.
abbrev wx : Wx
wx = record {
  from_utf8 = λ value. value;
  to_std_string = λ value. value;
  trim = λ from_right value. value;
  find_string = first_same;
}

wx-finds :
    (items : List Bytes) (name : Bytes) (i : ℕ)
    → first_same items name ≡ some i
    → (item : Bytes) × (item_at items i ≡ some item) × (same item name ≡ true)
wx-finds [] name i h = cc
wx-finds (item ∷ items) name zero h = elim (Bool-cases (same item name)) [
  | inl hit ↦ (item, refl, hit)
  | inr miss ↦ absurd (ground arith)
]
wx-finds (item ∷ items) name (suc i) h = elim (Bool-cases (same item name)) [
  | inl hit ↦ absurd (ground arith)
  | inr miss ↦ wx-finds items name i (ground arith)
]

wx-misses :
    (items : List Bytes) (name : Bytes)
    → first_same items name ≡ none
    → All (λ item. same item name ≡ false) items
wx-misses [] name h = tt
wx-misses (item ∷ items) name h = (ground arith, wx-misses items name (ground arith))

wx-FindsItems : FindsItems wx same
wx-FindsItems = record { finds = wx-finds; misses = wx-misses }

abbrev port_8080 : Bytes
port_8080 = 56 ∷ 48 ∷ 56 ∷ 48 ∷ []

parse_port_iff_example : (parse_port wx port_8080 ≡ some 8080) ↔ (
    (0 < length (wx.to_std_string (trimmed wx port_8080)))
    × All IsDigit (wx.to_std_string (trimmed wx port_8080))
    × (value_of (wx.to_std_string (trimmed wx port_8080)) ≡ 8080)
    × (8080 ≤ 65535))
parse_port_iff_example = parse_port_iff wx port_8080 8080

-- The window as it opens, and with a row chosen.
abbrev opened : ChatClientFrame
opened = chat_client_frame wx codec

abbrev pointed : ChatClientFrame
pointed = record opened { selected = some 1 }

abbrev a_click : Steps wx codec opened (on_join_room_clicked wx codec pointed)
a_click =
    then_step opened pointed (on_join_room_clicked wx codec pointed)
      (then_step opened opened pointed (none_left opened) (chosen opened (some 1)))
      (room_activated pointed)

chat_client_frame-IsShown_example : IsShown wx same (on_join_room_clicked wx codec pointed)
chat_client_frame-IsShown_example =
    chat_client_frame-IsShown wx same wx-FindsItems codec (on_join_room_clicked wx codec pointed)
      a_click

-- A window that is connected.
abbrev online : ChatClientFrame
online = record layout {
  host_enabled = false;
  port_enabled = false;
  connect_enabled = false;
  protocol_client = record {
    client = some (record { connected = true; sent = []; packets = [] });
    next_request_id = 3;
  };
}

abbrev offline : ChatClientFrame
offline = record online { protocol_client = lose_connection online.protocol_client }

connection_lost-IsStuck_example : IsStuck (on_poll_timer wx codec offline false)
connection_lost-IsStuck_example =
    connection_lost-IsStuck wx codec online (on_poll_timer wx codec offline false) refl (
      then_step offline offline (on_poll_timer wx codec offline false) (none_left offline)
        (ticked offline false))

abbrev small_alice : Bytes
small_alice = 97 ∷ 108 ∷ []

comings_and_goings_example :
    (process_events wx online (comings 1001 alice small_alice)).user_list
    ≡ (if same alice small_alice then online.user_list else online.user_list ++ small_alice ∷ [])
comings_and_goings_example =
    comings_and_goings wx same wx-FindsItems online 1001 alice small_alice refl refl tt tt
      (same_bytes_refl (map lower alice)) refl

abbrev two_rooms : List ChatRoomInfo
two_rooms =
    record { room_id = 1001; room_name = 76 ∷ []; user_count = 2 }
    ∷ record { room_id = 1002; room_name = 68 ∷ []; user_count = 1 }
    ∷ []

abbrev dev : ChatRoomInfo
dev = record { room_id = 1002; room_name = 68 ∷ []; user_count = 1 }

join_clicked-asks_example :
    (row_at (listed wx online two_rooms 1).room_list 1 ≡ some (68 ∷ [], decimal 1))
    × ((process_protocol_event wx online (chat_room_list two_rooms)).selected ≡ none)
    × ((on_join_room_clicked wx codec (listed wx online two_rooms 1)).protocol_client
        ≡ send_join_room_request codec online.protocol_client 1002)
    × ((on_join_room_clicked wx codec (listed wx online two_rooms 1)).boxes ≡ online.boxes)
unfolding is_connected
join_clicked-asks_example = join_clicked-asks wx codec online two_rooms 1 dev refl refl

spread_shown_example : Displayed wx env alice_session hello online [] game 1 7
spread_shown_example =
    spread_shown wx env alice_session hello online [] game 1 7 greeting-Fits greeting-Carries
      lobby-IsConsistent found_alice refl (ground arith) refl (omega arith)

-- A codec for one answer.
abbrev one_answer : Env
one_answer = record {
  codec = record {
    encode = λ m. 6 ∷ m.request_id ∷ [];
    decode = λ packet. some (record { request_id = 7; payload = room_list_answer game });
  };
  clock = λ i. i;
}

room_list_shown_example :
    (handle one_answer game (room_list_request 1 7)
      ≡ some (record game {
        outgoing =
            game.outgoing
            ++ record { session_id = 1; payload = bytes one_answer 7 (room_list_answer game) } ∷ [];
      }))
    × ((on_poll_timer wx one_answer.codec
          (receives wx online [] (bytes one_answer 7 (room_list_answer game)))
          false).room_list
        ≡ map (server_row wx) game.rooms.rooms)
room_list_shown_example =
    room_list_shown wx one_answer game online [] 1 7 (refl, omega arith) (refl, refl)
