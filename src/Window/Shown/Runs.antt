-- ===== src/Window/Shown/Runs.antt =====
-- In every run of NightClient/ChatClientFrame.cpp the window shows what it keeps.
use project_night.Prelude.{
  ◌⊎◌, ℕ, Bool, true, false, not, refl, inl, inr, List, [], ◌∷◌, Option, none, some, if◌then◌else◌,
  Bool-cases, Option-cases, is_empty, ◌==◌,
}
use project_night.Prelude.Text.{utf8}
use project_night.Wire.{Bytes}
use project_night.Message.{Codec}
use project_night.Client
use project_night.Client.{
  ChatProtocolEvent, ChatProtocolClient, Transport, chat_login_succeeded, chat_login_failed,
  chat_room_list, chat_join_room_succeeded, chat_join_room_failed, chat_message_received,
  chat_user_joined, chat_user_left, chat_system_message, chat_protocol_error, is_connected,
  poll_events, create_mock_events,
}
use project_night.Window.{
  FindsItems, append_system_message, set_status_text, Wx, ChatClientFrame, trimmed, parse_port,
  get_selected_room, append_line, add_user, remove_user, apply_rooms, apply_room_list,
  process_protocol_event, process_events, set_connection_state, load_mock_data, login_name,
}
use project_night.Window.Handlers.{
  layout, chat_client_frame, connected_to, on_connect_clicked, on_refresh_rooms_clicked,
  on_join_room_clicked, on_send_clicked, on_poll_timer, on_close, lose_connection,
}
use project_night.Window.Step.{
  Step, Steps, typed, chosen, connect_clicked, refresh_clicked, join_clicked, room_activated,
  send_clicked, ticked, packets_received, connection_lost, closed, none_left, then_step,
}
use project_night.Window.Shown.{
  IsShown, with_rooms-IsShown, set_connection_state-IsShown, apply_rooms-IsShown, add_user-IsShown,
  remove_user-IsShown,
}

module _ (wx : Wx) (same : Bytes → Bytes → Bool) (laws : FindsItems wx same) where
  -- The texts, the selection, the connection and the current room may change.
  touched :
      (f : ChatClientFrame) (host port display_name message_input label log status : Bytes)
      (selected : Option ℕ) (boxes : List Bytes) (polling : Bool) (c : ChatProtocolClient)
      (room_id : ℕ)
      → IsShown wx same f
      → IsShown wx same (record f {
        host = host;
        port = port;
        display_name = display_name;
        message_input = message_input;
        current_room_label = label;
        chat_log = log;
        status = status;
        selected = selected;
        boxes = boxes;
        polling = polling;
        protocol_client = c;
        current_room_id = room_id;
      })
  touched f host port display_name message_input label log status selected boxes polling c room_id
        v =
      record {
        rows = v.rows;
        users = v.users;
        host_lem = v.host_lem;
        port_lem = v.port_lem;
        refresh_lem = v.refresh_lem;
        join_lem = v.join_lem;
        input_lem = v.input_lem;
        send_lem = v.send_lem;
      }

  -- With another text in the log and the status bar, and another current room.
  written :
      (f : ChatClientFrame) (label log status : Bytes) (room_id : ℕ)
      → IsShown wx same f
      → IsShown wx same (record f {
        current_room_label = label;
        chat_log = log;
        status = status;
        current_room_id = room_id;
      })
  written f label log status room_id v =
      touched f f.host f.port f.display_name f.message_input label log status f.selected f.boxes
        f.polling f.protocol_client room_id v

  -- With another connection and message boxes.
  linked :
      (f : ChatClientFrame) (c : ChatProtocolClient) (boxes : List Bytes)
      → IsShown wx same f
      → IsShown wx same (record f { protocol_client = c; boxes = boxes })
  linked f c boxes v =
      touched f f.host f.port f.display_name f.message_input f.current_room_label f.chat_log
        f.status f.selected boxes f.polling c f.current_room_id v

  append_line-IsShown :
      (f : ChatClientFrame) (line : Bytes)
      → IsShown wx same f
      → IsShown wx same (append_line wx f line)
  unfolding append_line
  append_line-IsShown f line v = written f f.current_room_label _ f.status f.current_room_id v

  process-IsShown :
      (f : ChatClientFrame) (event : ChatProtocolEvent)
      → IsShown wx same f
      → IsShown wx same (process_protocol_event wx f event)
  unfolding process_protocol_event apply_room_list
  process-IsShown f (chat_login_succeeded name) v =
      let g = add_user wx f (login_name wx f name) in
      append_line-IsShown _ _ (
        written g g.current_room_label g.chat_log _ g.current_room_id
          (add_user-IsShown wx same f (login_name wx f name) laws v))
  process-IsShown f (chat_login_failed message) v = append_line-IsShown f _ v
  process-IsShown f (chat_room_list rooms) v =
      let g = apply_rooms wx (record f { rooms = []; room_list = []; selected = none }) rooms in
      written g g.current_room_label g.chat_log _ g.current_room_id (
        apply_rooms-IsShown wx same (record f { rooms = []; room_list = []; selected = none }) rooms
          (with_rooms-IsShown wx same f [] [] none refl v))
  process-IsShown f (chat_join_room_succeeded room) v =
      append_line-IsShown _ _ (written f _ f.chat_log _ room.room_id v)
  process-IsShown f (chat_join_room_failed message) v = append_line-IsShown f _ v
  process-IsShown f (chat_message_received room_id sender content) v = append_line-IsShown f _ v
  process-IsShown f (chat_user_joined room_id name) v =
      append_line-IsShown (add_user wx f (wx.from_utf8 name)) _
        (add_user-IsShown wx same f (wx.from_utf8 name) laws v)
  process-IsShown f (chat_user_left room_id name) v =
      append_line-IsShown (remove_user wx f (wx.from_utf8 name)) _
        (remove_user-IsShown wx same f (wx.from_utf8 name) v)
  process-IsShown f (chat_system_message room_id content) v = append_line-IsShown f _ v
  process-IsShown f (chat_protocol_error message) v = append_line-IsShown f _ v

  process_events-IsShown :
      (f : ChatClientFrame) (events : List ChatProtocolEvent)
      → IsShown wx same f
      → IsShown wx same (process_events wx f events)
  unfolding process_events
  process_events-IsShown f [] v = v
  process_events-IsShown f (event ∷ events) v =
      process_events-IsShown (process_protocol_event wx f event) events (process-IsShown f event v)

  module _ (codec : Codec) where
    frame-IsShown : IsShown wx same (chat_client_frame wx codec)
    unfolding chat_client_frame load_mock_data set_connection_state
    frame-IsShown =
        let cleared = record (set_connection_state wx layout false) {
          rooms = [];
          room_list = [];
          selected = none;
          user_list = [];
          chat_log = [];
          current_room_id = 0;
          current_room_label = utf8 "Current Room: -";
        } in
        let g = process_events wx cleared create_mock_events in
        touched g g.host g.port g.display_name g.message_input g.current_room_label g.chat_log _
          g.selected g.boxes true g.protocol_client g.current_room_id
          (process_events-IsShown cleared create_mock_events (record {
            rows = refl;
            users = tt;
            host_lem = refl;
            port_lem = refl;
            refresh_lem = refl;
            join_lem = refl;
            input_lem = refl;
            send_lem = refl;
          }))

    connected_to-IsShown :
        (f : ChatClientFrame) (host : Bytes) (port : ℕ) (display_name : Bytes)
        (answer : Option Bytes × ChatProtocolClient)
        → IsShown wx same f
        → IsShown wx same (connected_to wx codec f host port display_name answer)
    unfolding append_line set_connection_state Client.send_room_list_request
    connected_to-IsShown f host port display_name (some error, c) v = linked f c _ v
    connected_to-IsShown f host port display_name (none, c) v =
        let g = set_connection_state wx f true in
        linked _ _ g.boxes (
          append_line-IsShown _ _ (
            written g g.current_room_label g.chat_log _ g.current_room_id
              (set_connection_state-IsShown wx same f true v)))

    connect-IsShown :
        (f : ChatClientFrame) (created : Bytes → ℕ → Bytes ⊎ Transport)
        → IsShown wx same f
        → IsShown wx same (on_connect_clicked wx codec f created)
    unfolding on_connect_clicked
    connect-IsShown f created v = elim (Bool-cases (is_empty (trimmed wx f.host))) [
      | inl blank ↦ rw blank (linked f f.protocol_client _ v)
      | inr host ↦ elim (Option-cases (parse_port wx f.port)) [
        | inl bad ↦ rw (host, bad, on_connect_clicked) (linked f f.protocol_client _ v)
        | inr (port, good) ↦ elim (Bool-cases (is_empty (trimmed wx f.display_name))) [
          | inl nameless ↦
              rw (host, good, nameless, on_connect_clicked) (linked f f.protocol_client _ v)
          | inr named ↦
              rw (host, good, named, on_connect_clicked) (connected_to-IsShown f _ port _ _ v)
        ]
      ]
    ]

    refresh-IsShown :
        (f : ChatClientFrame)
        → IsShown wx same f
        → IsShown wx same (on_refresh_rooms_clicked wx codec f)
    unfolding on_refresh_rooms_clicked
    refresh-IsShown f v = elim (Bool-cases (not (is_connected f.protocol_client))) [
      | inl off ↦ rw off v
      | inr on ↦ rw on (append_line-IsShown _ _ (linked f _ f.boxes v))
    ]

    join-IsShown :
        (f : ChatClientFrame)
        → IsShown wx same f
        → IsShown wx same (on_join_room_clicked wx codec f)
    unfolding on_join_room_clicked
    join-IsShown f v = elim (Bool-cases (not (is_connected f.protocol_client))) [
      | inl off ↦ rw off v
      | inr on ↦ elim (Option-cases (get_selected_room wx f)) [
        | inl none_there ↦
            rw (on, none_there, on_join_room_clicked) (linked f f.protocol_client _ v)
        | inr (room, there) ↦
            rw (on, there, on_join_room_clicked) (linked _ _ f.boxes (append_line-IsShown f _ v))
      ]
    ]

    send-IsShown :
        (f : ChatClientFrame) → IsShown wx same f → IsShown wx same (on_send_clicked wx codec f)
    unfolding on_send_clicked
    send-IsShown f v = elim (Bool-cases (not (is_connected f.protocol_client))) [
      | inl off ↦ rw off v
      | inr on ↦ elim (Bool-cases (f.current_room_id == 0)) [
        | inl outside ↦ rw (on, outside) (linked f f.protocol_client _ v)
        | inr inside ↦ elim (Bool-cases (is_empty (trimmed wx f.message_input))) [
          | inl blank ↦ rw (on, inside, blank) v
          | inr text ↦
              rw (on, inside, text)
                (touched f f.host f.port f.display_name [] f.current_room_label f.chat_log f.status
                  f.selected f.boxes f.polling _ f.current_room_id v)
        ]
      ]
    ]

    disconnected-IsShown :
        (f : ChatClientFrame) (c : ChatProtocolClient)
        → IsShown wx same f
        → IsShown wx same (
            append_system_message wx
              (set_status_text wx
                (set_connection_state wx (record f { protocol_client = c }) false)
                (utf8 "Disconnected"))
              (utf8 "Server connection closed."))
    disconnected-IsShown f c v =
        let g = set_connection_state wx (record f { protocol_client = c }) false in
        append_line-IsShown _ _ (
          written g g.current_room_label g.chat_log _ g.current_room_id (
            set_connection_state-IsShown wx same (record f { protocol_client = c }) false
              (linked f c f.boxes v)))

    tick-IsShown :
        (f : ChatClientFrame) (lost : Bool)
        → IsShown wx same f
        → IsShown wx same (on_poll_timer wx codec f lost)
    unfolding on_poll_timer
    tick-IsShown f lost v = elim (Bool-cases (not (is_connected f.protocol_client))) [
      | inl off ↦ rw off v
      | inr on ↦
          let (events, c) = poll_events codec f.protocol_client in
          let shown = process_events wx (record f { protocol_client = c }) events in
          let v1 =
            process_events-IsShown (record f { protocol_client = c }) events
              (linked f c f.boxes v) in
          let c' = if lost then lose_connection shown.protocol_client else shown.protocol_client in
          rw on (elim (Bool-cases (not (is_connected c'))) [
            | inl gone ↦ rw gone (disconnected-IsShown shown (Client.disconnect c') v1)
            | inr still ↦ rw still (linked shown c' shown.boxes v1)
          ])
    ]

    Step-IsShown :
        (f g : ChatClientFrame) → Step wx codec f g → IsShown wx same f → IsShown wx same g
    unfolding on_close
    Step-IsShown _ _ (typed f host port display_name input) v =
        touched f host port display_name input f.current_room_label f.chat_log f.status f.selected
          f.boxes f.polling f.protocol_client f.current_room_id v
    Step-IsShown _ _ (chosen f selected) v =
        with_rooms-IsShown wx same f f.rooms f.room_list selected v.rows v
    Step-IsShown _ _ (connect_clicked f created enabled) v = connect-IsShown f created v
    Step-IsShown _ _ (refresh_clicked f enabled) v = refresh-IsShown f v
    Step-IsShown _ _ (join_clicked f enabled) v = join-IsShown f v
    Step-IsShown _ _ (room_activated f) v = join-IsShown f v
    Step-IsShown _ _ (send_clicked f enabled) v = send-IsShown f v
    Step-IsShown _ _ (ticked f lost) v = tick-IsShown f lost v
    Step-IsShown _ _ (packets_received f packets) v = linked f _ f.boxes v
    Step-IsShown _ _ (connection_lost f) v = linked f _ f.boxes v
    Step-IsShown _ _ (closed f) v =
        touched f f.host f.port f.display_name f.message_input f.current_room_label f.chat_log
          f.status f.selected f.boxes false _ f.current_room_id v

    Steps-IsShown :
        (f g : ChatClientFrame) → Steps wx codec f g → IsShown wx same f → IsShown wx same g
    Steps-IsShown _ _ (none_left f) v = v
    Steps-IsShown _ _ (then_step f g h run last) v = Step-IsShown g h last (Steps-IsShown f g run v)

    -- In every run of the window: the rows of the list of rooms are those of the rooms that it keeps,
    -- in the same order, so that a selected row is the room to join; no item of the list of users
    -- is the same as an earlier one, but for the case of letters; and the controls for connecting are all enabled and
    -- those for a connection all disabled, or the other way round.
    pub chat_client_frame-IsShown :
        (f : ChatClientFrame) → Steps wx codec (chat_client_frame wx codec) f → IsShown wx same f
    chat_client_frame-IsShown f run = Steps-IsShown (chat_client_frame wx codec) f run frame-IsShown
