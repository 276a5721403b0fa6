-- ===== src/Window/Handlers.antt =====
-- The event handlers of NightClient/ChatClientFrame.cpp, and its constructor.
use project_night.Prelude.{
  ◌⊎◌, ℕ, Bool, true, false, not, [], ◌++◌, Option, none, some, is_empty, ◌==◌, if◌then◌else◌,
}
use project_night.Prelude.Text.{utf8}
use project_night.Wire.{Bytes}
use project_night.Message.{Codec}
use project_night.Client
use project_night.Client.{
  ChatProtocolEvent, ChatProtocolClient, Transport, is_connected, poll_events, send_login_request,
  send_room_list_request, send_join_room_request, send_chat_request,
}
use project_night.Window.{
  Wx, ChatClientFrame, trimmed, parse_port, decimal, set_connection_state, set_status_text,
  message_box, append_line, append_system_message, get_selected_room, process_events,
  load_mock_data,
}

-- The window before its constructor's body: what `BuildLayout` puts into the controls.
abbrev pub layout : ChatClientFrame
layout = record {
  host = utf8 "127.0.0.1";
  port = utf8 "12345";
  display_name = utf8 "NightUser";
  message_input = [];
  host_enabled = true;
  port_enabled = true;
  connect_enabled = true;
  refresh_enabled = true;
  join_enabled = true;
  input_enabled = true;
  send_enabled = true;
  room_list = [];
  selected = none;
  current_room_label = utf8 "Current Room: -";
  chat_log = [];
  user_list = [];
  status = utf8 "Ready";
  boxes = [];
  polling = false;
  protocol_client = record { client = none; next_request_id = 1 };
  rooms = [];
  current_room_id = 0;
}

-- The I/O thread may find the connection lost between the two tests of `OnPollTimer`.
abbrev pub lose_connection : ChatProtocolClient → ChatProtocolClient
lose_connection c = elim c.client [
  | none ↦ c
  | some client ↦ record c { client = some (record client { connected = false }) }
]

module _ (wx : Wx) (codec : Codec) where
  unfoldable pub chat_client_frame : ChatClientFrame
  unfolding set_connection_state load_mock_data
  chat_client_frame = record (load_mock_data wx (set_connection_state wx layout false)) {
    polling = true;
  }

  -- What `OnConnectClicked` does with the answer of `Connect`.
  abbrev pub connected_to :
      ChatClientFrame → Bytes → ℕ → Bytes → Option Bytes × ChatProtocolClient → ChatClientFrame
  connected_to f host port display_name (some error, c) =
      message_box wx (record f { protocol_client = c }) (wx.from_utf8 error)
  connected_to f host port display_name (none, c) =
      let joined =
        append_system_message wx
          (set_status_text wx (set_connection_state wx f true)
            (utf8 "Connected to " ++ host ++ utf8 ":" ++ decimal port))
          (utf8 "TCP connection established. Sending schema-based requests.") in
      record joined {
        protocol_client =
            send_room_list_request codec
              (send_login_request codec c (wx.to_std_string display_name));
      }

  -- `created` is what `Client::create` returns for the host and port.
  unfoldable pub on_connect_clicked :
      ChatClientFrame → (Bytes → ℕ → Bytes ⊎ Transport) → ChatClientFrame
  unfolding trimmed parse_port set_connection_state append_line send_room_list_request
      send_login_request Client.connect
  on_connect_clicked f created =
      let host = trimmed wx f.host in
      let display_name = trimmed wx f.display_name in
      if is_empty host
      then message_box wx f (utf8 "Enter a host.")
      else elim (parse_port wx f.port) [
        | none ↦ message_box wx f (utf8 "Port must be a number between 0 and 65535.")
        | some port ↦
            if is_empty display_name
            then message_box wx f (utf8 "Enter a display name.")
            else connected_to f host port display_name
                (Client.connect f.protocol_client (created (wx.to_std_string host) port))
      ]

  unfoldable pub on_refresh_rooms_clicked : ChatClientFrame → ChatClientFrame
  unfolding is_connected append_line send_room_list_request
  on_refresh_rooms_clicked f =
      if not (is_connected f.protocol_client)
      then f
      else append_system_message wx
          (record f { protocol_client = send_room_list_request codec f.protocol_client })
          (utf8 "Requested room list.")

  -- Bound to the button, and called by `OnRoomActivated`.
  unfoldable pub on_join_room_clicked : ChatClientFrame → ChatClientFrame
  unfolding is_connected append_line get_selected_room send_join_room_request
  on_join_room_clicked f =
      if not (is_connected f.protocol_client) then f else elim (get_selected_room wx f) [
        | none ↦ message_box wx f (utf8 "Select a room to join.")
        | some room ↦
            let said =
              append_system_message wx f
                (utf8 "Sent join request for room #" ++ decimal room.room_id ++ utf8 ".") in
            record said {
              protocol_client = send_join_room_request codec said.protocol_client room.room_id;
            }
      ]

  unfoldable pub on_send_clicked : ChatClientFrame → ChatClientFrame
  unfolding is_connected trimmed send_chat_request
  on_send_clicked f =
      let text = trimmed wx f.message_input in
      if not (is_connected f.protocol_client)
      then f
      else if f.current_room_id == 0
      then message_box wx f (utf8 "Join a room first.")
      else if is_empty text
      then f
      else record f {
        protocol_client = send_chat_request codec f.protocol_client (wx.to_std_string text);
        message_input = [];
      }

  -- `Update` does nothing. `lost` says whether the connection was lost in the meantime.
  unfoldable pub on_poll_timer : ChatClientFrame → Bool → ChatClientFrame
  unfolding is_connected poll_events process_events set_connection_state append_line
      Client.disconnect
  on_poll_timer f lost =
      if not (is_connected f.protocol_client)
      then f
      else let (events, c) = poll_events codec f.protocol_client in
        let shown = process_events wx (record f { protocol_client = c }) events in
        let later = record shown {
          protocol_client =
              if lost then lose_connection shown.protocol_client else shown.protocol_client;
        } in
        if not (is_connected later.protocol_client)
        then append_system_message wx
            (set_status_text wx
              (set_connection_state wx
                (record later { protocol_client = Client.disconnect later.protocol_client }) false)
              (utf8 "Disconnected"))
            (utf8 "Server connection closed.")
        else later

  unfoldable pub on_close : ChatClientFrame → ChatClientFrame
  unfolding Client.disconnect
  on_close f = record f { polling = false; protocol_client = Client.disconnect f.protocol_client }
