-- ===== src/Window.antt =====
-- NightClient/ChatClientFrame.cpp and its header: the window of the chat client.
--
-- A control is what it shows: the text of a text control or a label, the rows of a list, and whether
-- it is enabled. `boxes` records the texts of the message boxes. A wxString is its bytes in
-- UTF-8. What wxWidgets does with strings, and how it compares the items of a list box, is a parameter.
pub mod Handlers
pub mod Port
pub mod Step
pub mod Lost
pub mod Shown
pub mod Users
pub mod Requests
use project_night.Prelude.{
  ◌≡◌, All, ℕ, zero, suc, ◌+◌, ◌-◌, ◌*◌, ◌/◌, ◌%◌, ◌^◌, Bool, true, false, not, ◌&&◌, ◌||◌, List,
  [], ◌∷◌, ◌++◌, Option, none, some, length, is_empty, ltb, leb, ◌==◌, if◌then◌else◌,
}
use project_night.Prelude.Text.{utf8}
use project_night.Wire.{Bytes}
use project_night.Client.{
  ChatRoomInfo, ChatProtocolEvent, ChatProtocolClient, chat_login_succeeded, chat_login_failed,
  chat_room_list, chat_join_room_succeeded, chat_join_room_failed, chat_message_received,
  chat_user_joined, chat_user_left, chat_system_message, chat_protocol_error, create_mock_events,
}

-- wxString::FromUTF8, ToStdString and Trim, and wxListBox::FindString on the items of the box.
pub record Wx : Type 0 where
  pub from_utf8 : Bytes → Bytes
  pub to_std_string : Bytes → Bytes
  pub trim : (from_right : Bool) → Bytes → Bytes
  pub find_string : List Bytes → Bytes → Option ℕ

-- The item at an index.
abbrev pub item_at : List Bytes → ℕ → Option Bytes
item_at [] i = none
item_at (item ∷ items) zero = some item
item_at (item ∷ items) (suc i) = item_at items i

-- What wxWidgets promises of FindString: the index of an item that is the same text, if there is one.
-- Without a second argument, as here, it does not heed the case of letters.
pub record FindsItems (wx : Wx) (same : Bytes → Bytes → Bool) : Type 0 where
  pub finds :
      (items : List Bytes) (name : Bytes) (i : ℕ)
      → wx.find_string items name ≡ some i
      → (item : Bytes) × (item_at items i ≡ some item) × (same item name ≡ true)
  pub misses :
      (items : List Bytes) (name : Bytes)
      → wx.find_string items name ≡ none
      → All (λ item. same item name ≡ false) items

-- The conversions `%u` and `%zu`: the digits, of which there are at most twenty.
abbrev digits : ℕ → ℕ → Bytes
digits zero n = []
digits (suc fuel) n = if ltb n 10 then (48 + n) ∷ [] else digits fuel (n / 10) ++ (48 + n % 10) ∷ []

unfoldable pub decimal : ℕ → Bytes
decimal n = digits 20 n

-- The loop of std::from_chars over digits: the number that they stand for, and what follows them.
unfoldable pub scan_digits : ℕ → Bytes → ℕ × Bytes
scan_digits value [] = (value, [])
scan_digits value (c ∷ rest) =
    let next = scan_digits (value * 10 + (c - 48)) rest in
    if leb 48 c && leb c 57 then next else (value, c ∷ rest)

-- std::from_chars for an unsigned int of 32 bits: no digit, or too large a number, is an error.
unfoldable pub from_chars : Bytes → Option (ℕ × Bytes)
unfolding scan_digits
from_chars text =
    let (port, rest) = scan_digits 0 text in
    if length rest == length text
    then none
    else if ltb port (2 ^ 32)
    then some (port, rest)
    else none

pub record RoomEntry : Type 0 where
  pub room_id : ℕ
  pub room_name : Bytes
  pub user_count : ℕ

pub record ChatClientFrame : Type 0 where
  pub host : Bytes
  pub port : Bytes
  pub display_name : Bytes
  pub message_input : Bytes
  pub host_enabled : Bool
  pub port_enabled : Bool
  pub connect_enabled : Bool
  pub refresh_enabled : Bool
  pub join_enabled : Bool
  pub input_enabled : Bool
  pub send_enabled : Bool
  pub room_list : List (Bytes × Bytes)
  pub selected : Option ℕ
  pub current_room_label : Bytes
  pub chat_log : Bytes
  pub user_list : List Bytes
  pub status : Bytes
  pub boxes : List Bytes
  pub polling : Bool
  pub protocol_client : ChatProtocolClient
  pub rooms : List RoomEntry
  pub current_room_id : ℕ

module _ (wx : Wx) where
  unfoldable pub trimmed : Bytes → Bytes
  trimmed value = wx.trim false (wx.trim true value)

  unfoldable pub parse_port : Bytes → Option ℕ
  unfolding trimmed from_chars
  parse_port value = elim (from_chars (wx.to_std_string (trimmed value))) [
    | none ↦ none
    | some (port, rest) ↦
        if not (is_empty rest) || ltb 65535 port then none else some (port % 2 ^ 16)
  ]

  unfoldable pub set_connection_state : ChatClientFrame → Bool → ChatClientFrame
  set_connection_state f connected = record f {
    host_enabled = not connected;
    port_enabled = not connected;
    connect_enabled = not connected;
    refresh_enabled = connected;
    join_enabled = connected;
    input_enabled = connected;
    send_enabled = connected;
  }

  abbrev pub set_status_text : ChatClientFrame → Bytes → ChatClientFrame
  set_status_text f text = record f { status = text }

  abbrev pub message_box : ChatClientFrame → Bytes → ChatClientFrame
  message_box f text = record f { boxes = f.boxes ++ text ∷ [] }

  unfoldable pub append_line : ChatClientFrame → Bytes → ChatClientFrame
  append_line f line = record f {
    chat_log = if is_empty f.chat_log then line else (f.chat_log ++ 10 ∷ []) ++ line;
  }

  abbrev pub append_system_message : ChatClientFrame → Bytes → ChatClientFrame
  append_system_message f message = append_line f (utf8 "[System] " ++ message)

  abbrev pub append_chat_message : ChatClientFrame → Bytes → Bytes → ChatClientFrame
  append_chat_message f sender content = append_line f (utf8 "[" ++ sender ++ utf8 "] " ++ content)

  -- The entry at an index.
  abbrev pub nth : List RoomEntry → ℕ → Option RoomEntry
  nth [] i = none
  nth (room ∷ rooms) zero = some room
  nth (room ∷ rooms) (suc i) = nth rooms i

  unfoldable pub get_selected_room : ChatClientFrame → Option RoomEntry
  get_selected_room f = elim f.selected [ none ↦ none | some i ↦ nth f.rooms i ]

  abbrev pub to_room_entry : ChatRoomInfo → RoomEntry
  to_room_entry room = record {
    room_id = room.room_id;
    room_name = wx.from_utf8 room.room_name;
    user_count = room.user_count;
  }

  -- A row of the list of rooms.
  abbrev pub row_of : RoomEntry → Bytes × Bytes
  row_of entry = (entry.room_name, decimal entry.user_count)

  -- `ApplyRoomList` of one room.
  abbrev pub apply_room : ChatClientFrame → ChatRoomInfo → ChatClientFrame
  apply_room f room =
      let entry = to_room_entry room in
      record f { rooms = f.rooms ++ entry ∷ []; room_list = f.room_list ++ row_of entry ∷ [] }

  unfoldable pub apply_rooms : ChatClientFrame → List ChatRoomInfo → ChatClientFrame
  apply_rooms f [] = f
  apply_rooms f (room ∷ rooms) = apply_rooms (apply_room f room) rooms

  -- `ApplyRoomList`; no item is selected when all were deleted.
  unfoldable pub apply_room_list : ChatClientFrame → List ChatRoomInfo → ChatClientFrame
  unfolding apply_rooms
  apply_room_list f rooms =
      apply_rooms (record f { rooms = []; room_list = []; selected = none }) rooms

  abbrev pub apply_joined_room : ChatClientFrame → ChatRoomInfo → ChatClientFrame
  apply_joined_room f room = record f {
    current_room_id = room.room_id;
    current_room_label =
        utf8 "Current Room: #" ++ decimal room.room_id ++ utf8 " " ++ wx.from_utf8 room.room_name;
    status = utf8 "Joined room #" ++ decimal room.room_id;
  }

  -- wxListBox::Delete.
  abbrev pub delete_at : List Bytes → ℕ → List Bytes
  delete_at [] i = []
  delete_at (item ∷ items) zero = items
  delete_at (item ∷ items) (suc i) = item ∷ delete_at items i

  unfoldable pub add_user : ChatClientFrame → Bytes → ChatClientFrame
  add_user f name = if is_empty name then f else elim (wx.find_string f.user_list name) [
    | none ↦ record f { user_list = f.user_list ++ name ∷ [] }
    | some index ↦ f
  ]

  unfoldable pub remove_user : ChatClientFrame → Bytes → ChatClientFrame
  remove_user f name = elim (wx.find_string f.user_list name) [
    | none ↦ f
    | some index ↦ record f { user_list = delete_at f.user_list index }
  ]

  -- The name that a completed login shows.
  abbrev pub login_name : ChatClientFrame → Bytes → Bytes
  login_name f name = if is_empty name then trimmed f.display_name else wx.from_utf8 name

  unfoldable pub process_protocol_event : ChatClientFrame → ChatProtocolEvent → ChatClientFrame
  unfolding append_line apply_room_list add_user remove_user
  process_protocol_event f (chat_login_succeeded name) =
      let display_name = login_name f name in
      append_system_message (set_status_text (add_user f display_name) (utf8 "Login completed"))
        (display_name ++ utf8 " logged in.")
  process_protocol_event f (chat_login_failed message) =
      append_system_message f (utf8 "Login failed: " ++ wx.from_utf8 message)
  process_protocol_event f (chat_room_list rooms) =
      set_status_text (apply_room_list f rooms)
        (utf8 "Loaded " ++ decimal (length rooms) ++ utf8 " rooms")
  process_protocol_event f (chat_join_room_succeeded room) =
      append_system_message (apply_joined_room f room)
        (utf8 "Joined room #" ++ decimal room.room_id ++ utf8 ".")
  process_protocol_event f (chat_join_room_failed message) =
      append_system_message f (utf8 "Join room failed: " ++ wx.from_utf8 message)
  process_protocol_event f (chat_message_received room_id sender content) =
      append_chat_message f (wx.from_utf8 sender) (wx.from_utf8 content)
  process_protocol_event f (chat_user_joined room_id name) =
      append_system_message (add_user f (wx.from_utf8 name)) (wx.from_utf8 name ++ utf8 " joined.")
  process_protocol_event f (chat_user_left room_id name) =
      append_system_message (remove_user f (wx.from_utf8 name)) (wx.from_utf8 name ++ utf8 " left.")
  process_protocol_event f (chat_system_message room_id content) =
      append_system_message f (wx.from_utf8 content)
  process_protocol_event f (chat_protocol_error message) =
      append_system_message f (wx.from_utf8 message)

  unfoldable pub process_events : ChatClientFrame → List ChatProtocolEvent → ChatClientFrame
  unfolding process_protocol_event
  process_events f [] = f
  process_events f (event ∷ events) = process_events (process_protocol_event f event) events

  unfoldable pub load_mock_data : ChatClientFrame → ChatClientFrame
  unfolding process_events create_mock_events
  load_mock_data f =
      let cleared = record f {
        rooms = [];
        room_list = [];
        selected = none;
        user_list = [];
        chat_log = [];
        current_room_id = 0;
        current_room_label = utf8 "Current Room: -";
      } in
      set_status_text (process_events cleared create_mock_events)
        (utf8 "Mock data loaded from schema layout")
