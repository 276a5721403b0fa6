-- ===== src/Window/Requests.antt =====
-- What NightClient/ChatClientFrame.cpp asks the server for.
use project_night.Prelude.{
  ℕ, zero, suc, true, ◌≡◌, refl, ◌∙◌, sym, ap, List, [], ◌∷◌, ◌++◌, map, Option, none, some, arith,
}
use mathlib.Core.List.{append-nil, append_assoc}
use project_night.Wire.{Bytes}
use project_night.Message.{Codec}
use project_night.Client.{ChatRoomInfo, chat_room_list, is_connected, send_join_room_request}
use project_night.Window.{
  Wx, ChatClientFrame, RoomEntry, decimal, nth, to_room_entry, apply_room, apply_rooms,
  apply_room_list, get_selected_room, append_line, process_protocol_event,
}
use project_night.Window.Handlers.{on_join_room_clicked}

-- The room at an index of a list.
abbrev pub room_at : List ChatRoomInfo → ℕ → Option ChatRoomInfo
room_at [] i = none
room_at (room ∷ rooms) zero = some room
room_at (room ∷ rooms) (suc i) = room_at rooms i

abbrev pub row_at : List (Bytes × Bytes) → ℕ → Option (Bytes × Bytes)
row_at [] i = none
row_at (row ∷ rows) zero = some row
row_at (row ∷ rows) (suc i) = row_at rows i

module _ (wx : Wx) where
  abbrev pub entries : List ChatRoomInfo → List RoomEntry
  entries = map (to_room_entry wx)

  abbrev pub rows : List ChatRoomInfo → List (Bytes × Bytes)
  rows = map (λ room. (wx.from_utf8 room.room_name, decimal room.user_count))

  -- The loop of `ApplyRoomList`, and what it leaves alone.
  pub apply_rooms_lem :
      (f : ChatClientFrame) (rooms : List ChatRoomInfo)
      → apply_rooms wx f rooms
        ≡ record f { rooms = f.rooms ++ entries rooms; room_list = f.room_list ++ rows rooms }
  unfolding apply_rooms
  apply_rooms_lem f [] =
      ap (λ (p : List RoomEntry × List (Bytes × Bytes)). record f { rooms = p.0; room_list = p.1 })
        (λ i. (sym (append-nil f.rooms) i, sym (append-nil f.room_list) i))
  apply_rooms_lem f (room ∷ rooms) =
      apply_rooms_lem (apply_room wx f room) rooms
      ∙ ap
          (λ (p : List RoomEntry × List (Bytes × Bytes)). record f { rooms = p.0; room_list = p.1 })
          (λ i. (
            append_assoc f.rooms (to_room_entry wx room ∷ []) (entries rooms) i,
            append_assoc f.room_list ((wx.from_utf8 room.room_name, decimal room.user_count) ∷ [])
                (rows rooms) i,
          ))

  nth_entry :
      (rooms : List ChatRoomInfo) (i : ℕ) (room : ChatRoomInfo)
      → room_at rooms i ≡ some room
      → (nth wx (entries rooms) i ≡ some (to_room_entry wx room))
        × (row_at (rows rooms) i ≡ some (wx.from_utf8 room.room_name, decimal room.user_count))
  nth_entry [] i room h = cc
  nth_entry (first ∷ rooms) zero room h = ground arith
  nth_entry (first ∷ rooms) (suc i) room h = nth_entry rooms i room h

  -- The window after a room list, with a row of it selected.
  abbrev pub listed : ChatClientFrame → List ChatRoomInfo → ℕ → ChatClientFrame
  listed f rooms i = record (process_protocol_event wx f (chat_room_list rooms)) {
    selected = some i;
  }

  module _ (codec : Codec) (f : ChatClientFrame) (rooms : List ChatRoomInfo) (i : ℕ)
      (room : ChatRoomInfo) where
    -- After a list of rooms has come, the row at an index shows the name and the number of users of
    -- the room at that index of the list, and nothing is selected until the user does so; when it
    -- is selected and the window is connected, a click on the join button, or the activation of the
    -- row, asks the server to join just that room, with no message box.
    pub join_clicked-asks :
        is_connected f.protocol_client ≡ true
        → room_at rooms i ≡ some room
        → (row_at (listed f rooms i).room_list i
            ≡ some (wx.from_utf8 room.room_name, decimal room.user_count))
          × ((process_protocol_event wx f (chat_room_list rooms)).selected ≡ none)
          × ((on_join_room_clicked wx codec (listed f rooms i)).protocol_client
              ≡ send_join_room_request codec f.protocol_client room.room_id)
          × ((on_join_room_clicked wx codec (listed f rooms i)).boxes ≡ f.boxes)
    unfolding process_protocol_event apply_room_list on_join_room_clicked get_selected_room
        append_line
    join_clicked-asks on there =
        let cleared = record f { rooms = []; room_list = []; selected = none } in
        let shown = apply_rooms_lem cleared rooms in
        let found = nth_entry rooms i room there in
        rw shown (found.1, refl, ground (arith, found.0), ground (arith, found.0))
