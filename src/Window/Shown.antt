-- ===== src/Window/Shown.antt =====
-- What the window of NightClient/ChatClientFrame.cpp shows agrees with what it keeps.
pub mod Runs
use mathlib.Core.List.{map-append}
use project_night.Prelude.{
  All-append, suc, zero, ℕ, Bool, true, false, not, ◌||◌, ◌≡◌, refl, sym, ◌∙◌, ap, inl, inr, List,
  [], ◌∷◌, ◌++◌, map, Option, none, some, arith, All, Bool-cases, Option-cases, is_empty, ◌==◌,
}
use project_night.Wire.{Bytes}
use project_night.Message.{Codec}
use project_night.Client.{ChatRoomInfo, ChatProtocolEvent}
use project_night.Client
use project_night.Window
use project_night.Window.{
  Wx, ChatClientFrame, RoomEntry, row_of, apply_room, apply_rooms, apply_room_list, delete_at,
  FindsItems, add_user, remove_user, append_line, process_protocol_event, process_events,
  set_connection_state,
}
use project_night.Client.{
  chat_login_succeeded, chat_login_failed, chat_room_list, chat_join_room_succeeded,
  chat_join_room_failed, chat_message_received, chat_user_joined, chat_user_left,
  chat_system_message, chat_protocol_error,
}

module _ (wx : Wx) (same : Bytes → Bytes → Bool) where
  -- No item of a list box is the same as an earlier one.
  abbrev pub AreDistinct : List Bytes → Type 0
  AreDistinct [] = Unit
  AreDistinct (item ∷ items) = All (λ other. same item other ≡ false) items × AreDistinct items

  pub record IsShown (f : ChatClientFrame) : Type 0 where
    -- The rows of the list of rooms are those of the rooms, in order,
    pub rows : f.room_list ≡ map (row_of wx) f.rooms
    -- nobody is listed twice,
    pub users : AreDistinct f.user_list
    -- and the controls are enabled for being connected, or for not being so.
    pub host_lem : f.host_enabled ≡ f.connect_enabled
    pub port_lem : f.port_enabled ≡ f.connect_enabled
    pub refresh_lem : f.refresh_enabled ≡ not f.connect_enabled
    pub join_lem : f.join_enabled ≡ not f.connect_enabled
    pub input_lem : f.input_enabled ≡ not f.connect_enabled
    pub send_lem : f.send_enabled ≡ not f.connect_enabled

  -- With other rooms.
  pub with_rooms-IsShown :
      (f : ChatClientFrame) (rooms : List RoomEntry) (rows : List (Bytes × Bytes))
      (selected : Option ℕ)
      → rows ≡ map (row_of wx) rooms
      → IsShown f
      → IsShown (record f { rooms = rooms; room_list = rows; selected = selected })
  with_rooms-IsShown f rooms rows selected e v = record {
    rows = e;
    users = v.users;
    host_lem = v.host_lem;
    port_lem = v.port_lem;
    refresh_lem = v.refresh_lem;
    join_lem = v.join_lem;
    input_lem = v.input_lem;
    send_lem = v.send_lem;
  }

  -- With other users.
  with_users-IsShown :
      (f : ChatClientFrame) (users : List Bytes)
      → AreDistinct users
      → IsShown f
      → IsShown (record f { user_list = users })
  with_users-IsShown f users d v = record {
    rows = v.rows;
    users = d;
    host_lem = v.host_lem;
    port_lem = v.port_lem;
    refresh_lem = v.refresh_lem;
    join_lem = v.join_lem;
    input_lem = v.input_lem;
    send_lem = v.send_lem;
  }

  pub set_connection_state-IsShown :
      (f : ChatClientFrame) (connected : Bool)
      → IsShown f
      → IsShown (set_connection_state wx f connected)
  unfolding set_connection_state
  set_connection_state-IsShown f true v = record {
    rows = v.rows;
    users = v.users;
    host_lem = refl;
    port_lem = refl;
    refresh_lem = refl;
    join_lem = refl;
    input_lem = refl;
    send_lem = refl;
  }
  set_connection_state-IsShown f false v = record {
    rows = v.rows;
    users = v.users;
    host_lem = refl;
    port_lem = refl;
    refresh_lem = refl;
    join_lem = refl;
    input_lem = refl;
    send_lem = refl;
  }

  pub apply_rooms-IsShown :
      (f : ChatClientFrame) (rooms : List ChatRoomInfo)
      → IsShown f
      → IsShown (apply_rooms wx f rooms)
  unfolding apply_rooms
  apply_rooms-IsShown f [] v = v
  apply_rooms-IsShown f (room ∷ rooms) v =
      let entry = Window.to_room_entry wx room in
      apply_rooms-IsShown (apply_room wx f room) rooms (
        with_rooms-IsShown f (f.rooms ++ entry ∷ []) (f.room_list ++ row_of wx entry ∷ [])
          f.selected
          (ap (λ (l : List (Bytes × Bytes)). l ++ row_of wx entry ∷ []) v.rows
            ∙ sym (map-append (row_of wx) f.rooms (entry ∷ [])))
          v)

  AreDistinct-last :
      (items : List Bytes) (name : Bytes)
      → AreDistinct items
      → All (λ item. same item name ≡ false) items
      → AreDistinct (items ++ name ∷ [])
  AreDistinct-last [] name d a = (tt, tt)
  AreDistinct-last (item ∷ items) name d a = (
    All-append (λ other. same item other ≡ false) items (name ∷ []) d.0 (a.0, tt),
    AreDistinct-last items name d.1 a.1,
  )

  All-delete :
      (P : Bytes → Type 0) (items : List Bytes) (i : ℕ) → All P items → All P (delete_at wx items i)
  All-delete P [] i a = tt
  All-delete P (item ∷ items) zero a = a.1
  All-delete P (item ∷ items) (suc i) a = (a.0, All-delete P items i a.1)

  AreDistinct-delete :
      (items : List Bytes) (i : ℕ) → AreDistinct items → AreDistinct (delete_at wx items i)
  AreDistinct-delete [] i d = tt
  AreDistinct-delete (item ∷ items) zero d = d.1
  AreDistinct-delete (item ∷ items) (suc i) d =
      (All-delete (λ other. same item other ≡ false) items i d.0, AreDistinct-delete items i d.1)

  pub add_user-IsShown :
      (f : ChatClientFrame) (name : Bytes)
      → FindsItems wx same
      → IsShown f
      → IsShown (add_user wx f name)
  unfolding add_user
  add_user-IsShown f name laws v = elim (Bool-cases (is_empty name)) [
    | inl blank ↦ rw blank v
    | inr named ↦ elim (Option-cases (wx.find_string f.user_list name)) [
      | inr (i, there) ↦ rw (named, there, add_user) v
      | inl fresh ↦
          rw (named, fresh, add_user)
            (with_users-IsShown f (f.user_list ++ name ∷ [])
              (AreDistinct-last f.user_list name v.users (laws.misses f.user_list name fresh)) v)
    ]
  ]

  pub remove_user-IsShown :
      (f : ChatClientFrame) (name : Bytes) → IsShown f → IsShown (remove_user wx f name)
  unfolding remove_user
  remove_user-IsShown f name v = elim (Option-cases (wx.find_string f.user_list name)) [
    | inl gone ↦ rw (gone, remove_user) v
    | inr (i, there) ↦
        rw (there, remove_user)
          (with_users-IsShown f (delete_at wx f.user_list i)
            (AreDistinct-delete f.user_list i v.users) v)
  ]
