-- ===== src/Window/Step.antt =====
-- The runs of NightClient/ChatClientFrame.cpp: what the user, the timer and the I/O thread may do.
use project_night.Prelude.{◌⊎◌, ℕ, Bool, true, List, Option, ◌++◌, ◌≡◌, none, some}
use project_night.Wire.{Bytes}
use project_night.Message.{Codec}
use project_night.Client.{ChatProtocolClient, Transport}
use project_night.Window.{Wx, ChatClientFrame}
use project_night.Window.Handlers.{
  on_connect_clicked, on_refresh_rooms_clicked, on_join_room_clicked, on_send_clicked,
  on_poll_timer, on_close, lose_connection,
}

-- Packets come in while a client is there.
abbrev pub receive_packets : ChatProtocolClient → List Bytes → ChatProtocolClient
receive_packets c packets = elim c.client [
  | none ↦ c
  | some client ↦ record c { client = some (record client { packets = client.packets ++ packets }) }
]

-- A button that is disabled cannot be clicked, nor text entered in a disabled control; the list of
-- rooms is never disabled.
pub data Step (wx : Wx) (codec : Codec) : ChatClientFrame → ChatClientFrame → Type 0 where
  typed :
      (f : ChatClientFrame) (host port display_name message_input : Bytes)
      → Step wx codec f (record f {
        host = host;
        port = port;
        display_name = display_name;
        message_input = message_input;
      })
  chosen :
      (f : ChatClientFrame) (selected : Option ℕ)
      → Step wx codec f (record f { selected = selected })
  connect_clicked :
      (f : ChatClientFrame) (created : Bytes → ℕ → Bytes ⊎ Transport)
      → f.connect_enabled ≡ true
      → Step wx codec f (on_connect_clicked wx codec f created)
  refresh_clicked :
      (f : ChatClientFrame)
      → f.refresh_enabled ≡ true
      → Step wx codec f (on_refresh_rooms_clicked wx codec f)
  join_clicked :
      (f : ChatClientFrame)
      → f.join_enabled ≡ true
      → Step wx codec f (on_join_room_clicked wx codec f)
  room_activated : (f : ChatClientFrame) → Step wx codec f (on_join_room_clicked wx codec f)
  send_clicked :
      (f : ChatClientFrame) → f.send_enabled ≡ true → Step wx codec f (on_send_clicked wx codec f)
  ticked : (f : ChatClientFrame) (lost : Bool) → Step wx codec f (on_poll_timer wx codec f lost)
  packets_received :
      (f : ChatClientFrame) (packets : List Bytes)
      → Step wx codec f (record f { protocol_client = receive_packets f.protocol_client packets })
  connection_lost :
      (f : ChatClientFrame)
      → Step wx codec f (record f { protocol_client = lose_connection f.protocol_client })
  closed : (f : ChatClientFrame) → Step wx codec f (on_close wx codec f)

-- Any number of steps.
pub data Steps (wx : Wx) (codec : Codec) : ChatClientFrame → ChatClientFrame → Type 0 where
  none_left : (f : ChatClientFrame) → Steps wx codec f f
  then_step :
      (f g h : ChatClientFrame) → Steps wx codec f g → Step wx codec g h → Steps wx codec f h
