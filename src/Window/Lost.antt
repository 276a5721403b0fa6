-- ===== src/Window/Lost.antt =====
-- What NightClient/ChatClientFrame.cpp makes of a connection that is lost between two ticks.
use project_night.Prelude.{false, ◌≡◌, refl, arith}
use project_night.Message.{Codec}
use project_night.Client.{
  ChatProtocolClient, Transport, is_connected, send_request, send_login_request,
  send_room_list_request, send_join_room_request, send_chat_request,
}
use project_night.Client
use project_night.Window.{Wx, ChatClientFrame}
use project_night.Window.Handlers.{
  on_refresh_rooms_clicked, on_join_room_clicked, on_send_clicked, on_poll_timer, on_close,
  lose_connection,
}
use project_night.Window.Step.{
  Step, Steps, typed, chosen, connect_clicked, refresh_clicked, join_clicked, room_activated,
  send_clicked, ticked, packets_received, connection_lost, closed, none_left, then_step,
}

-- There is no connection, and no way to ask for one.
pub record IsStuck (f : ChatClientFrame) : Type 0 where
  pub off : is_connected f.protocol_client ≡ false
  pub no_button : f.connect_enabled ≡ false

module _ (wx : Wx) (codec : Codec) where
  Step-IsStuck : (f g : ChatClientFrame) → Step wx codec f g → IsStuck f → IsStuck g
  unfolding is_connected on_refresh_rooms_clicked on_join_room_clicked on_send_clicked on_poll_timer
      on_close Client.disconnect
  Step-IsStuck _ _ (typed f host port name input) v = record {
    off = v.off;
    no_button = v.no_button;
  }
  Step-IsStuck _ _ (chosen f selected) v = record { off = v.off; no_button = v.no_button }
  Step-IsStuck _ _ (connect_clicked f created enabled) v = absurd (ground (arith, v.no_button))
  Step-IsStuck _ _ (refresh_clicked f enabled) v = record {
    off = ground (arith, v.off);
    no_button = ground (arith, v.off, v.no_button);
  }
  Step-IsStuck _ _ (join_clicked f enabled) v = record {
    off = ground (arith, v.off);
    no_button = ground (arith, v.off, v.no_button);
  }
  Step-IsStuck _ _ (room_activated f) v = record {
    off = ground (arith, v.off);
    no_button = ground (arith, v.off, v.no_button);
  }
  Step-IsStuck _ _ (send_clicked f enabled) v = record {
    off = ground (arith, v.off);
    no_button = ground (arith, v.off, v.no_button);
  }
  Step-IsStuck _ _ (ticked f lost) v = record {
    off = ground (arith, v.off);
    no_button = ground (arith, v.off, v.no_button);
  }
  Step-IsStuck _ _ (packets_received f packets) v = record {
    off = ground (arith, v.off);
    no_button = v.no_button;
  }
  Step-IsStuck _ _ (connection_lost f) v = record {
    off = ground (arith, v.off);
    no_button = v.no_button;
  }
  Step-IsStuck _ _ (closed f) v = record { off = refl; no_button = v.no_button }

  Steps-IsStuck : (f g : ChatClientFrame) → Steps wx codec f g → IsStuck f → IsStuck g
  Steps-IsStuck _ _ (none_left f) v = v
  Steps-IsStuck _ _ (then_step f g h run last) v = Step-IsStuck g h last (Steps-IsStuck f g run v)

  -- When the connection of a window whose connect button is disabled is lost between two ticks of
  -- its timer, then whatever the user, the timer and the network do from then on, the window stays
  -- without a connection and its connect button stays disabled.
  pub connection_lost-IsStuck :
      (f g : ChatClientFrame)
      → f.connect_enabled ≡ false
      → Steps wx codec (record f { protocol_client = lose_connection f.protocol_client }) g
      → IsStuck g
  unfolding is_connected
  connection_lost-IsStuck f g no_button run =
      Steps-IsStuck (record f { protocol_client = lose_connection f.protocol_client }) g run
        (record { off = ground arith; no_button = no_button })
