-- ===== src/Logic/Effect.antt =====
-- What one event does (NightServer/GameLogicSystem.cpp): which public calls it makes on the room
-- system, and to whom it sends.
pub mod Leaving
pub mod Handlers
pub mod Events
use project_night.Prelude.{
  ℕ, ◌≡◌, ◌≢◌, ◌⊎◌, Bool, true, false, not, ◌&&◌, ◌||◌, List, [], ◌∷◌, ◌++◌, Option, none, some,
  All, length, is_empty, leb, ◌==◌, if◌then◌else◌,
}
use project_night.Wire.{Bytes}
use project_night.Rooms.{SessionState, RoomSystem, find_session, is_display_name_taken}
use project_night.Rooms.Lookup.{room_of, has_room}
use project_night.Rooms.Consistency.Run.{Call, add, remove, leave, move, login, run}
use project_night.Logic.{
  ServerEvent, session_connected, session_disconnected, invalid_packet, login_request,
  room_list_request, join_room_request, chat_send_request, leave_room_request, disconnect_request,
  Env, GameLogic, OutgoingMessage,
}
use project_night.Logic.Handlers.{handle}

-- The session that an event is about.
abbrev pub subject : ServerEvent → ℕ
subject (session_connected k) = k
subject (session_disconnected k) = k
subject (invalid_packet k message) = k
subject (login_request k request_id display_name) = k
subject (room_list_request k request_id) = k
subject (join_room_request k request_id room_id) = k
subject (chat_send_request k request_id content) = k
subject (leave_room_request k request_id) = k
subject (disconnect_request k request_id) = k

abbrev known : Option SessionState → Bool
known none = false
known (some s) = true

abbrev may_enter : ℕ → Option SessionState → Bool
may_enter room_id none = false
may_enter room_id (some s) = s.logged_in && not (s.room_id == room_id)

-- A login is accepted for a known session and a name of 1 to 32 bytes that nobody else has.
abbrev pub accepts_login : RoomSystem → ℕ → Bytes → Bool
accepts_login rs k name =
    known (find_session rs k)
    && not (is_empty name)
    && leb (length name) 32
    && not (is_display_name_taken rs name k)

-- A join is accepted for a logged-in session and a room that exists and is not its own.
abbrev pub accepts_join : RoomSystem → ℕ → ℕ → Bool
accepts_join rs k room_id = may_enter room_id (find_session rs k) && has_room rs room_id

-- The calls on the room system that an event amounts to.
abbrev pub calls : RoomSystem → ServerEvent → List Call
calls rs (session_connected k) = add k ∷ []
calls rs (session_disconnected k) = remove k ∷ []
calls rs (invalid_packet k message) = []
calls rs (login_request k request_id name) =
    if accepts_login rs k name then login k name ∷ [] else []
calls rs (room_list_request k request_id) = []
calls rs (join_room_request k request_id room_id) =
    if accepts_join rs k room_id then leave k ∷ move k room_id ∷ [] else []
calls rs (chat_send_request k request_id content) = []
calls rs (leave_room_request k request_id) = leave k ∷ []
calls rs (disconnect_request k request_id) = remove k ∷ []

-- Two sessions are in one room.
abbrev pub Together : RoomSystem → ℕ → ℕ → Type 0
Together rs k j = (r : ℕ) × (r ≢ 0) × (room_of rs k ≡ some r) × (room_of rs j ≡ some r)

-- The room that the event asks to join.
abbrev Awaits : RoomSystem → ServerEvent → ℕ → Type 0
Awaits rs (join_room_request k request_id room_id) j = room_of rs j ≡ some room_id
Awaits rs _ j = ⊥

-- A session that an event may concern: its own, one in the same room before it, or one in the room
-- that it asks to join.
abbrev pub Concerned : RoomSystem → ServerEvent → ℕ → Type 0
Concerned rs e j = (j ≡ subject e) ⊎ Together rs (subject e) j ⊎ Awaits rs e j

-- From `g` to `h` messages were appended, all of them to sessions of `Q`.
pub record Mails (Q : ℕ → Type 0) (g h : GameLogic) : Type 0 where
  pub new : List OutgoingMessage
  pub sent : h.outgoing ≡ g.outgoing ++ new
  pub to : All (λ m. Q m.session_id) new

-- An event was handled, with these calls on the room system, and messages to those it concerns.
pub record Handled (env : Env) (g : GameLogic) (e : ServerEvent) : Type 0 where
  pub next : GameLogic
  pub handled : handle env g e ≡ some next
  pub rooms : next.rooms ≡ run g.rooms (calls g.rooms e)
  pub mails : Mails (Concerned g.rooms e) g next
