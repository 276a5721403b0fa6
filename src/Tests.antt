-- ===== src/Tests.antt =====
-- Concrete states and inputs, and the theorems at them.
pub mod Server
pub mod Transport
pub mod Connection
pub mod Delivery
pub mod Window
use project_night.Prelude.{
  ℕ, zero, suc, ◌+◌, ◌*◌, ◌/◌, ◌%◌, ◌^◌, ◌<◌, ◌≡◌, refl, ap, arith, Bool, true, false, List, [],
  ◌∷◌, ◌++◌, Option, none, some, length, take, drop,
}
use project_night.Wire.{Bytes}
use project_night.Rooms.{RoomSystem, SessionState, room_system, find_session}
use project_night.Rooms.Consistency.{IsConsistent}
use project_night.Rooms.Consistency.Run.{
  Call, add, login, move, run, run-IsConsistent, room_system-IsConsistent,
}
use project_night.Message.{
  MessagePayload, Message, Codec, login_request, room_list_request, join_room_request,
  chat_send_request, chat_broadcast,
}
use project_night.Message.{c_str}
use project_night.Logic.{Env, GameLogic}
use project_night.Logic.Chat.{Fits, chat_bytes}
use project_night.Exchange.{Carries}
use project_night.Exchange.Answers.{chat_payload}

abbrev pub alice : Bytes
alice = 65 ∷ 108 ∷ []

abbrev bob : Bytes
bob = 66 ∷ 111 ∷ []

abbrev carol : Bytes
carol = 67 ∷ 97 ∷ []

abbrev pub hello : Bytes
hello = 72 ∷ 105 ∷ []

-- Two sessions in the first room, one in the second, and one that has only connected.
abbrev pub arrivals : List Call
arrivals =
    add 1
    ∷ login 1 alice
    ∷ move 1 1001
    ∷ add 2
    ∷ login 2 bob
    ∷ move 2 1001
    ∷ add 3
    ∷ login 3 carol
    ∷ move 3 1002
    ∷ add 4
    ∷ []

abbrev pub lobby : RoomSystem
lobby = run room_system arrivals

pub lobby-IsConsistent : IsConsistent lobby
lobby-IsConsistent = run-IsConsistent room_system arrivals room_system-IsConsistent

abbrev pub game : GameLogic
game = record { rooms = lobby; outgoing = []; pending_disconnects = []; clock_reads = 0 }

abbrev pub alice_session : SessionState
alice_session = record {
  session_id = 1;
  user_id = 1;
  display_name = alice;
  room_id = 1001;
  logged_in = true;
}

abbrev text_of : Option Bytes → Bytes
text_of none = []
text_of (some text) = text

-- A plain layout of some of the messages: numbers have their lowest byte first.
abbrev u32 : ℕ → Bytes
u32 n = n % 256 ∷ n / 256 % 256 ∷ n / 65536 % 256 ∷ n / 16777216 % 256 ∷ []

abbrev pub u64 : ℕ → Bytes
u64 n = u32 (n % 2 ^ 32) ++ u32 (n / 2 ^ 32)

abbrev read_u32 : Bytes → ℕ
read_u32 (a ∷ b ∷ c ∷ d ∷ rest) = a + 256 * b + 65536 * c + 16777216 * d
read_u32 bytes = 0

abbrev pub read_u64 : Bytes → ℕ
read_u64 bytes = read_u32 bytes + 2 ^ 32 * read_u32 (drop 4 bytes)

abbrev first : Bytes → ℕ
first [] = 0
first (b ∷ rest) = b

abbrev encode_payload : MessagePayload → Bytes
encode_payload (chat_broadcast (some b)) =
    u32 b.room_id
    ++ u32 b.sender_id
    ++ u64 b.timestamp
    ++ (length (text_of b.sender_name) % 256) ∷ text_of b.sender_name
    ++ text_of b.content
encode_payload (login_request (some r)) = text_of r.display_name
encode_payload (join_room_request (some r)) = u32 r.room_id
encode_payload (chat_send_request (some r)) = text_of r.content
encode_payload other_payload = []

abbrev tag : MessagePayload → ℕ
tag (chat_broadcast b) = 0
tag (login_request r) = 1
tag (room_list_request r) = 2
tag (join_room_request r) = 3
tag (chat_send_request r) = 4
tag other_payload = 5

abbrev decode_payload : ℕ → Bytes → Option MessagePayload
decode_payload zero rest = some (
    chat_broadcast (
      some (record {
        room_id = read_u32 rest;
        sender_id = read_u32 (drop 4 rest);
        sender_name = some (take (first (drop 16 rest)) (drop 17 rest));
        content = some (drop (first (drop 16 rest)) (drop 17 rest));
        timestamp = read_u64 (drop 8 rest);
      })))
decode_payload (suc zero) rest = some (login_request (some (record { display_name = some rest })))
decode_payload (suc (suc zero)) rest = some (room_list_request (some tt))
decode_payload (suc (suc (suc zero))) rest =
    some (join_room_request (some (record { room_id = read_u32 rest })))
decode_payload (suc (suc (suc (suc zero)))) rest =
    some (chat_send_request (some (record { content = some rest })))
decode_payload other_tag rest = none

abbrev decode_bytes : Bytes → Option Message
decode_bytes [] = none
decode_bytes (kind ∷ rest) = elim (decode_payload kind (drop 4 rest)) [
  | none ↦ none
  | some payload ↦ some (record { request_id = read_u32 rest; payload = payload })
]

abbrev pub codec : Codec
codec = record {
  encode = λ m. tag m.payload ∷ u32 m.request_id ++ encode_payload m.payload;
  decode = decode_bytes;
}

abbrev pub env : Env
env = record { codec = codec; clock = λ i. i }

-- Numbers of 64 bits read back.
read_u64-u64 : (n : ℕ) → n < 2 ^ 64 → read_u64 (u64 n) ≡ n
read_u64-u64 n small = omega arith

-- A greeting's broadcast is sent and reads back at every time.
pub greeting-Fits : (time : ℕ) → time < 2 ^ 64 → Fits (chat_bytes env alice_session hello time)
unfolding c_str
greeting-Fits time small = (refl, omega arith)

pub greeting-Carries :
    (time : ℕ) → time < 2 ^ 64 → Carries codec 0 (chat_payload env alice_session hello time)
unfolding c_str
greeting-Carries time small = (
  refl,
  ap {B = Option Message}
      (λ (n : ℕ). some (record {
        request_id = 0;
        payload = chat_broadcast (
            some (record {
              room_id = 1001;
              sender_id = 1;
              sender_name = some alice;
              content = some hello;
              timestamp = n;
            }));
      }))
      (read_u64-u64 time small),
)

-- The game before anybody comes.
abbrev pub new_game : GameLogic
new_game = record { rooms = room_system; outgoing = []; pending_disconnects = []; clock_reads = 0 }
