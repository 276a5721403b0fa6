-- ===== src/Exchange.antt =====
-- The two programs together: what the client of NightClient/ChatProtocolClient.cpp sends and what
-- NightServer/NetworkSystem.cpp makes of it, and back.
pub mod Requests
pub mod Answers
pub mod Transport
pub mod Window
use project_night.Wire.{Bytes}
use project_night.Prelude.{ℕ, ◌≡◌, Bool, false, some, is_empty}
use project_night.Message.{Message, MessagePayload, Codec}

-- What FlatBuffers promises of a message: its bytes pass the verifier and read back as it.
abbrev ReadsBack : Codec → Message → Type 0
ReadsBack codec message = codec.decode (codec.encode message) ≡ some message

-- The message is not empty as bytes, and reads back.
abbrev pub Carries : Codec → ℕ → MessagePayload → Type 0
Carries codec request_id payload =
    let message : Message = record { request_id = request_id; payload = payload } in
    (is_empty (codec.encode message) ≡ false) × ReadsBack codec message
