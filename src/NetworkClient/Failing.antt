-- ===== src/NetworkClient/Failing.antt =====
-- What the error of `Client::create` (NightNetwork/src/Client.cpp) tells its caller.
use project_night.Prelude.{ℕ, ◌≡◌, [], ◌∷◌, ◌++◌, Option, none, some, drop}
use project_night.Prelude.Text.{utf8}
use project_night.Wire.{Bytes}
use project_night.NetworkClient.{Connecting}

-- The calls on the way to a connection, and the first that fails, with its message.
pub data Call : Type 0 where
  resolving reaching setting_no_delay : Call

abbrev pub first_failure : Connecting → Option (Call × Bytes)
first_failure calls = elim calls.resolve [
  | some message ↦ some (resolving, message)
  | none ↦ elim calls.connect [
    | some message ↦ some (reaching, message)
    | none ↦ elim calls.set_no_delay [
      | some message ↦ some (setting_no_delay, message)
      | none ↦ none
    ]
  ]
]

-- The texts that a user reads.
unfoldable pub said : Call → Bytes
unfolding utf8
said resolving = utf8 "[에러] 주소 해석 실패: "
said reaching = utf8 "[에러] 서버 연결 실패: "
said setting_no_delay = utf8 "[에러] TCP_NODELAY 설정 실패: "

-- Of one error.
record Failed (calls : Connecting) (error : Bytes) : Type 0 where
  call : Call
  message : Bytes
  first : first_failure calls ≡ some (call, message)
  text : error ≡ said call ++ message

-- The byte by which the three texts differ.
abbrev tenth : Bytes → ℕ
tenth bytes = elim (drop 10 bytes) [ [] ↦ 0 | (b ∷ rest) ↦ b ]
