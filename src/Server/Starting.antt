-- ===== src/Server/Starting.antt =====
-- How NightNetwork/src/Server.cpp starts: the port, the first accept and the threads.
use project_night.Prelude.{Option-cases, ◌⊎◌, ◌≡◌, inl, inr, true, ◌++◌, none, some, arith}
use project_night.Wire.{Bytes}
use project_night.Server.{
  Server, server, Listening, create, listen, open_failed, option_failed, bind_failed, listen_failed,
}

-- A server that was made: its port is open, and an accept is pending.
unfoldable pub started : Server
started = record server { listening = true; accepting = true }

-- `create` gives a server that listens and accepts when its four calls succeed, and else the message
-- of the first that fails, behind what it was for.
pub create_listens :
    (calls : Listening)
    → ((calls.open_socket ≡ none)
        × (calls.set_option ≡ none)
        × (calls.bind ≡ none)
        × (calls.listen ≡ none)
        × (create calls ≡ inr started))
      ⊎ ((message : Bytes) × (calls.open_socket ≡ some message)
          × (create calls ≡ inl (open_failed ++ message)))
      ⊎ ((message : Bytes) × (calls.open_socket ≡ none)
          × (calls.set_option ≡ some message)
          × (create calls ≡ inl (option_failed ++ message)))
      ⊎ ((message : Bytes) × (calls.open_socket ≡ none)
          × (calls.set_option ≡ none)
          × (calls.bind ≡ some message)
          × (create calls ≡ inl (bind_failed ++ message)))
      ⊎ ((message : Bytes) × (calls.open_socket ≡ none)
          × (calls.set_option ≡ none)
          × (calls.bind ≡ none)
          × (calls.listen ≡ some message)
          × (create calls ≡ inl (listen_failed ++ message)))
unfolding create listen started
create_listens calls = elim (Option-cases calls.open_socket) [
  | inr (m, e) ↦ inr (inl (m, e, ground arith))
  | inl opened ↦ elim (Option-cases calls.set_option) [
    | inr (m, e) ↦ inr (inr (inl (m, opened, e, ground arith)))
    | inl set ↦ elim (Option-cases calls.bind) [
      | inr (m, e) ↦ inr (inr (inr (inl (m, opened, set, e, ground arith))))
      | inl bound ↦ elim (Option-cases calls.listen) [
        | inr (m, e) ↦ inr (inr (inr (inr (m, opened, set, bound, e, ground arith))))
        | inl listens ↦ inl (opened, set, bound, listens, ground arith)
      ]
    ]
  ]
]

-- A server that `create` gave is the started one.
pub create-started : (calls : Listening) (v : Server) → create calls ≡ inr v → v ≡ started
create-started calls v made = elim (create_listens calls) [
  | inl h ↦ cc (h.4)
  | inr (inl h) ↦ cc (h.2)
  | inr (inr (inl h)) ↦ cc (h.3)
  | inr (inr (inr (inl h))) ↦ cc (h.4)
  | inr (inr (inr (inr h))) ↦ cc (h.5)
]
