-- ===== src/Server/History.antt =====
-- The packets that NightNetwork/src/Server.cpp has handed to the game thread or keeps for it, and what
-- pushing one does to their order.
use mathlib.Core.List.{append_assoc}
use project_night.Prelude.{
  ℕ, ◌+◌, ◌%◌, ◌^◌, ◌<◌, ◌≤◌, ◌≡◌, refl, sym, ◌∙◌, ap, subst, ◌⊎◌, inl, inr, Bool, true, false, not,
  ◌&&◌, ◌||◌, List, [], ◌∷◌, ◌++◌, some, arith, Bool-cases, length, length-append, ltb, ◌==◌,
}
use project_night.Prelude.Map
use project_night.Prelude.Map.{map_some}
use project_night.Wire.{Bytes}
use project_night.Session.{Session}
use project_night.Network
use project_night.Network.{Packet, PacketType, connect, data_packet}
use project_night.Server.{
  Task, Post, erase_session, Server, push_packet, receive_all, session_closed,
}

-- The packets of the game thread: those polled, then those that wait.
abbrev pub history : Server → List Packet
history v = v.polled ++ v.packet_queue

abbrev pub opens : PacketType → Bool
opens connect = true
opens data_packet = false
opens Network.disconnect = false

-- There is a connect packet of the session.
abbrev pub opened : ℕ → List Packet → Bool
opened j [] = false
opened j (p ∷ ps) = (opens p.type && p.session_id == j) || opened j ps

-- After packets that opened the sessions of `before`: a session has one connect packet, and its
-- other packets come after it.
abbrev pub AreOrdered : (ℕ → Bool) → List Packet → Type 0
AreOrdered before [] = Unit
AreOrdered before (p ∷ ps) =
    (before p.session_id ≡ not (opens p.type))
    × AreOrdered (λ j. (opens p.type && p.session_id == j) || before j) ps

pub opened-append :
    (j : ℕ) (ps : List Packet) (q : Packet)
    → opened j (ps ++ q ∷ []) ≡ (opened j ps || (opens q.type && q.session_id == j))
opened-append j [] q = ground arith
opened-append j (p ∷ ps) q = ground (arith, opened-append j ps q)

pub AreOrdered-append :
    (before : ℕ → Bool) (ps : List Packet) (q : Packet)
    → AreOrdered before ps
    → (opened q.session_id ps || before q.session_id) ≡ not (opens q.type)
    → AreOrdered before (ps ++ q ∷ [])
AreOrdered-append before [] q o h = (h, tt)
AreOrdered-append before (p ∷ ps) q o h = (
  o.0,
  AreOrdered-append (λ j. (opens p.type && p.session_id == j) || before j) ps q o.1 (ground arith),
)

pub record IsOrderly (v : Server) : Type 0 where
  pub ordered : AreOrdered (λ _. false) (history v)
  pub fresh : (j : ℕ) → opened j (history v) ≡ true → j < v.next_id
  pub known : (j : ℕ) (s : Session) → Map.find j v.objects ≡ some s → opened j (history v) ≡ true
  pub bounded : length v.packet_queue ≤ 8192

abbrev pub longer : Server → Packet → Server
longer v q = record v { packet_queue = v.packet_queue ++ q ∷ [] }

pub history-longer : (v : Server) (q : Packet) → history (longer v q) ≡ history v ++ q ∷ []
history-longer v q = sym (append_assoc v.polled v.packet_queue (q ∷ []))

-- A packet is dropped, or stands last in the queue, which was not full.
pub push_packet-cases :
    (v : Server) (q : Packet)
    → ((n : ℕ) × (push_packet v q ≡ (false, record v { dropped_packets = n })))
      ⊎ ((length v.packet_queue < 8192) × (push_packet v q ≡ (true, longer v q)))
unfolding push_packet
push_packet-cases v q = elim (Bool-cases v.shutting_down) [
  | inl down ↦ inl (v.dropped_packets, ground arith)
  | inr up ↦ elim (Bool-cases (ltb (length v.packet_queue) 8192)) [
    | inl room ↦ inr (ground arith, ground arith)
    | inr full ↦ inl ((v.dropped_packets + 1) % 2 ^ 64, ground arith)
  ]
]

-- Only these fields matter.
pub with_fields-IsOrderly :
    (v : Server) (sessions : List ℕ) (posted : List Task) (to_sessions : List (ℕ × Post)) (n : ℕ)
    (down : Bool)
    → IsOrderly v
    → IsOrderly (record v {
      sessions = sessions;
      posted = posted;
      to_sessions = to_sessions;
      dropped_packets = n;
      shutting_down = down;
    })
with_fields-IsOrderly v sessions posted to_sessions n down i = record {
  ordered = i.ordered;
  fresh = i.fresh;
  known = i.known;
  bounded = i.bounded;
}

pub with_flags-IsOrderly :
    (v : Server) (listening accepting stopped : Bool)
    → IsOrderly v
    → IsOrderly (record v { listening = listening; accepting = accepting; stopped = stopped })
with_flags-IsOrderly v listening accepting stopped i = record {
  ordered = i.ordered;
  fresh = i.fresh;
  known = i.known;
  bounded = i.bounded;
}

-- A packet of a session that was announced.
longer-IsOrderly :
    (v : Server) (q : Packet)
    → IsOrderly v
    → opens q.type ≡ false
    → opened q.session_id (history v) ≡ true
    → length v.packet_queue < 8192
    → IsOrderly (longer v q)
longer-IsOrderly v q i quiet there room = record {
  ordered =
      subst (AreOrdered (λ _. false)) (sym (history-longer v q))
        (AreOrdered-append (λ _. false) (history v) q i.ordered (ground arith));
  fresh = λ j h. i.fresh j (same j ∙ h);
  known = λ j s h. sym (same j) ∙ i.known j s h;
  bounded = omega (arith, length-append v.packet_queue (q ∷ []));
}
  where
    same : (j : ℕ) → opened j (history v) ≡ opened j (history (longer v q))
    same j = sym (
        ap (λ (ps : List Packet). opened j ps) (history-longer v q)
        ∙ opened-append j (history v) q
        ∙ ground arith)

push-IsOrderly :
    (v : Server) (q : Packet)
    → IsOrderly v
    → opens q.type ≡ false
    → opened q.session_id (history v) ≡ true
    → IsOrderly (push_packet v q).1 × (opened q.session_id (history (push_packet v q).1) ≡ true)
push-IsOrderly v q i quiet there = elim (push_packet-cases v q) [
  | inl (n, e) ↦
      rw e (with_fields-IsOrderly v v.sessions v.posted v.to_sessions n v.shutting_down i, there)
  | inr (room, e) ↦ rw e (
    longer-IsOrderly v q i quiet there room,
    ap (λ (ps : List Packet). opened q.session_id ps) (history-longer v q)
        ∙ opened-append q.session_id (history v) q
        ∙ ground arith,
  )
]

pub receive_all-IsOrderly :
    (v : Server) (id : ℕ) (payloads : List Bytes)
    → IsOrderly v
    → opened id (history v) ≡ true
    → IsOrderly (receive_all v id payloads)
      × (opened id (history (receive_all v id payloads)) ≡ true)
unfolding receive_all
receive_all-IsOrderly v id [] i there = (i, there)
receive_all-IsOrderly v id (payload ∷ rest) i there =
    let q : Packet = record { type = data_packet; session_id = id; payload = payload } in
    let (one, still) = push-IsOrderly v q i refl there in
    receive_all-IsOrderly (push_packet v q).1 id rest one still

pub session_closed-IsOrderly :
    (v : Server) (id : ℕ)
    → IsOrderly v
    → opened id (history v) ≡ true
    → IsOrderly (session_closed v id)
unfolding session_closed
session_closed-IsOrderly v id i there =
    let q : Packet = record { type = Network.disconnect; session_id = id; payload = [] } in
    let w = (push_packet v q).1 in
    with_fields-IsOrderly w w.sessions (w.posted ++ erase_session id ∷ []) w.to_sessions
      w.dropped_packets w.shutting_down (push-IsOrderly v q i refl there).0
