-- ===== src/Server/Order.antt =====
-- The order of the packets that NightNetwork/src/Server.cpp hands to the game thread, in every run.
use mathlib.Core.List.{append_assoc}
use project_night.Prelude.{
  ℕ, ◌+◌, ◌%◌, ◌^◌, ◌<◌, ◌≤◌, ◌≡◌, sym, ◌∙◌, ap, subst, ◌⊎◌, inl, inr, Bool, true, false, not, ◌&&◌,
  ◌||◌, List, [], ◌∷◌, ◌++◌, some, arith, Bool-cases, Option-cases, length, length-append, drop,
  ltb, ◌==◌, if◌then◌else◌,
}
use project_night.Prelude.Map
use project_night.Prelude.Map.{map_some}
use project_night.Pool.{BufferPool}
use project_night.Session.{Session, session, start}
use project_night.Network.{Packet, connect}
use project_night.Server.{
  Server, Listening, create, take_connection, accept_completed, keep_session, receive_all,
  session_ran, poll_packet,
}
use project_night.Server.Step.{
  ServerStep, ServerSteps, accepted, ran, task_ran, sent, sent_to_all, disconnected, taken,
  shutdown_begun, shutdown_ended, no_more, one_more,
}
use project_night.Server.History.{
  history, opens, opened, AreOrdered, opened-append, AreOrdered-append, IsOrderly, longer,
  history-longer, push_packet-cases, with_fields-IsOrderly, with_flags-IsOrderly,
  receive_all-IsOrderly, session_closed-IsOrderly,
}
use project_night.Server.Starting.{started, create-started}
use project_night.Server.Tasks.{
  run_posted-IsOrderly, send-IsOrderly, broadcast-IsOrderly, disconnect-IsOrderly,
  begin_shutdown-IsOrderly,
}

-- An object was there before a write to one of them.
written_before :
    (id j : ℕ) (t u : Session) (m : Map.Map Session)
    → Map.find j (Map.modify id (λ _. t) m) ≡ some u
    → (o : Session) × (Map.find j m ≡ some o)
written_before id j t u m h = elim (Option-cases (Map.find j m)) [
  | inl none_there ↦ absurd (ground (arith, Map.find-modify id j (λ (_ : Session). t) m))
  | inr there ↦ there
]

-- And before another was made, unless it is that one.
made_before :
    (id j : ℕ) (t u : Session) (m : Map.Map Session)
    → Map.find j (Map.try_emplace id t m) ≡ some u
    → (id ≡ j) ⊎ ((o : Session) × (Map.find j m ≡ some o))
unfolding Map.try_emplace
made_before id j t u m h = elim (Option-cases (Map.find j m)) [
  | inr there ↦ inr there
  | inl missing ↦ elim (Option-cases (Map.find id m)) [
    | inl new ↦ inl (ground (arith, Map.find-append id j t m new))
    | inr (o, old) ↦ absurd (ground arith)
  ]
]

session_ran-IsOrderly :
    (v : Server) (id : ℕ) (s t : Session)
    → Map.find id v.objects ≡ some s
    → IsOrderly v
    → IsOrderly (session_ran v id s t)
unfolding session_ran
session_ran-IsOrderly v id s t found i =
    let kept = record v { objects = Map.modify id (λ _. t) v.objects } in
    let base : IsOrderly kept = record {
      ordered = i.ordered;
      fresh = i.fresh;
      known = λ j u h. let (o, there) = written_before id j t u v.objects h in i.known j o there;
      bounded = i.bounded;
    } in
    let payloads = drop (length s.received) t.received in
    let (heard, still) = receive_all-IsOrderly kept id payloads base (i.known id s found) in
    elim (Bool-cases (ltb s.closes t.closes)) [
      | inl ended ↦
          rw ended (session_closed-IsOrderly (receive_all kept id payloads) id heard still)
      | inr lives ↦ rw lives heard
    ]

-- The packet that announces the next session.
abbrev announcement : Server → Packet
announcement v = record { type = connect; session_id = v.next_id; payload = [] }

abbrev counted : Server → Server
counted v = record v { next_id = (v.next_id + 1) % 2 ^ 32 }

counted-IsOrderly : (v : Server) → v.next_id + 1 < 2 ^ 32 → IsOrderly v → IsOrderly (counted v)
counted-IsOrderly v small i = record {
  ordered = i.ordered;
  fresh = λ j h. omega (arith, i.fresh j h);
  known = i.known;
  bounded = i.bounded;
}

kept-IsOrderly :
    (v : Server) (made : Session)
    → IsOrderly v
    → length v.packet_queue < 8192
    → v.next_id + 1 < 2 ^ 32
    → IsOrderly (keep_session v.next_id made (true, longer (counted v) (announcement v)))
kept-IsOrderly v made i room small = record {
  ordered =
      subst (AreOrdered (λ _. false)) (sym (history-longer v (announcement v)))
        (AreOrdered-append (λ _. false) (history v) (announcement v) i.ordered unused);
  fresh = λ j h. ground (arith, grown j, i.fresh j);
  known = λ j u h. elim (made_before v.next_id j (start made) u v.objects h) [
    | inl same ↦ ground (arith, grown j)
    | inr (o, there) ↦ ground (arith, grown j, i.known j o there)
  ];
  bounded = omega (arith, length-append v.packet_queue (announcement v ∷ []));
}
  where
    unused : (opened v.next_id (history v) || false) ≡ false
    unused = elim (Bool-cases (opened v.next_id (history v))) [
      | inl used ↦ absurd (omega (arith, i.fresh v.next_id used))
      | inr free ↦ ground arith
    ]

    grown :
        (j : ℕ)
        → opened j (history (longer v (announcement v))) ≡ (opened j (history v) || v.next_id == j)
    grown j =
        ap (λ (ps : List Packet). opened j ps) (history-longer v (announcement v))
        ∙ opened-append j (history v) (announcement v)

take_connection-IsOrderly :
    (v : Server) (ok : Bool) (pool : BufferPool) (now : ℕ)
    → v.next_id + 1 < 2 ^ 32
    → IsOrderly v
    → IsOrderly (take_connection v ok pool now)
unfolding take_connection
take_connection-IsOrderly v ok pool now small i = elim (Bool-cases (ok && not v.shutting_down)) [
  | inr refused ↦ rw refused i
  | inl live ↦ elim (push_packet-cases (counted v) (announcement v)) [
    | inl (n, e) ↦
        rw (live, e)
          (with_fields-IsOrderly (counted v) v.sessions v.posted v.to_sessions n v.shutting_down
            (counted-IsOrderly v small i))
    | inr (room, e) ↦ rw (live, e) (kept-IsOrderly v (session pool now) i room small)
  ]
]

accept-IsOrderly :
    (v : Server) (ok : Bool) (pool : BufferPool) (now : ℕ)
    → v.next_id + 1 < 2 ^ 32
    → IsOrderly v
    → IsOrderly (accept_completed v ok pool now)
unfolding accept_completed
accept-IsOrderly v ok pool now small i =
    let done = record v { accepting = false } in
    let w = take_connection done ok pool now in
    let taken =
      take_connection-IsOrderly done ok pool now small
        (with_flags-IsOrderly v v.listening false v.stopped i) in
    elim w.shutting_down as (λ b. IsOrderly (if b then w else record w { accepting = true })) [
      | true ↦ taken
      | false ↦ with_flags-IsOrderly w w.listening true w.stopped taken
    ]

poll-IsOrderly : (v : Server) → IsOrderly v → IsOrderly (poll_packet v).1
unfolding poll_packet
poll-IsOrderly v i = go v.packet_queue i
  where
    go :
        (ps : List Packet)
        → IsOrderly (record v { packet_queue = ps })
        → IsOrderly (poll_packet (record v { packet_queue = ps })).1
    go [] i = i
    go (p ∷ rest) i =
        let same = append_assoc v.polled (p ∷ []) rest in
        record {
          ordered = subst (AreOrdered (λ _. false)) (sym same) i.ordered;
          fresh = λ j h. i.fresh j (ap (λ (ps : List Packet). opened j ps) (sym same) ∙ h);
          known = λ j s h. ap (λ (ps : List Packet). opened j ps) same ∙ i.known j s h;
          bounded = omega (arith, i.bounded);
        }

Step-IsOrderly : (v w : Server) → ServerStep v w → IsOrderly v → IsOrderly w
Step-IsOrderly _ _ (accepted v ok pool now runs pending small) i =
    accept-IsOrderly v ok pool now small i
Step-IsOrderly _ _ (ran v id s t runs found step) i = session_ran-IsOrderly v id s t found i
Step-IsOrderly _ _ (task_ran v pool runs valid) i = run_posted-IsOrderly v pool i
Step-IsOrderly _ _ (sent v pool session_id payload valid) i =
    send-IsOrderly v pool session_id payload i
Step-IsOrderly _ _ (sent_to_all v pool payload valid) i = broadcast-IsOrderly v pool payload i
Step-IsOrderly _ _ (disconnected v session_id) i = disconnect-IsOrderly v session_id i
Step-IsOrderly _ _ (taken v) i = poll-IsOrderly v i
Step-IsOrderly _ _ (shutdown_begun v) i = begin_shutdown-IsOrderly v i
Step-IsOrderly _ _ (shutdown_ended v down closed) i =
    with_flags-IsOrderly v v.listening v.accepting true i

Steps-IsOrderly : (v w : Server) → ServerSteps v w → IsOrderly v → IsOrderly w
Steps-IsOrderly _ _ (no_more v) i = i
Steps-IsOrderly _ _ (one_more v w x run last) i =
    Step-IsOrderly w x last (Steps-IsOrderly v w run i)

started-IsOrderly : IsOrderly started
unfolding started Map.find
started-IsOrderly = record {
  ordered = tt;
  fresh = λ j h. absurd (ground arith);
  known = λ j s h. absurd (ground arith);
  bounded = omega arith;
}

AreOrdered-prefix :
    (before : ℕ → Bool) (ps qs : List Packet) → AreOrdered before (ps ++ qs) → AreOrdered before ps
AreOrdered-prefix before [] qs o = tt
AreOrdered-prefix before (p ∷ ps) qs o =
    (o.0, AreOrdered-prefix (λ j. (opens p.type && p.session_id == j) || before j) ps qs o.1)

-- In every run of a server that `create` gave, of what `poll_packet` has returned, in order: a session
-- has one connect packet at most, and its data and disconnect packets come after it, also when
-- packets were dropped; and at most 8192 packets wait. Ids are not used again before 2^32
-- connections.
pub poll_packet-AreOrdered :
    (calls : Listening) (v w : Server)
    → create calls ≡ inr v
    → ServerSteps v w
    → AreOrdered (λ _. false) w.polled × (length w.packet_queue ≤ 8192)
poll_packet-AreOrdered calls v w made run =
    let begun = subst IsOrderly (sym (create-started calls v made)) started-IsOrderly in
    let i = Steps-IsOrderly v w run begun in
    (AreOrdered-prefix (λ _. false) w.polled w.packet_queue i.ordered, i.bounded)
