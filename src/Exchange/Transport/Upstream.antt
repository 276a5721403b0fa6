-- ===== src/Exchange/Transport/Upstream.antt =====
-- From `Client::send` of NightNetwork/src/Client.cpp to what its I/O thread writes.
use mathlib.Core.List.{append_assoc, map-append}
use project_night.Prelude.{
  ◌<◌, ◌≤◌, ◌≡◌, refl, sym, ◌∙◌, ap, subst, ◌⊎◌, ◌||◌, not, inl, inr, false, List, [], ◌∷◌, ◌++◌,
  map, arith, Bool-cases, length, is_empty, ltb,
}
use project_night.Prelude.Within.{Within, Within-all, Within-append, Within-last}
use project_night.Wire.{Bytes}
use project_night.Pool.{BufferPool}
use project_night.Pool.Laws.{IsValid}
use project_night.Frame.{build_data_frame}
use project_night.Reader.{Sent, sent_data, frame_of, payloads_of, AreSendable}
use project_night.NetworkClient.{Client, Task, send_frame, close_connection, send}
use project_night.NetworkClient.Step.{
  Step, Steps, header_read, body_read, written, timer_fired, timer_cancelled, task_run, sent,
  polled, shutdown_begun, shutdown_ended, none_left, then_step,
}
use project_night.NetworkClient.Fifo.{line}
use project_night.Exchange.Transport.{AreSendable-append, payloads_of-append}

-- The payloads that a run gives to `send`, in order.
abbrev pub payloads_in_step : (c d : Client) → Step c d → List Bytes
payloads_in_step _ _ (header_read c ok bytes now runs reading sized) = []
payloads_in_step _ _ (body_read c ok size body meanwhile runs reading sized) = []
payloads_in_step _ _ (written c ok runs pending) = []
payloads_in_step _ _ (timer_fired c now runs armed) = []
payloads_in_step _ _ (timer_cancelled c now runs armed gone) = []
payloads_in_step _ _ (task_run c runs) = []
payloads_in_step _ _ (sent c pool payload valid) = payload ∷ []
payloads_in_step _ _ (polled c) = []
payloads_in_step _ _ (shutdown_begun c) = []
payloads_in_step _ _ (shutdown_ended c down done) = []

abbrev pub payloads_in : (c d : Client) → Steps c d → List Bytes
payloads_in _ _ (none_left c) = []
payloads_in _ _ (then_step c d e run last) = payloads_in c d run ++ payloads_in_step d e last

-- The frames of the tasks that wait.
abbrev pub frames_in : List Task → List Bytes
frames_in [] = []
frames_in (send_frame frame ∷ tasks) = frame.bytes ∷ frames_in tasks
frames_in (close_connection ∷ tasks) = frames_in tasks

-- What is on its way: the units whose frames were taken in, and those whose tasks wait.
pub record InTransit (c : Client) (payloads : List Bytes) : Type 0 where
  pub units : List Sent
  pub in_line : map frame_of units ≡ line c
  pub sendable : AreSendable units
  pub waiting : List Sent
  pub in_tasks : map frame_of waiting ≡ frames_in c.posted
  pub waiting_ok : AreSendable waiting
  pub order : Within (payloads_of units ++ payloads_of waiting) payloads

pub same_transit :
    (c d : Client) (payloads : List Bytes)
    → line d ≡ line c
    → frames_in d.posted ≡ frames_in c.posted
    → InTransit c payloads
    → InTransit d payloads
same_transit c d payloads e f t = record {
  units = t.units;
  in_line = t.in_line ∙ sym e;
  sendable = t.sendable;
  waiting = t.waiting;
  in_tasks = t.in_tasks ∙ sym f;
  waiting_ok = t.waiting_ok;
  order = t.order;
}

pub frames_in-append : (xs ys : List Task) → frames_in (xs ++ ys) ≡ frames_in xs ++ frames_in ys
frames_in-append [] ys = refl
frames_in-append (send_frame frame ∷ xs) ys = ap (◌∷◌ frame.bytes) (frames_in-append xs ys)
frames_in-append (close_connection ∷ xs) ys = frames_in-append xs ys

-- A payload is refused, or its frame is posted.
send-cases :
    (c : Client) (pool : BufferPool) (payload : Bytes)
    → ((send c pool payload).0 ≡ c)
      ⊎ ((0 < length payload)
          × (length payload ≤ 2048)
          × ((send c pool payload).0 ≡ record c {
            posted = c.posted ++ send_frame (build_data_frame pool payload).0 ∷ [];
          }))
unfolding send
send-cases c pool payload = elim (Bool-cases (is_empty payload || ltb 2048 (length payload))) [
  | inl refused ↦ inl (ground arith)
  | inr taken ↦
      elim (Bool-cases
        (not c.connected || c.shutting_down || is_empty (build_data_frame pool payload).0.bytes)) [
          | inl off ↦ inl (ground arith)
          | inr on ↦ inr (some_bytes payload (ground arith), ground arith, ground arith)
        ]
]
  where
    some_bytes : (payload : Bytes) → is_empty payload ≡ false → 0 < length payload
    some_bytes [] e = cc
    some_bytes (b ∷ bs) e = omega arith

pub sent_transit :
    (c : Client) (pool : BufferPool) (payload : Bytes) (payloads : List Bytes)
    → IsValid pool
    → InTransit c payloads
    → InTransit (send c pool payload).0 (payloads ++ payload ∷ [])
sent_transit c pool payload payloads valid t = elim (send-cases c pool payload) [
  | inl same ↦
      subst (λ d. InTransit d (payloads ++ payload ∷ [])) (sym same)
        (record {
          units = t.units;
          in_line = t.in_line;
          sendable = t.sendable;
          waiting = t.waiting;
          in_tasks = t.in_tasks;
          waiting_ok = t.waiting_ok;
          order =
              Within-last (payloads_of t.units ++ payloads_of t.waiting) payloads payload t.order;
        })
  | inr (some_bytes, fits, posted) ↦
      let unit = sent_data pool payload in
      let frame = (build_data_frame pool payload).0 in
      subst (λ d. InTransit d (payloads ++ payload ∷ [])) (sym posted)
        (record {
          units = t.units;
          in_line = t.in_line;
          sendable = t.sendable;
          waiting = t.waiting ++ unit ∷ [];
          in_tasks =
              map-append frame_of t.waiting (unit ∷ [])
              ∙ ap (λ (l : List Bytes). l ++ frame.bytes ∷ []) t.in_tasks
              ∙ sym (frames_in-append c.posted (send_frame frame ∷ []));
          waiting_ok =
              AreSendable-append t.waiting (unit ∷ []) t.waiting_ok ((valid, some_bytes, fits), tt);
          order =
              subst (λ l. Within l (payloads ++ payload ∷ []))
                (append_assoc (payloads_of t.units) (payloads_of t.waiting) (payload ∷ [])
                  ∙ ap (◌++◌ (payloads_of t.units))
                      (sym (payloads_of-append t.waiting (unit ∷ []))))
                (Within-append (payloads_of t.units ++ payloads_of t.waiting) payloads
                  (payload ∷ []) (payload ∷ []) t.order (Within-all (payload ∷ [])));
        })
]
