-- ===== src/Exchange/Transport/Arrival.antt =====
-- What a session reads of what a client wrote (NightNetwork/src/Client.cpp, NightNetwork/src/Session.cpp).
use mathlib.Core.List.{append-nil, append_assoc, map-append}
use project_night.Prelude.{
  ℕ, ◌≡◌, refl, sym, ◌∙◌, ap, subst, ◌⊎◌, inl, inr, true, List, [], ◌∷◌, ◌++◌, map,
}
use project_night.Prelude.Within.{Within, Within-less}
use project_night.Wire.{Bytes}
use project_night.Reader.{Sent, sent_data, sent_keepalive, frame_of, payloads_of, AreSendable}
use project_night.NetworkClient.{Client, Task, timer_completed}
use project_night.NetworkClient.Sound.{IsSound}
use project_night.NetworkClient.Fifo.{line, timer_completed-line}
use project_night.Exchange.Transport.{AreSendable-append, payloads_of-append}
use project_night.Exchange.Transport.Upstream.{frames_in, InTransit, same_transit}

-- A unit is in front of others.
payloads_in_front :
    (us : List Sent) (w : Sent) (ws : List Sent)
    → payloads_of (us ++ w ∷ []) ++ payloads_of ws ≡ payloads_of us ++ payloads_of (w ∷ ws)
payloads_in_front us w ws =
    ap (λ (l : List Bytes). l ++ payloads_of ws) (payloads_of-append us (w ∷ []))
    ∙ append_assoc (payloads_of us) (payloads_of (w ∷ [])) (payloads_of ws)
    ∙ ap (◌++◌ (payloads_of us)) (sym (payloads_of-append (w ∷ []) ws))

less_payloads :
    (us : List Sent) (w : Sent) (ws : List Sent) (payloads : List Bytes)
    → Within (payloads_of us ++ payloads_of (w ∷ ws)) payloads
    → Within (payloads_of us ++ payloads_of ws) payloads
less_payloads us (sent_data pool payload) ws payloads w =
    Within-less (payloads_of us) (payloads_of ws) payload _ payloads refl w
less_payloads us (sent_keepalive pool) ws payloads w = w

-- The frame at the front of the tasks is dropped, or taken in.
pub front_transit :
    (c d : Client) (bytes : Bytes) (rest : List Task) (payloads : List Bytes)
    (t : InTransit c payloads)
    → frames_in c.posted ≡ bytes ∷ frames_in rest
    → d.posted ≡ rest
    → (line d ≡ line c) ⊎ (line d ≡ line c ++ bytes ∷ [])
    → InTransit d payloads
front_transit c d bytes rest payloads t front left grown = go t.waiting refl
  where
    go : (ws : List Sent) → t.waiting ≡ ws → InTransit d payloads
    go [] e =
        let none_there : [] ≡ bytes ∷ frames_in rest =
          ap (map frame_of) (sym e) ∙ t.in_tasks ∙ front in
        absurd (cc none_there)
    go (w ∷ ws) e =
        let tasks : frame_of w ∷ map frame_of ws ≡ bytes ∷ frames_in rest =
          ap (map frame_of) (sym e) ∙ t.in_tasks ∙ front in
        let ok : AreSendable (w ∷ ws) = subst AreSendable e t.waiting_ok in
        let order : Within (payloads_of t.units ++ payloads_of (w ∷ ws)) payloads =
          subst (λ l. Within (payloads_of t.units ++ payloads_of l) payloads) e t.order in
        elim grown [
          | inl same ↦ record {
            units = t.units;
            in_line = t.in_line ∙ sym same;
            sendable = t.sendable;
            waiting = ws;
            in_tasks = cc (tasks, ap frames_in left);
            waiting_ok = ok.1;
            order = less_payloads t.units w ws payloads order;
          }
          | inr more ↦ record {
            units = t.units ++ w ∷ [];
            in_line =
                map-append frame_of t.units (w ∷ [])
                ∙ ap (λ (l : List Bytes). l ++ frame_of w ∷ []) t.in_line
                ∙ ap (λ (b : Bytes). line c ++ b ∷ []) (cc tasks)
                ∙ sym more;
            sendable = AreSendable-append t.units (w ∷ []) t.sendable (ok.0, tt);
            waiting = ws;
            in_tasks = cc (tasks, ap frames_in left);
            waiting_ok = ok.1;
            order = subst (λ l. Within l payloads) (sym (payloads_in_front t.units w ws)) order;
          }
        ]

pub timer_transit :
    (c : Client) (now : ℕ) (payloads : List Bytes)
    → IsSound c
    → (timer_completed c true now).posted ≡ c.posted
    → InTransit c payloads
    → InTransit (timer_completed c true now) payloads
timer_transit c now payloads v kept t = elim (timer_completed-line c now v) [
  | inl same ↦ same_transit c _ payloads same (ap frames_in kept) t
  | inr more ↦
      let unit = sent_keepalive c.pool in
      record {
        units = t.units ++ unit ∷ [];
        in_line =
            map-append frame_of t.units (unit ∷ [])
            ∙ ap (λ (l : List Bytes). l ++ frame_of unit ∷ []) t.in_line
            ∙ sym more;
        sendable = AreSendable-append t.units (unit ∷ []) t.sendable (v.safe.pool, tt);
        waiting = t.waiting;
        in_tasks = t.in_tasks ∙ ap frames_in (sym kept);
        waiting_ok = t.waiting_ok;
        order =
            subst (λ l. Within (l ++ payloads_of t.waiting) payloads)
              (sym (payloads_of-append t.units (unit ∷ []) ∙ append-nil (payloads_of t.units)))
              t.order;
      }
]
