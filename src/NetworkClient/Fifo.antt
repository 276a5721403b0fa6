-- ===== src/NetworkClient/Fifo.antt =====
-- The order in which NightNetwork/src/Client.cpp writes its frames.
use mathlib.Core.List.{append_assoc}
use project_night.Prelude.{
  ℕ, ◌+◌, ◌-◌, ◌*◌, ◌^◌, ◌<◌, ◌≡◌, refl, sym, ◌∙◌, ap, ◌⊎◌, inl, inr, Bool, true, false, not, ◌||◌,
  List, [], ◌∷◌, ◌++◌, arith, Bool-cases, length, leb,
}
use project_night.Wire.{Bytes, Decoded, header, unexpected, decode_header}
use project_night.Pool.{Buffer, release}
use project_night.Frame
use project_night.Frame.{build_keepalive_frame, memcpy}
use project_night.Frame.Laws.{build_keepalive_frame-IsValid}
use project_night.Session.{no_read}
use project_night.Session.Fifo.{contents, behind, contents-append, behind-append}
use project_night.NetworkClient.{
  Client, handle_disconnect, do_write, write_front, enqueue_frame, release_frame, header_completed,
  body_completed, push_packet, begin_shutdown, write_completed, write_popped, timer_completed,
}
use project_night.NetworkClient.Sound.{IsSafe, IsSound, IsWriting, idle-IsSafe, with_pool-IsSafe}

-- All frames that were taken in, in the order in which they are or will be written.
abbrev pub line : Client → List Bytes
line c = c.wire ++ contents (behind c.writes c.write_queue)

handle_disconnect-line : (c : Client) → line (handle_disconnect c) ≡ line c
unfolding handle_disconnect
handle_disconnect-line c = ground arith

-- With no write pending, the start of one moves the front of the queue to the wire.
do_write-line : (c : Client) → c.writes ≡ 0 → line (do_write c) ≡ line c
unfolding do_write
do_write-line c quiet = go c.write_queue refl
  where
    go : (frames : List Buffer) → c.write_queue ≡ frames → line (write_front c frames) ≡ line c
    go [] e = refl
    go (frame ∷ rest) e =
        let started : behind (c.writes + 1) c.write_queue ≡ rest = ground arith in
        let waiting : behind c.writes c.write_queue ≡ frame ∷ rest = ground arith in
        ap (λ (b : List Buffer). (c.wire ++ frame.bytes ∷ []) ++ contents b) started
        ∙ append_assoc c.wire (frame.bytes ∷ []) (contents rest)
        ∙ ap (λ (b : List Buffer). c.wire ++ contents b) (sym waiting)

all_behind : (frames : List Buffer) → behind 0 frames ≡ frames
all_behind [] = refl
all_behind (f ∷ fs) = refl

pub write_completed-line :
    (c : Client) (ok : Bool) → IsSound c → 0 < c.writes → line (write_completed c ok) ≡ line c
unfolding write_completed
write_completed-line c ok v pending = go c.write_queue refl
  where
    one : c.writes ≡ 1
    one = omega (arith, v.safe.single, pending)

    go : (frames : List Buffer) → c.write_queue ≡ frames → line (write_popped c ok frames) ≡ line c
    go [] e = refl
    go (front ∷ rest) e = elim (Bool-cases (not ok || c.shutting_down)) [
      | inl ends ↦ rw ends (handle_disconnect-line popped ∙ same)
      | inr goes ↦ rw goes (do_write-line popped none_now ∙ same)
    ]
      where
        popped : Client
        popped = record c { pool = release c.pool front; write_queue = rest; writes = c.writes - 1 }

        waiting : behind c.writes c.write_queue ≡ rest
        waiting = ground (arith, one)

        none_now : c.writes - 1 ≡ 0
        none_now = omega (arith, one)

        same : line popped ≡ line c
        same =
            ap (λ (n : ℕ). c.wire ++ contents (behind n rest)) none_now
            ∙ ap (λ (b : List Buffer). c.wire ++ contents b) (all_behind rest ∙ sym waiting)

longer-line :
    (c : Client) (frame : Buffer)
    → IsSafe c
    → line (record c { write_queue = c.write_queue ++ frame ∷ [] }) ≡ line c ++ frame.bytes ∷ []
longer-line c frame v =
    ap (λ (b : List Buffer). c.wire ++ contents b)
      (behind-append c.writes c.write_queue frame v.front)
    ∙ ap (λ (l : List Bytes). c.wire ++ l)
        (contents-append (behind c.writes c.write_queue) (frame ∷ []))
    ∙ sym (append_assoc c.wire (contents (behind c.writes c.write_queue)) (frame.bytes ∷ []))

-- A frame is refused, or stands last.
pub enqueue_frame-line :
    (c : Client) (frame : Buffer)
    → IsWriting c
    → (line (enqueue_frame c frame) ≡ line c)
      ⊎ (line (enqueue_frame c frame) ≡ line c ++ frame.bytes ∷ [])
unfolding enqueue_frame Frame.enqueue_frame
enqueue_frame-line c frame v = elim (Bool-cases (c.shutting_down || not c.connected)) [
  | inl shut ↦ inl (ap line (released shut))
  | inr live ↦ elim (Bool-cases (leb 1024 (length c.write_queue))) [
    | inl many ↦ inl (
        ends (handle_disconnect (release_frame c frame)) (ground arith)
        ∙ handle_disconnect-line (release_frame c frame))
    | inr few ↦
        let longer = record c { write_queue = c.write_queue ++ frame ∷ [] } in
        elim (Bool-cases c.writing) [
          | inl busy ↦ inr (ends longer (ground arith) ∙ longer-line c frame v.safe)
          | inr lazy ↦ inr (
              ends (do_write longer) (ground arith)
              ∙ do_write-line longer (ground (arith, v.awake (ground arith)))
              ∙ longer-line c frame v.safe)
        ]
  ]
]
  where
    ends : (d : Client) → enqueue_frame c frame ≡ d → line (enqueue_frame c frame) ≡ line d
    ends d e = ap line e

    released :
        (c.shutting_down || not c.connected) ≡ true → enqueue_frame c frame ≡ release_frame c frame
    released shut = ground arith

pub header_completed-line :
    (c : Client) (ok : Bool) (bytes : Bytes) (now : ℕ)
    → line (header_completed c ok bytes now) ≡ line c
unfolding header_completed
header_completed-line c ok bytes now = elim (Bool-cases (not ok || c.shutting_down)) [
  | inl ends ↦ rw ends (handle_disconnect-line (record c { reading = no_read }))
  | inr goes ↦ go goes (decode_header bytes) refl
]
  where
    go :
        (not ok || c.shutting_down) ≡ false
        → (d : Decoded) → decode_header bytes ≡ d
        → line (header_completed c ok bytes now) ≡ line c
    go goes (unexpected error) e =
        ground (arith, handle_disconnect-line (record c { reading = no_read }))
    go goes (header h) e = ground arith

pub body_completed-line :
    (c : Client) (ok : Bool) (body : Bytes) (meanwhile : Bool)
    → line (body_completed c ok body meanwhile) ≡ line c
unfolding body_completed begin_shutdown push_packet
body_completed-line c ok body meanwhile = ground arith

pub timer_completed-line :
    (c : Client) (now : ℕ)
    → IsSound c
    → (line (timer_completed c true now) ≡ line c)
      ⊎ (line (timer_completed c true now) ≡ line c ++ (build_keepalive_frame c.pool).0.bytes ∷ [])
unfolding timer_completed
timer_completed-line c now v =
    let done = record c { timer = false } in
    let (frame, pool) = build_keepalive_frame c.pool in
    elim (Bool-cases (leb (15 * 10 ^ 9) (now - c.last_activity))) [
      | inl late ↦ rw late (inl (handle_disconnect-line done))
      | inr alive ↦ rw alive (
          enqueue_frame-line (record done { pool = pool }) frame
            (record {
              safe =
                  with_pool-IsSafe done pool (build_keepalive_frame-IsValid c.pool v.safe.pool)
                    (idle-IsSafe c c.reading c.last_activity false v.safe);
              awake = v.awake;
            }))
    ]
