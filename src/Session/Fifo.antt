-- ===== src/Session/Fifo.antt =====
-- The order in which NightNetwork/src/Session.cpp writes its frames.
pub mod Runs
use mathlib.Core.List.{append-nil, append_assoc}
use project_night.Prelude.{
  ℕ, ◌+◌, ◌-◌, ◌*◌, ◌^◌, ◌<◌, ◌≤◌, ◌≡◌, refl, sym, ◌∙◌, ap, subst, ◌⊎◌, inl, inr, Bool, true, false,
  not, List, [], ◌∷◌, ◌++◌, map, arith, Bool-cases, length, is_empty, leb, ◌==◌, if◌then◌else◌,
}
use project_night.Wire.{Bytes, Decoded, header, unexpected, decode_header, is_keepalive}
use project_night.Pool.{Buffer, BufferPool, release}
use project_night.Frame.{enqueue_frame, build_keepalive_frame}
use project_night.Session.{
  Session, handle_close, do_write, write_front, enqueue_write, header_completed, body_completed,
  write_completed, write_popped, timer_completed, send_keepalive, release_frame,
}
use project_night.Session.Sound.{IsSafe, IsSound}
use project_night.Session.Step.{
  Step, Steps, header_read, body_read, written, timer_fired, frame_posted, close_posted,
  other_thread, none_left, then_step,
}

abbrev pub contents : List Buffer → List Bytes
contents = map (λ b. b.bytes)

-- The frames behind the one that is being written.
abbrev pub behind : ℕ → List Buffer → List Buffer
behind n [] = []
behind n (frame ∷ rest) = if n == 0 then frame ∷ rest else rest

-- All frames that were taken in, in the order in which they are or will be written.
abbrev pub line : Session → List Bytes
line s = s.wire ++ contents (behind s.writes s.write_queue)

pub contents-append : (xs ys : List Buffer) → contents (xs ++ ys) ≡ contents xs ++ contents ys
contents-append [] ys = refl
contents-append (x ∷ xs) ys = ap (◌∷◌ x.bytes) (contents-append xs ys)

-- Closing touches no frame.
pub handle_close-line : (s : Session) → line (handle_close s) ≡ line s
unfolding handle_close
handle_close-line s = ground arith

-- With no write pending, the start of one moves the front of the queue to the wire.
do_write-line : (s : Session) → s.writes ≡ 0 → line (do_write s) ≡ line s
unfolding do_write
do_write-line s quiet = go s.write_queue refl
  where
    go : (frames : List Buffer) → s.write_queue ≡ frames → line (write_front s frames) ≡ line s
    go [] e = refl
    go (frame ∷ rest) e =
        let started : behind (s.writes + 1) s.write_queue ≡ rest = ground arith in
        let waiting : behind s.writes s.write_queue ≡ frame ∷ rest = ground arith in
        ap (λ (b : List Buffer). (s.wire ++ frame.bytes ∷ []) ++ contents b) started
        ∙ append_assoc s.wire (frame.bytes ∷ []) (contents rest)
        ∙ ap (λ (b : List Buffer). s.wire ++ contents b) (sym waiting)

-- The completion of a write takes the frame that it was for, and starts the next.
pub write_completed-line :
    (s : Session) (ok : Bool) → IsSound s → 0 < s.writes → line (write_completed s ok) ≡ line s
unfolding write_completed
write_completed-line s ok v pending = go s.write_queue refl ok
  where
    one : s.writes ≡ 1
    one = omega (arith, v.safe.single, pending)

    all_behind : (frames : List Buffer) → behind 0 frames ≡ frames
    all_behind [] = refl
    all_behind (f ∷ fs) = refl

    go :
        (frames : List Buffer)
        → s.write_queue ≡ frames
        → (ok : Bool) → line (write_popped s ok frames) ≡ line s
    go [] e ok = refl
    go (front ∷ rest) e ok = ends ok
      where
        popped : Session
        popped = record s { pool = release s.pool front; write_queue = rest; writes = s.writes - 1 }

        waiting : behind s.writes s.write_queue ≡ rest
        waiting = ground (arith, one)

        none_now : s.writes - 1 ≡ 0
        none_now = omega (arith, one)

        same : line popped ≡ line s
        same =
            ap (λ (n : ℕ). s.wire ++ contents (behind n rest)) none_now
            ∙ ap (λ (b : List Buffer). s.wire ++ contents b) (all_behind rest ∙ sym waiting)

        ends : (ok : Bool) → line (write_popped s ok (front ∷ rest)) ≡ line s
        ends false = handle_close-line popped ∙ same
        ends true = do_write-line popped none_now ∙ same

pub behind-append :
    (n : ℕ) (q : List Buffer) (frame : Buffer)
    → (0 < n → 0 < length q)
    → behind n (q ++ frame ∷ []) ≡ behind n q ++ frame ∷ []
behind-append n [] frame h = ground arith
behind-append n (f ∷ fs) frame h = ground arith

-- A frame that is taken in stands last.
longer-line :
    (s : Session) (frame : Buffer)
    → IsSafe s
    → line (record s { write_queue = s.write_queue ++ frame ∷ [] }) ≡ line s ++ frame.bytes ∷ []
longer-line s frame v =
    ap (λ (b : List Buffer). s.wire ++ contents b)
      (behind-append s.writes s.write_queue frame v.front)
    ∙ ap (λ (c : List Bytes). s.wire ++ c)
        (contents-append (behind s.writes s.write_queue) (frame ∷ []))
    ∙ sym (append_assoc s.wire (contents (behind s.writes s.write_queue)) (frame.bytes ∷ []))

pub enqueue_write-line :
    (s : Session) (frame : Buffer)
    → IsSound s
    → (line (enqueue_write s frame) ≡ line s)
      ⊎ (line (enqueue_write s frame) ≡ line s ++ frame.bytes ∷ [])
unfolding enqueue_write enqueue_frame
enqueue_write-line s frame v = elim (Bool-cases s.closed) [
  | inl shut ↦ inl (ends (release_frame s frame) (ground arith))
  | inr live ↦ elim (Bool-cases (leb 1024 (length s.write_queue))) [
    | inl many ↦ inl (
        ends (handle_close (release_frame s frame)) (ground arith)
        ∙ handle_close-line (release_frame s frame))
    | inr few ↦
        let longer = record s { write_queue = s.write_queue ++ frame ∷ [] } in
        elim (Bool-cases s.writing) [
          | inl busy ↦ inr (ends longer (ground arith) ∙ longer-line s frame v.safe)
          | inr lazy ↦ inr (
              ends (do_write longer) (ground arith)
              ∙ do_write-line longer (ground (arith, v.awake live))
              ∙ longer-line s frame v.safe)
        ]
  ]
]
  where
    ends : (t : Session) → enqueue_write s frame ≡ t → line (enqueue_write s frame) ≡ line t
    ends t e = ap line e
