-- ===== src/Exchange/Transport/Delivery.antt =====
-- What a client reads of what a session wrote (NightNetwork/src/Session.cpp, NightNetwork/src/Client.cpp).
use project_night.Prelude.{
  true, ℕ, ◌*◌, ◌≤◌, ◌≡◌, refl, sym, ◌∙◌, ap, subst, List, [], ◌∷◌, ◌++◌, map, arith, length,
  length-map,
}
use project_night.Prelude.Within.{Within, nothing, also, without}
use project_night.Wire.{Bytes}
use project_night.Pool.{BufferPool}
use project_night.Pool.Laws.{IsValid}
use project_night.Session.{session, start, Session, read_header}
use project_night.Session.Step.{Steps}
use project_night.Session.Sound.{session-IsSound}
use project_night.Session.Invariant.{idle-IsSound}
use project_night.Session.Fifo.{line, contents, behind}
use project_night.Session.Fifo.Runs.{offered_in, start-Within}
use project_night.Reader.{
  Sent, sent_data, sent_keepalive, frame_of, stream_of, payloads_of, AreSendable, read_stream,
}
use project_night.NetworkClient.{Client}
use project_night.NetworkClient.Stream.{client_reader, Ready, client-Delivers}
use project_night.Exchange.Transport.{PostsPayloads, posted_payloads, units, units-StandsFor}

abbrev pub concat : List Bytes → Bytes
concat [] = []
concat (b ∷ bs) = b ++ concat bs

pub concat_frames : (us : List Sent) → concat (map frame_of us) ≡ stream_of us
concat_frames [] = refl
concat_frames (u ∷ us) = ap (◌++◌ (frame_of u)) (concat_frames us)

-- Some frames of a list of units, from its front on, stand for units of their own.
pub record Front (us : List Sent) (frames : List Bytes) : Type 0 where
  pub chosen : List Sent
  pub chosen_frames : map frame_of chosen ≡ frames
  pub sendable : AreSendable chosen
  pub payloads : Within (payloads_of chosen) (payloads_of us)

skip_unit :
    (u : Sent) (us : List Sent) (frames : List Bytes) → Front us frames → Front (u ∷ us) frames
skip_unit (sent_data pool payload) us frames f = record {
  chosen = f.chosen;
  chosen_frames = f.chosen_frames;
  sendable = f.sendable;
  payloads = without payload (payloads_of f.chosen) (payloads_of us) f.payloads;
}
skip_unit (sent_keepalive pool) us frames f = record {
  chosen = f.chosen;
  chosen_frames = f.chosen_frames;
  sendable = f.sendable;
  payloads = f.payloads;
}

take_unit :
    (u : Sent) (us : List Sent) (frames : List Bytes)
    → AreSendable (u ∷ us)
    → Front us frames
    → Front (u ∷ us) (frame_of u ∷ frames)
take_unit (sent_data pool payload) us frames ok f = record {
  chosen = sent_data pool payload ∷ f.chosen;
  chosen_frames = ap (◌∷◌ (frame_of (sent_data pool payload))) f.chosen_frames;
  sendable = (ok.0, f.sendable);
  payloads = also payload (payloads_of f.chosen) (payloads_of us) f.payloads;
}
take_unit (sent_keepalive pool) us frames ok f = record {
  chosen = sent_keepalive pool ∷ f.chosen;
  chosen_frames = ap (◌∷◌ (frame_of (sent_keepalive pool))) f.chosen_frames;
  sendable = (ok.0, f.sendable);
  payloads = f.payloads;
}

no_frame : (us : List Sent) → Front us []
no_frame [] = record { chosen = []; chosen_frames = refl; sendable = tt; payloads = nothing }
no_frame (u ∷ us) = skip_unit u us [] (no_frame us)

-- By the frames that are within those of the units, of which `xs` are the first.
pub frames-Front :
    (us : List Sent) (frames line xs ys : List Bytes)
    → Within line frames
    → frames ≡ map frame_of us
    → line ≡ xs ++ ys
    → AreSendable us
    → Front us xs
frames-Front us _ _ [] ys w e f ok = no_frame us
frames-Front us _ _ (x ∷ xs) ys nothing e f ok = cc
frames-Front [] _ _ (x ∷ xs) ys (also b ls fs w) e f ok = cc
frames-Front (u ∷ us) _ _ (x ∷ xs) ys (also b ls fs w) e f ok =
    let rest = frames-Front us fs ls xs ys w (cc) (cc) ok.1 in
    subst (λ y. Front (u ∷ us) (y ∷ xs)) (cc) (take_unit u us xs ok rest)
frames-Front [] _ _ (x ∷ xs) ys (without b ls fs w) e f ok = cc
frames-Front (u ∷ us) _ line (x ∷ xs) ys (without b _ fs w) e f ok =
    skip_unit u us (x ∷ xs) (frames-Front us fs line (x ∷ xs) ys w (cc) f ok.1)

-- A client has read all that was written: it waits for the next header, is as ready as before, and
-- what arrived is part of what was posted.
pub record Reached (clock : ℕ → ℕ) (n : ℕ) (c : Client) (stream : Bytes) (posted : List Bytes)
    : Type 0 where
  pub next : Client
  pub read : read_stream client_reader clock n c stream ≡ (next, [])
  pub new : List Bytes
  pub arrived : next.arrived ≡ c.arrived ++ new
  pub from_posted : Within new posted
  pub waiting : next.reading ≡ read_header
  pub ready : Ready next

-- In every run of a session that was constructed and started, where the posted frames are those of
-- payloads of 1 to 2048 bytes: a client that waits for a header, is connected and is not
-- shutting down reads all the bytes that the session gave to its socket, in at most two reads for
-- each frame, and stays connected; what arrives is posted payloads, unchanged and in the order in
-- which they were posted, each at most once; some may be missing, for they were refused, or wait.
pub session-Reached :
    (pool : BufferPool) (now : ℕ) (t : Session) (clock : ℕ → ℕ) (n : ℕ) (c : Client)
    → IsValid pool
    → (run : Steps (start (session pool now)) t)
    → (posts : PostsPayloads (start (session pool now)) t run) → c.reading ≡ read_header
    → Ready c
    → 2 * length t.wire ≤ n
    → Reached clock n c (concat t.wire) (posted_payloads (start (session pool now)) t run posts)
unfolding start client_reader
session-Reached pool now t clock n c valid run posts waits ready enough =
    let s = start (session pool now) in
    let all =
      units-StandsFor s t run posts
        (idle-IsSound (session pool now) read_header now true (session-IsSound pool now valid)) in
    let us = units s t run posts in
    let written : Front us t.wire =
      frames-Front us (offered_in s t run) (line t) t.wire
        (contents (behind t.writes t.write_queue)) (start-Within pool now t valid run)
        (sym all.frames_lem) refl all.sendable in
    let stream : concat t.wire ≡ stream_of written.chosen =
      ap concat (sym written.chosen_frames) ∙ concat_frames written.chosen in
    let count : length t.wire ≡ length written.chosen =
      ap length (sym written.chosen_frames) ∙ length-map written.chosen frame_of in
    let d =
      client-Delivers clock n c written.chosen waits ready written.sendable
        (omega (arith, enough, count)) in
    record {
      next = d.next;
      read = ap (read_stream client_reader clock n c) stream ∙ d.read;
      new = payloads_of written.chosen;
      arrived = d.received;
      from_posted = subst (Within (payloads_of written.chosen)) all.payloads_lem written.payloads;
      waiting = d.waiting;
      ready = d.ready;
    }
