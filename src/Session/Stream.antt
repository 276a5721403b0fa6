-- ===== src/Session/Stream.antt =====
-- The reading side of NightNetwork/src/Session.cpp on a stream of bytes: which payloads come out.
use mathlib.Core.List.{append-nil}
use project_night.Prelude.{
  ℕ, ◌*◌, ◌<◌, ◌≤◌, ◌≡◌, refl, ◌∙◌, ap, Bool, true, List, [], ◌∷◌, ◌++◌, arith, length, replicate,
  length-replicate, inl, inr,
}
use project_night.Wire.{Bytes, header, decode_header, is_keepalive}
use project_night.Wire.Decode.{header_bytes, built, check_complete, decode-header_bytes}
use project_night.Pool.{Buffer, BufferPool, acquire}
use project_night.Pool.Laws.{IsValid, acquire_lem, acquire-IsValid}
use project_night.Frame.{memcpy}
use project_night.Frame.Laws.{memcpy-end}
use project_night.Session.{Session, read_header, header_completed, body_completed}
use project_night.Reader.{
  Reader, ReadsFrames, Sent, stream_of, payloads_of, AreSendable, read_stream, read_stream-Delivers,
}

pub decode-keepalive : decode_header (header_bytes 1 0) ≡ header (built 1 0)
decode-keepalive =
    decode-header_bytes 1 0 [] (omega arith)
    ∙ check_complete (built 1 0) refl refl (inr (refl, refl))

pub decode-data :
    (size : ℕ)
    → 0 < size
    → size ≤ 2048
    → decode_header (header_bytes 0 size) ≡ header (built 0 size)
decode-data size some_bytes fits =
    decode-header_bytes 0 size [] (omega arith)
    ∙ check_complete (built 0 size) refl refl (inl (refl, some_bytes, fits))

-- The copy of a body into a block of a valid pool is that body.
pub copied_body :
    (pool : BufferPool) (body : Bytes)
    → IsValid pool
    → length body ≤ 2048
    → memcpy (acquire pool (length body)).0.bytes 0 body (length body) ≡ body
copied_body pool body v fits = elim (acquire_lem pool (length body) v) [
  | inl (_, clean) ↦
      ap (λ (b : Buffer). memcpy b.bytes 0 body (length body)) clean
      ∙ memcpy-end [] (replicate (length body) 0) body (length-replicate {A = ℕ} (length body) 0)
  | inr (big, _) ↦ absurd (omega (arith, big))
]

-- A session as a reader.
unfoldable pub session_reader : Reader Session
unfolding header_completed body_completed
session_reader = record {
  reading = λ s. s.reading;
  received = λ s. s.received;
  header_done = λ s bytes now. header_completed s true bytes now;
  body_done = λ s body. body_completed s true body;
}

-- Its pool is valid, and it is as open as it was.
abbrev Ready : Bool → Session → Type 0
Ready closed s = IsValid s.pool × (s.closed ≡ closed)

session-ReadsFrames : (closed : Bool) → ReadsFrames session_reader (Ready closed)
unfolding session_reader header_completed body_completed is_keepalive
session-ReadsFrames closed = record {
  on_keepalive = λ s now ready. (
    record {
      now_reading = ground (arith, decode-keepalive);
      now_received = ground (arith, decode-keepalive, append-nil s.received);
    },
    (ground (arith, decode-keepalive, ready.0), ground (arith, decode-keepalive, ready.1)),
  );
  on_header = λ s size now ready some_bytes fits. (
    record {
      now_reading = ground (arith, decode-data size);
      now_received = ground (arith, decode-data size, append-nil s.received);
    },
    (ground (arith, decode-data size, ready.0), ground (arith, decode-data size, ready.1)),
  );
  on_body = λ s body ready fits. (
    record {
      now_reading = refl;
      now_received =
          ap (λ (b : Bytes). s.received ++ b ∷ []) (copied_body s.pool body ready.0 fits);
    },
    (acquire-IsValid s.pool (length body) ready.0, ready.1),
  );
}

-- A session after some payloads: it waits for the next frame, and they were all passed on.
pub record Delivered (clock : ℕ → ℕ) (n : ℕ) (s : Session) (units : List Sent) : Type 0 where
  pub next : Session
  pub read : read_stream session_reader clock n s (stream_of units) ≡ (next, [])
  pub received : next.received ≡ s.received ++ payloads_of units
  pub waiting : next.reading ≡ read_header
  pub still : next.closed ≡ s.closed

-- From the stream of frames that the other side built for payloads of 1 to 2048 bytes and for
-- keepalives, a session that waits for a header passes on the payloads, each once, unchanged and in
-- order, drops the keepalives, leaves no byte unread, does not close, and waits for the next
-- header. Two reads for each frame are enough. The pools on both sides are valid.
pub read_stream-Delivered :
    (clock : ℕ → ℕ) (n : ℕ) (s : Session) (units : List Sent)
    → s.reading ≡ read_header
    → IsValid s.pool
    → AreSendable units
    → 2 * length units ≤ n
    → Delivered clock n s units
unfolding session_reader
read_stream-Delivered clock n s units e v ok enough =
    let all =
      read_stream-Delivers session_reader (Ready s.closed) (session-ReadsFrames s.closed) clock n s
        units e (v, refl) ok enough in
    record {
      next = all.next;
      read = all.read;
      received = all.received;
      waiting = all.waiting;
      still = all.ready.1;
    }
