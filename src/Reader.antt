-- ===== src/Reader.antt =====
-- What the two sides of the transport have in common when they read: NightNetwork/src/Session.cpp and
-- NightNetwork/src/Client.cpp wait for a header, then for a body of the size in it. The interface
-- is what each promises of its two handlers; the stream of frames is read over it.
use mathlib.Core.List.{append-nil, append_assoc}
use project_night.Prelude.{
  ℕ, suc, zero, ◌*◌, ◌<◌, ◌≤◌, ◌≡◌, refl, sym, ◌∙◌, ap, true, false, List, [], ◌∷◌, ◌++◌, arith,
  length, length-append, take-append, drop-append, take, drop, ltb,
}
use project_night.Wire.{Bytes}
use project_night.Wire.Decode.{header_bytes}
use project_night.Pool.{BufferPool}
use project_night.Pool.Laws.{IsValid}
use project_night.Frame.{build_data_frame, build_keepalive_frame}
use project_night.Frame.Laws.{data_frame-bytes, build_keepalive_frame_lem}
use project_night.Session.{Reading, no_read, read_header, read_body}

-- A reader with the handlers of its two reads, for what was read without an error.
pub record Reader (S : Type 0) : Type 0 where
  pub reading : S → Reading
  pub received : S → List Bytes
  pub header_done : S → Bytes → ℕ → S
  pub body_done : S → Bytes → S

module _ {S : Type 0} (r : Reader S) where
  open r use {reading, received, header_done, body_done}

  -- From one state to another, the reader waits for something else and has passed on some payloads.
  pub record Next (s t : S) (wanted : Reading) (new : List Bytes) : Type 0 where
    pub now_reading : reading t ≡ wanted
    pub now_received : received t ≡ received s ++ new

  -- What a reader does with the three kinds of input that frames are made of.
  pub record ReadsFrames (Ready : S → Type 0) : Type 0 where
    pub on_keepalive :
        (s : S) (now : ℕ)
        → Ready s
        → Next s (header_done s (header_bytes 1 0) now) read_header []
          × Ready (header_done s (header_bytes 1 0) now)
    pub on_header :
        (s : S) (size now : ℕ)
        → Ready s
        → 0 < size
        → size ≤ 2048
        → Next s (header_done s (header_bytes 0 size) now) (read_body size) []
          × Ready (header_done s (header_bytes 0 size) now)
    pub on_body :
        (s : S) (body : Bytes)
        → Ready s
        → length body ≤ 2048
        → Next s (body_done s body) read_header (body ∷ []) × Ready (body_done s body)

  -- The reads completed from a stream, each with the bytes that it asks for, as long as they are
  -- there; the clock is read before each. `n` bounds the number of reads.
  unfoldable pub read_stream : (ℕ → ℕ) → ℕ → S → Bytes → S × Bytes
  read_stream clock zero s stream = (s, stream)
  read_stream clock (suc n) s stream = elim (reading s) [
    | no_read ↦ (s, stream)
    | read_header ↦ elim (ltb (length stream) 8) [
      | true ↦ (s, stream)
      | false ↦ read_stream clock n (header_done s (take 8 stream) (clock n)) (drop 8 stream)
    ]
    | read_body size ↦ elim (ltb (length stream) size) [
      | true ↦ (s, stream)
      | false ↦ read_stream clock n (body_done s (take size stream)) (drop size stream)
    ]
  ]

-- What the other side sends: payloads and keepalives, each frame from the pool of some thread.
pub data Sent : Type 0 where
  sent_data : (pool : BufferPool) (payload : Bytes) → Sent
  sent_keepalive : (pool : BufferPool) → Sent

abbrev pub frame_of : Sent → Bytes
frame_of (sent_data pool payload) = (build_data_frame pool payload).0.bytes
frame_of (sent_keepalive pool) = (build_keepalive_frame pool).0.bytes

abbrev pub stream_of : List Sent → Bytes
stream_of [] = []
stream_of (unit ∷ rest) = frame_of unit ++ stream_of rest

abbrev pub payloads_of : List Sent → List Bytes
payloads_of [] = []
payloads_of (sent_data pool payload ∷ rest) = payload ∷ payloads_of rest
payloads_of (sent_keepalive pool ∷ rest) = payloads_of rest

-- A payload that the sending functions take, and pools as their threads keep them.
abbrev pub IsSendable : Sent → Type 0
IsSendable (sent_data pool payload) = IsValid pool × (0 < length payload) × (length payload ≤ 2048)
IsSendable (sent_keepalive pool) = IsValid pool

abbrev pub AreSendable : List Sent → Type 0
AreSendable [] = Unit
AreSendable (unit ∷ rest) = IsSendable unit × AreSendable rest

module _ {S : Type 0} (r : Reader S) (Ready : S → Type 0) (laws : ReadsFrames r Ready)
    (clock : ℕ → ℕ) where
  -- A reader after some payloads: it waits for the next frame, and they were all passed on.
  pub record Delivers (n : ℕ) (s : S) (units : List Sent) : Type 0 where
    pub next : S
    pub read : read_stream r clock n s (stream_of units) ≡ (next, [])
    pub received : r.received next ≡ r.received s ++ payloads_of units
    pub waiting : r.reading next ≡ read_header
    pub ready : Ready next

  next_header :
      (n : ℕ) (s : S) (flags size : ℕ) (rest : Bytes)
      → r.reading s ≡ read_header
      → read_stream r clock (suc n) s (header_bytes flags size ++ rest)
        ≡ read_stream r clock n (r.header_done s (header_bytes flags size) (clock n)) rest
  unfolding read_stream
  next_header n s flags size rest e = ground arith

  next_body :
      (n : ℕ) (s : S) (body rest : Bytes)
      → r.reading s ≡ read_body (length body)
      → read_stream r clock (suc n) s (body ++ rest)
        ≡ read_stream r clock n (r.body_done s body) rest
  unfolding read_stream
  next_body n s body rest e =
      ground (arith, length-append body rest, take-append body rest, drop-append body rest)

  -- The reader passes on the payloads of a stream of frames, each once, unchanged and in order, and
  -- reads all of it; two reads for each frame are enough.
  pub read_stream-Delivers :
      (n : ℕ) (s : S) (units : List Sent)
      → r.reading s ≡ read_header
      → Ready s
      → AreSendable units
      → 2 * length units ≤ n
      → Delivers n s units
  unfolding read_stream
  read_stream-Delivers n s [] e ready ok enough = record {
    next = s;
    read = idle n;
    received = sym (append-nil (r.received s));
    waiting = e;
    ready = ready;
  }
    where
      idle : (n : ℕ) → read_stream r clock n s [] ≡ (s, [])
      idle zero = refl
      idle (suc n) = ground arith
  read_stream-Delivers (suc (suc n)) s (sent_data pool payload ∷ units) e ready ok enough =
      let cut : stream_of (sent_data pool payload ∷ units)
          ≡ header_bytes 0 (length payload) ++ (payload ++ stream_of units) =
        ap (λ (b : Bytes). b ++ stream_of units)
          (data_frame-bytes pool payload ok.0.0 ok.0.1 ok.0.2) in
      let s1 = r.header_done s (header_bytes 0 (length payload)) (clock (suc n)) in
      let first = laws.on_header s (length payload) (clock (suc n)) ready ok.0.1 ok.0.2 in
      let second = laws.on_body s1 payload first.1 ok.0.2 in
      let rest =
        read_stream-Delivers n (r.body_done s1 payload) units second.0.now_reading second.1 ok.1
          (omega (arith, enough)) in
      record {
        next = rest.next;
        read =
            ap (λ (b : Bytes). read_stream r clock (suc (suc n)) s b) cut
            ∙ next_header (suc n) s 0 (length payload) (payload ++ stream_of units) e
            ∙ next_body n s1 payload (stream_of units) first.0.now_reading
            ∙ rest.read;
        received =
            rest.received
            ∙ ap (λ (l : List Bytes). l ++ payloads_of units)
                (second.0.now_received
                  ∙ ap (λ (l : List Bytes). l ++ payload ∷ [])
                      (first.0.now_received ∙ append-nil (r.received s)))
            ∙ append_assoc (r.received s) (payload ∷ []) (payloads_of units);
        waiting = rest.waiting;
        ready = rest.ready;
      }
  read_stream-Delivers (suc n) s (sent_keepalive pool ∷ units) e ready ok enough =
      let first = laws.on_keepalive s (clock n) ready in
      let rest =
        read_stream-Delivers n (r.header_done s (header_bytes 1 0) (clock n)) units
          first.0.now_reading first.1 ok.1 (omega (arith, enough)) in
      record {
        next = rest.next;
        read =
            ap (λ (b : Bytes). read_stream r clock (suc n) s (b ++ stream_of units))
              (build_keepalive_frame_lem pool ok.0).0
            ∙ next_header n s 1 0 (stream_of units) e
            ∙ rest.read;
        received =
            rest.received
            ∙ ap (λ (l : List Bytes). l ++ payloads_of units)
                (first.0.now_received ∙ append-nil (r.received s));
        waiting = rest.waiting;
        ready = rest.ready;
      }
  read_stream-Delivers zero s (unit ∷ units) e ready ok enough = absurd (omega (arith, enough))
  read_stream-Delivers (suc zero) s (unit ∷ units) e ready ok enough =
      absurd (omega (arith, enough))
