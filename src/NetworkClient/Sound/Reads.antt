-- ===== src/NetworkClient/Sound/Reads.antt =====
-- The reading handlers of NightNetwork/src/Client.cpp keep its invariant.
use project_night.Prelude.{
  ℕ, ◌≡◌, refl, sym, subst, inl, inr, Bool, true, false, not, ◌||◌, [], ◌∷◌, ◌++◌, arith,
  Bool-cases, length, length-append, ltb,
}
use project_night.Wire.{Bytes, Decoded, header, unexpected, decode_header, is_keepalive}
use project_night.Pool.{acquire}
use project_night.Pool.Laws.{acquire-IsValid}
use project_night.Frame.{memcpy}
use project_night.Session.{Reading, no_read, read_header, read_body}
use project_night.NetworkClient.{
  Client, close_connection, handle_disconnect, header_completed, push_packet, body_completed,
  begin_shutdown,
}
use project_night.NetworkClient.Sound.{
  IsSound, is_pending, handle_disconnect-IsSound, idle-IsSafe, with_pool-IsSound,
}

-- A read that is pending again.
pub reading-IsSound :
    (c : Client) (reading : Reading) (last_activity : ℕ)
    → is_pending reading ≡ true
    → IsSound c
    → IsSound (record c { reading = reading; last_activity = last_activity })
reading-IsSound c reading last_activity pending v = record {
  safe = idle-IsSafe c reading last_activity c.timer v.safe;
  awake = v.awake;
  beating = v.beating;
  watching = λ on up. pending;
}

pub header_completed-IsSound :
    (c : Client) (ok : Bool) (bytes : Bytes) (now : ℕ)
    → IsSound c
    → IsSound (header_completed c ok bytes now)
unfolding header_completed
header_completed-IsSound c ok bytes now v = elim (Bool-cases (not ok || c.shutting_down)) [
  | inl ends ↦ rw (ends, header_completed) closed
  | inr goes ↦ go goes (decode_header bytes) refl
]
  where
    closed : IsSound (handle_disconnect (record c { reading = no_read }))
    closed =
        handle_disconnect-IsSound (record c { reading = no_read })
          (idle-IsSafe c no_read c.last_activity c.timer v.safe)

    ends :
        (d : Client)
        → header_completed c ok bytes now ≡ d
        → IsSound d
        → IsSound (header_completed c ok bytes now)
    ends d e sound = subst IsSound (sym e) sound

    go :
        (not ok || c.shutting_down) ≡ false
        → (d : Decoded) → decode_header bytes ≡ d
        → IsSound (header_completed c ok bytes now)
    go goes (unexpected error) e =
        ends (handle_disconnect (record c { reading = no_read })) (ground arith) closed
    go goes (header h) e = elim (Bool-cases (is_keepalive h)) [
      | inl beat ↦
          ends (record c { reading = read_header; last_activity = now }) (ground arith)
            (reading-IsSound c read_header now refl v)
      | inr content ↦
          ends (record c { reading = read_body h.payload_size; last_activity = now }) (ground arith)
            (reading-IsSound c (read_body h.payload_size) now refl v)
    ]

push_packet-IsSound : (c : Client) (packet : Bytes) → IsSound c → IsSound (push_packet c packet)
unfolding push_packet
push_packet-IsSound c packet v = elim (Bool-cases (ltb (length c.receive_queue) 4096)) [
  | inl room ↦
      let n = length-append c.receive_queue (packet ∷ []) in
      rw room (record {
        safe = record {
          pool = v.safe.pool;
          bounded = v.safe.bounded;
          received = ground (arith, n);
          single = v.safe.single;
          front = v.safe.front;
          open_lem = v.safe.open_lem;
        };
        awake = v.awake;
        beating = v.beating;
        watching = v.watching;
      })
  | inr full ↦ rw full (record {
    safe = record {
      pool = v.safe.pool;
      bounded = v.safe.bounded;
      received = v.safe.received;
      single = v.safe.single;
      front = v.safe.front;
      open_lem = v.safe.open_lem;
    };
    awake = v.awake;
    beating = v.beating;
    watching = v.watching;
  })
]

-- From the beginning of the shutdown on, a read need not be pending.
pub begin_shutdown-IsSound :
    (c : Client) (reading : Reading)
    → IsSound c
    → c.shutting_down ≡ false
    → IsSound (begin_shutdown (record c { reading = reading }))
unfolding begin_shutdown
begin_shutdown-IsSound c reading v up =
    let d = record c {
      reading = reading;
      shutting_down = true;
      posted = c.posted ++ close_connection ∷ [];
    } in
    let sound : IsSound d = record {
      safe = record {
        pool = v.safe.pool;
        bounded = v.safe.bounded;
        received = v.safe.received;
        single = v.safe.single;
        front = v.safe.front;
        open_lem = v.safe.open_lem;
      };
      awake = v.awake;
      beating = v.beating;
      watching = λ on up'. cc;
    } in
    subst IsSound (ground arith) sound

read_again :
    (c : Client) (packet : Bytes)
    → push_packet (record c { reading = read_header }) packet
      ≡ record (push_packet (record c { reading = no_read }) packet) { reading = read_header }
unfolding push_packet
read_again c packet = ground arith

pub body_completed-IsSound :
    (c : Client) (ok : Bool) (body : Bytes) (meanwhile : Bool)
    → IsSound c
    → IsSound (body_completed c ok body meanwhile)
unfolding body_completed
body_completed-IsSound c ok body meanwhile v =
    let (copy, pool) = acquire c.pool (length body) in
    let packet = memcpy copy.bytes 0 body (length body) in
    let valid = acquire-IsValid c.pool (length body) v.safe.pool in
    let u = with_pool-IsSound c pool valid v in
    elim (Bool-cases (not ok || c.shutting_down)) [
      | inl ends ↦
          rw ends
            (handle_disconnect-IsSound _ (idle-IsSafe c no_read c.last_activity c.timer v.safe))
      | inr goes ↦ rw goes (elim (Bool-cases meanwhile) [
        | inl begun ↦
            rw begun (begin_shutdown-IsSound (record c { pool = pool }) no_read u (ground arith))
        | inr calm ↦ rw calm (
            subst IsSound (read_again (record c { pool = pool }) packet) (
              push_packet-IsSound (record c { pool = pool; reading = read_header }) packet
                (reading-IsSound (record c { pool = pool }) read_header c.last_activity refl u)))
      ])
    ]
