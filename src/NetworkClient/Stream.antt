-- ===== src/NetworkClient/Stream.antt =====
-- The reading side of NightNetwork/src/Client.cpp on a stream of bytes: which packets arrive.
use mathlib.Core.List.{append-nil}
use project_night.Prelude.{ℕ, ◌*◌, ◌≤◌, ◌≡◌, true, false, List, arith, length}
use project_night.Wire.{is_keepalive}
use project_night.Pool.Laws.{IsValid, acquire-IsValid}
use project_night.Session.{read_header}
use project_night.Session.Stream.{decode-keepalive, decode-data, copied_body}
use project_night.Reader.{Reader, ReadsFrames, Sent, AreSendable, Delivers, read_stream-Delivers}
use project_night.NetworkClient.{Client, header_completed, body_completed, push_packet}

-- A client as a reader.
unfoldable pub client_reader : Reader Client
unfolding header_completed body_completed
client_reader = record {
  reading = λ c. c.reading;
  received = λ c. c.arrived;
  header_done = λ c bytes now. header_completed c true bytes now;
  body_done = λ c body. body_completed c true body false;
}

-- Its pool is valid, and it is connected and not shutting down.
abbrev pub Ready : Client → Type 0
Ready c = IsValid c.pool × (c.connected ≡ true) × (c.shutting_down ≡ false)

pub client-ReadsFrames : ReadsFrames client_reader Ready
unfolding client_reader header_completed body_completed push_packet is_keepalive
client-ReadsFrames = record {
  on_keepalive = λ c now ready. (
    record {
      now_reading = ground (arith, decode-keepalive, ready.2);
      now_received = ground (arith, decode-keepalive, ready.2, append-nil c.arrived);
    },
    (
      ground (arith, decode-keepalive, ready.2, ready.0),
      ground (arith, decode-keepalive, ready.2, ready.1),
      ground (arith, decode-keepalive, ready.2),
    ),
  );
  on_header = λ c size now ready some_bytes fits. (
    record {
      now_reading = ground (arith, decode-data size, ready.2);
      now_received = ground (arith, decode-data size, ready.2, append-nil c.arrived);
    },
    (
      ground (arith, decode-data size, ready.2, ready.0),
      ground (arith, decode-data size, ready.2, ready.1),
      ground (arith, decode-data size, ready.2),
    ),
  );
  on_body = λ c body ready fits. (
    record {
      now_reading = ground (arith, ready.2);
      now_received = ground (arith, ready.2, copied_body c.pool body ready.0 fits);
    },
    (
      ground (arith, ready.2, acquire-IsValid c.pool (length body) ready.0),
      ground (arith, ready.2, ready.1),
      ground (arith, ready.2),
    ),
  );
}

-- Of a client that waits for a header, is connected and is not shutting down, over the bytes that a
-- session wrote.
pub client-Delivers :
    (clock : ℕ → ℕ) (n : ℕ) (c : Client) (units : List Sent)
    → c.reading ≡ read_header
    → Ready c
    → AreSendable units
    → 2 * length units ≤ n
    → Delivers client_reader Ready client-ReadsFrames clock n c units
unfolding client_reader
client-Delivers clock n c units e ready ok enough =
    read_stream-Delivers client_reader Ready client-ReadsFrames clock n c units e ready ok enough
