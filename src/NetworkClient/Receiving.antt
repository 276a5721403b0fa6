-- ===== src/NetworkClient/Receiving.antt =====
-- What NightNetwork/src/Client.cpp does with the packets that it has read.
use mathlib.Core.List.{append-nil, append_assoc}
use project_night.Prelude.{
  ℕ, ◌≤◌, if◌then◌else◌, ◌+◌, ◌≡◌, refl, sym, ap, subst, inl, inr, Bool, true, false, not, ◌||◌,
  List, [], ◌∷◌, ◌++◌, arith, Bool-cases, length, length-append, ltb,
}
use project_night.Prelude.Within.{Within, nothing, without, Within-all, Within-append, Within-last}
use project_night.Wire.{Bytes}
use project_night.Pool.{BufferPool, acquire}
use project_night.Session.{no_read}
use project_night.NetworkClient.{
  Client, Connecting, create, handle_disconnect, body_completed, push_packet, begin_shutdown,
  do_read_header, send,
}
use project_night.NetworkClient.Step.{
  Step, Steps, header_read, body_read, written, timer_fired, timer_cancelled, task_run, sent,
  polled, shutdown_begun, shutdown_ended, none_left, then_step,
}
use project_night.Pool.Laws.{IsValid}
use project_night.Session.Stream.{copied_body}
use project_night.NetworkClient.Sound.{IsSound}
use project_night.NetworkClient.Sized.{IsSized, Steps-IsSized}
use project_night.NetworkClient.Invariant.{started, create-started, create-IsSound, Steps-IsSound}
use project_night.NetworkClient.Accounts.{
  kept, Accounts, Same-Accounts, handle_disconnect-Same, header_completed-Same,
  write_completed-Same, timer_completed-Same, run_posted-Same, poll_packet-Same,
}

-- The bodies that a run reads: without an error, before the shutdown was begun.
abbrev bodies_in_step : (c d : Client) → Step c d → List Bytes
bodies_in_step _ _ (header_read c ok bytes now runs reading sized) = []
bodies_in_step _ _ (body_read c ok size body meanwhile runs reading sized) =
    if not ok || c.shutting_down then [] else body ∷ []
bodies_in_step _ _ (written c ok runs pending) = []
bodies_in_step _ _ (timer_fired c now runs armed) = []
bodies_in_step _ _ (timer_cancelled c now runs armed gone) = []
bodies_in_step _ _ (task_run c runs) = []
bodies_in_step _ _ (sent c pool payload valid) = []
bodies_in_step _ _ (polled c) = []
bodies_in_step _ _ (shutdown_begun c) = []
bodies_in_step _ _ (shutdown_ended c down done) = []

abbrev pub bodies_in : (c d : Client) → Steps c d → List Bytes
bodies_in _ _ (none_left c) = []
bodies_in _ _ (then_step c d e run last) = bodies_in c d run ++ bodies_in_step d e last

-- A body is handed over: it is kept, or counted as dropped.
push_packet-Accounts :
    (c : Client) (packet : Bytes) (bodies : List Bytes)
    → Accounts c bodies
    → Accounts (push_packet c packet) (bodies ++ packet ∷ [])
unfolding push_packet
push_packet-Accounts c packet bodies v = elim (Bool-cases (ltb (length c.receive_queue) 4096)) [
  | inl room ↦
      let longer = append_assoc c.polled c.receive_queue (packet ∷ []) in
      rw room (record {
        in_order =
            subst (λ l. Within l (bodies ++ packet ∷ [])) longer
              (Within-append (kept c) bodies (packet ∷ []) (packet ∷ []) v.in_order
                (Within-all (packet ∷ [])));
        missed = v.missed;
        thrown = v.thrown;
        all_counted = omega (
          arith,
          v.all_counted,
          length-append bodies (packet ∷ []),
          length-append (kept c) (packet ∷ []),
          ap length longer,
        );
        dropped = v.dropped;
        one_at_most = v.one_at_most;
        at_the_end = v.at_the_end;
      })
  | inr full ↦ rw full (record {
    in_order =
        subst (λ l. Within l (bodies ++ packet ∷ [])) (append-nil (kept c))
          (Within-append (kept c) bodies [] (packet ∷ []) v.in_order
            (without packet [] [] nothing));
    missed = v.missed + 1;
    thrown = v.thrown;
    all_counted = omega (arith, v.all_counted, length-append bodies (packet ∷ []));
    dropped = omega (arith, v.dropped);
    one_at_most = v.one_at_most;
    at_the_end = v.at_the_end;
  })
]

-- The copy of a body that is thrown away, since the shutdown began while it was made.
thrown-Accounts :
    (c : Client) (body : Bytes) (bodies : List Bytes)
    → c.shutting_down ≡ false
    → Accounts c bodies
    → Accounts (begin_shutdown c) (bodies ++ body ∷ [])
unfolding begin_shutdown
thrown-Accounts c body bodies up v = rw up (record {
  in_order = Within-last (kept c) bodies body v.in_order;
  missed = v.missed;
  thrown = 1;
  all_counted = omega (arith, v.all_counted, v.at_the_end up, length-append bodies (body ∷ []));
  dropped = v.dropped;
  one_at_most = omega arith;
  at_the_end = λ h. cc;
})

body_completed-Accounts :
    (c : Client) (ok : Bool) (body : Bytes) (meanwhile : Bool) (bodies : List Bytes)
    → IsValid c.pool
    → length body ≤ 2048
    → Accounts c bodies
    → Accounts
        (body_completed c ok body meanwhile)
        (bodies ++ (if not ok || c.shutting_down then [] else body ∷ []))
unfolding body_completed
body_completed-Accounts c ok body meanwhile bodies valid fits v =
    let (copy, pool) = acquire c.pool (length body) in
    let copied : Client = record c { reading = no_read; pool = pool } in
    let still : Accounts copied bodies = Same-Accounts c copied bodies (refl, refl, λ h. h) v in
    let whole = copied_body c.pool body valid fits in
    elim (Bool-cases (not ok || c.shutting_down)) [
      | inl ends ↦
          rw (ends, append-nil bodies)
            (Same-Accounts c (handle_disconnect (record c { reading = no_read })) bodies
              (handle_disconnect-Same (record c { reading = no_read })) v)
      | inr goes ↦
          rw (goes, whole)
            (elim (Bool-cases meanwhile) [
              | inl begun ↦ rw begun (thrown-Accounts copied body bodies (ground arith) still)
              | inr calm ↦ rw calm (
                  Same-Accounts (push_packet copied body) (do_read_header (push_packet copied body))
                    (bodies ++ body ∷ []) (refl, refl, λ h. h)
                    (push_packet-Accounts copied body bodies still))
            ])
    ]

by_none : (c : Client) (bodies : List Bytes) → Accounts c bodies → Accounts c (bodies ++ [])
by_none c bodies v = subst (Accounts c) (sym (append-nil bodies)) v

Step-Accounts :
    (c d : Client) (step : Step c d) (bodies : List Bytes)
    → IsSound c
    → IsSized c
    → Accounts c bodies
    → Accounts d (bodies ++ bodies_in_step c d step)
unfolding send begin_shutdown
Step-Accounts _ d (header_read c ok bytes now runs reading sized) bs i z v =
    by_none d bs (Same-Accounts c d bs (header_completed-Same c ok bytes now) v)
Step-Accounts _ _ (body_read c ok size body meanwhile runs reading sized) bs i z v =
    body_completed-Accounts c ok body meanwhile bs i.safe.pool
      (omega (arith, z size reading, sized)) v
Step-Accounts _ d (written c ok runs pending) bs i z v =
    by_none d bs (Same-Accounts c d bs (write_completed-Same c ok) v)
Step-Accounts _ d (timer_fired c now runs armed) bs i z v =
    by_none d bs (Same-Accounts c d bs (timer_completed-Same c true now) v)
Step-Accounts _ d (timer_cancelled c now runs armed gone) bs i z v =
    by_none d bs (Same-Accounts c d bs (timer_completed-Same c false now) v)
Step-Accounts _ d (task_run c runs) bs i z v =
    by_none d bs (Same-Accounts c d bs (run_posted-Same c) v)
Step-Accounts _ d (sent c pool payload valid) bs i z v =
    by_none d bs (Same-Accounts c d bs (ground arith, ground arith, λ h. ground arith) v)
Step-Accounts _ d (polled c) bs i z v = by_none d bs (Same-Accounts c d bs (poll_packet-Same c) v)
Step-Accounts _ d (shutdown_begun c) bs i z v =
    by_none d bs (Same-Accounts c d bs (ground arith, ground arith, λ h. ground arith) v)
Step-Accounts _ d (shutdown_ended c down done) bs i z v =
    by_none d bs (Same-Accounts c d bs (refl, refl, λ h. h) v)

Steps-Accounts :
    (c d : Client) (run : Steps c d) (bodies : List Bytes)
    → IsSound c
    → IsSized c
    → Accounts c bodies
    → Accounts d (bodies ++ bodies_in c d run)
Steps-Accounts _ _ (none_left c) bs i z v = by_none c bs v
Steps-Accounts _ _ (then_step c d e run last) bs i z v =
    subst (Accounts e) (append_assoc bs (bodies_in c d run) (bodies_in_step d e last)) (
      Step-Accounts d e last (bs ++ bodies_in c d run) (Steps-IsSound c d run i)
        (Steps-IsSized c d run z) (Steps-Accounts c d run bs i z v))

started-Accounts :
    (pool : BufferPool) (now : ℕ) → Accounts (started pool now) [] × IsSized (started pool now)
unfolding started
started-Accounts pool now = (
  record {
    in_order = nothing;
    missed = 0;
    thrown = 0;
    all_counted = refl;
    dropped = refl;
    one_at_most = omega arith;
    at_the_end = λ h. refl;
  },
  λ size e. cc,
)

-- In every run of a client that `create` gave with a valid pool: the packets that were polled,
-- followed by those that wait to be, are bodies that completed reads put into `body_buf` before the
-- shutdown was begun, each at most once, unchanged and in the order of the reads; and of those
-- missing, all were counted as dropped, modulo 2 ^ 64, but for one at most, which was thrown away
-- because the shutdown began while it was copied.
pub create-Accounts :
    (pool : BufferPool) (now : ℕ) (calls : Connecting) (c d : Client)
    → IsValid pool
    → create pool now calls ≡ inr c
    → (run : Steps c d) → Accounts d (bodies_in c d run)
create-Accounts pool now calls c d valid made run =
    let is = create-started pool now calls c made in
    let (begun, sized) = started-Accounts pool now in
    Steps-Accounts c d run [] (create-IsSound pool now calls c c valid made (none_left c))
      (subst IsSized (sym is) sized) (subst (λ e. Accounts e []) (sym is) begun)
