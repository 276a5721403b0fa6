-- ===== src/Session/Sound.antt =====
-- The invariant of NightNetwork/src/Session.cpp, and the functions that its handlers share.
use project_night.Prelude.{
  ℕ, ◌<◌, ◌≤◌, ◌≡◌, refl, sym, ◌∙◌, ap, subst, inl, inr, false, not, List, [], ◌∷◌, ◌++◌, arith,
  Bool-cases, length, length-append, is_empty, leb, if◌then◌else◌,
}
use project_night.Pool.{Buffer, BufferPool}
use project_night.Pool.Laws.{IsValid, release-IsValid}
use project_night.Frame.{enqueue_frame}
use project_night.Session.{
  Session, session, handle_close, do_write, write_front, enqueue_write, release_frame,
}

-- What holds inside a handler too.
pub record IsSafe (s : Session) : Type 0 where
  pub pool : IsValid s.pool
  pub bounded : length s.write_queue ≤ 1024
  -- Writes do not overlap, and the one that is pending has its frame at the front of the queue.
  pub single : s.writes ≤ 1
  pub front : 0 < s.writes → 0 < length s.write_queue
  -- The owner is told of the end once, when the session is closed.
  pub told : s.closes ≡ (if s.closed then 1 else 0)

-- While a session is open, a write is pending just when there are frames, and `writing_` says so.
abbrev Awake : Session → Type 0
Awake s =
    s.closed ≡ false
    → (s.writing ≡ not (is_empty s.write_queue)) × (s.writes ≡ (if s.writing then 1 else 0))

pub record IsSound (s : Session) : Type 0 where
  pub safe : IsSafe s
  pub awake : Awake s

pub session-IsSound : (pool : BufferPool) (now : ℕ) → IsValid pool → IsSound (session pool now)
session-IsSound pool now v = record {
  safe = record {
    pool = v;
    bounded = omega arith;
    single = omega arith;
    front = λ h. absurd (omega arith);
    told = refl;
  };
  awake = λ h. (refl, refl);
}

pub handle_close-IsSound : (s : Session) → IsSafe s → IsSound (handle_close s)
unfolding handle_close
handle_close-IsSound s v = record {
  safe = record {
    pool = ground (arith, v.pool);
    bounded = ground (arith, v.bounded);
    single = ground (arith, v.single);
    front = ground (arith, v.front);
    told = ground (arith, v.told);
  };
  awake = ground arith;
}

pub do_write-IsSound : (s : Session) → IsSafe s → s.writes ≡ 0 → IsSound (do_write s)
unfolding do_write
do_write-IsSound s v quiet = go s.write_queue refl
  where
    go : (frames : List Buffer) → s.write_queue ≡ frames → IsSound (write_front s frames)
    go [] e = record {
      safe = record {
        pool = v.pool;
        bounded = v.bounded;
        single = v.single;
        front = v.front;
        told = v.told;
      };
      awake = ground arith;
    }
    go (frame ∷ rest) e = record {
      safe = record {
        pool = v.pool;
        bounded = v.bounded;
        single = ground arith;
        front = ground arith;
        told = v.told;
      };
      awake = ground arith;
    }

release_frame-IsSafe : (s : Session) (frame : Buffer) → IsSafe s → IsSafe (release_frame s frame)
release_frame-IsSafe s frame v = record {
  pool = release-IsValid s.pool frame v.pool;
  bounded = v.bounded;
  single = v.single;
  front = v.front;
  told = v.told;
}

not_empty {ℓ} : {A : Type ℓ} (xs : List A) (x : A) → is_empty (xs ++ x ∷ []) ≡ false
not_empty [] x = refl
not_empty (y ∷ ys) x = refl

-- A frame that is taken in.
longer-IsSafe :
    (s : Session) (frame : Buffer)
    → IsSafe s
    → length s.write_queue < 1024
    → IsSafe (record s { write_queue = s.write_queue ++ frame ∷ [] })
longer-IsSafe s frame v h =
    let n = length-append s.write_queue (frame ∷ []) in
    record {
      pool = v.pool;
      bounded = omega (arith, n);
      single = v.single;
      front = λ _. omega (arith, n);
      told = v.told;
    }

pub enqueue_write-IsSound :
    (s : Session) (frame : Buffer) → IsSound s → IsSound (enqueue_write s frame)
unfolding enqueue_write enqueue_frame
enqueue_write-IsSound s frame v = elim (Bool-cases s.closed) [
  | inl shut ↦
      ends (release_frame s frame) (ground arith)
        (record { safe = release_frame-IsSafe s frame v.safe; awake = λ h. absurd (ground arith) })
  | inr live ↦ elim (Bool-cases (leb 1024 (length s.write_queue))) [
    | inl many ↦
        ends (handle_close (release_frame s frame)) (ground arith)
          (handle_close-IsSound (release_frame s frame) (release_frame-IsSafe s frame v.safe))
    | inr few ↦
        let longer = record s { write_queue = s.write_queue ++ frame ∷ [] } in
        let safe = longer-IsSafe s frame v.safe (ground arith) in
        elim (Bool-cases s.writing) [
          | inl busy ↦ ends longer (ground arith) (record {
            safe = safe;
            awake = λ h. (busy ∙ ap not (sym (not_empty s.write_queue frame)), (v.awake live).1);
          })
          | inr lazy ↦
              ends (do_write longer) (ground arith)
                (do_write-IsSound longer safe (ground (arith, v.awake live)))
        ]
  ]
]
  where
    ends : (t : Session) → enqueue_write s frame ≡ t → IsSound t → IsSound (enqueue_write s frame)
    ends t e sound = subst IsSound (sym e) sound
