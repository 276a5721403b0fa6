-- ===== src/Server/Posting/Front.antt =====
-- The frame in front of the tasks of NightNetwork/src/Server.cpp: dropped, or posted.
use mathlib.Core.List.{append-nil, append_assoc, map-append}
use project_night.Prelude.{
  ℕ, ◌<◌, ◌≤◌, ◌≡◌, refl, sym, ◌∙◌, ap, subst, ◌⊎◌, false, List, [], ◌∷◌, ◌++◌, map, arith, length,
  ◌==◌, inl, inr,
}
use project_night.Prelude.Set.{IsUnique}
use project_night.Prelude.Within.{Within, Within-less}
use project_night.Wire.{Bytes}
use project_night.Pool.{Buffer}
use project_night.Server.{Server, Post, raw_frame}
use project_night.Server.Sending.{frame_of}
use project_night.Server.Posting.{
  raw_frames, task_frames, Fit, Fit-append, raw_frames-append, IsPosting,
}

-- The payload whose frame is in front.
pub record Front (waiting : List Bytes) (frame : Buffer) (frames : List Buffer) : Type 0 where
  pub payload : Bytes
  pub rest : List Bytes
  pub split : waiting ≡ payload ∷ rest
  pub same : frame ≡ frame_of payload
  pub frames_lem : frames ≡ map frame_of rest
  pub some_bytes : 0 < length payload
  pub fits : length payload ≤ 2048
  pub rest_fit : Fit rest

pub front :
    (waiting : List Bytes) (frame : Buffer) (frames : List Buffer)
    → frame ∷ frames ≡ map frame_of waiting
    → Fit waiting
    → Front waiting frame frames
front [] frame frames e f = absurd (cc e)
front (payload ∷ rest) frame frames e f = record {
  payload = payload;
  rest = rest;
  split = refl;
  same = cc e;
  frames_lem = cc e;
  some_bytes = f.0;
  fits = f.1;
  rest_fit = f.2;
}

-- The frame in front was dropped, or posted.
pub next-IsPosting :
    (id : ℕ) (v w : Server) (given : List Bytes) (frame : Buffer) (frames : List Buffer)
    (t : IsPosting id v given)
    → Front t.waiting frame frames
    → task_frames id w.posted ≡ frames
    → IsUnique w.sessions
    → (raw_frames id w.to_sessions ≡ raw_frames id v.to_sessions)
      ⊎ (raw_frames id w.to_sessions ≡ raw_frames id v.to_sessions ++ frame ∷ [])
    → IsPosting id w given
next-IsPosting id v w given frame frames t f tasks unique grown =
    let order : Within (t.posted ++ f.payload ∷ f.rest) given =
      subst (λ l. Within (t.posted ++ l) given) f.split t.order in
    elim grown [
      | inl dropped ↦ record {
        posted = t.posted;
        posted_lem = dropped ∙ t.posted_lem;
        posted_fit = t.posted_fit;
        waiting = f.rest;
        waiting_lem = tasks ∙ f.frames_lem;
        waiting_fit = f.rest_fit;
        order = Within-less t.posted f.rest f.payload _ given refl order;
        unique = unique;
      }
      | inr more ↦ record {
        posted = t.posted ++ f.payload ∷ [];
        posted_lem =
            more
            ∙ ap (λ (l : List Buffer). l ++ frame ∷ []) t.posted_lem
            ∙ ap (λ (b : Buffer). map frame_of t.posted ++ b ∷ []) f.same
            ∙ sym (map-append frame_of t.posted (f.payload ∷ []));
        posted_fit = Fit-append t.posted (f.payload ∷ []) t.posted_fit (f.some_bytes, f.fits, tt);
        waiting = f.rest;
        waiting_lem = tasks ∙ f.frames_lem;
        waiting_fit = f.rest_fit;
        order =
            subst (λ l. Within l given) (sym (append_assoc t.posted (f.payload ∷ []) f.rest)) order;
        unique = unique;
      }
    ]

pub raw_frames-raw_frame :
    (id : ℕ) (posts : List (ℕ × Post)) (frame : Buffer)
    → raw_frames id (posts ++ (id, raw_frame frame) ∷ []) ≡ raw_frames id posts ++ frame ∷ []
raw_frames-raw_frame id posts frame =
    raw_frames-append id posts ((id, raw_frame frame) ∷ []) ∙ ground arith

pub raw_frames-other :
    (id j : ℕ) (posts : List (ℕ × Post)) (frame : Buffer)
    → (j == id) ≡ false
    → raw_frames id (posts ++ (j, raw_frame frame) ∷ []) ≡ raw_frames id posts
raw_frames-other id j posts frame differs =
    raw_frames-append id posts ((j, raw_frame frame) ∷ [])
    ∙ ap (◌++◌ (raw_frames id posts)) (ground arith)
    ∙ append-nil (raw_frames id posts)
