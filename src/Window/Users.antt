-- ===== src/Window/Users.antt =====
-- The list of users of NightClient/ChatClientFrame.cpp, against those who came and went.
use mathlib.Core.List.{append-nil, append_assoc}
use project_night.Prelude.{
  All-append, ℕ, zero, suc, Bool, true, false, ◌≡◌, refl, ◌∙◌, sym, ap, subst, inl, inr, List, [],
  ◌∷◌, ◌++◌, none, some, arith, All, Bool-cases, Option-cases, is_empty, if◌then◌else◌,
}
use project_night.Wire.{Bytes}
use project_night.Client.{ChatProtocolEvent, chat_user_joined, chat_user_left}
use project_night.Window.{
  Wx, FindsItems, ChatClientFrame, item_at, delete_at, add_user, remove_user, append_line,
  process_protocol_event, process_events,
}

-- Two users come, and the first of them goes.
abbrev pub comings : ℕ → Bytes → Bytes → List ChatProtocolEvent
comings room_id a b =
    chat_user_joined room_id a ∷ chat_user_joined room_id b ∷ chat_user_left room_id a ∷ []

module _ (wx : Wx) (same : Bytes → Bytes → Bool) (laws : FindsItems wx same) where
  -- Nothing before `name` is the same, and what follows is not either: it is `name` that is deleted.
  delete_found :
      (items rest : List Bytes) (name item : Bytes) (i : ℕ)
      → All (λ other. same other name ≡ false) items
      → All (λ other. same other name ≡ false) rest
      → item_at (items ++ name ∷ rest) i ≡ some item
      → same item name ≡ true
      → delete_at wx (items ++ name ∷ rest) i ≡ items ++ rest
  delete_found [] rest name item zero before after at alike = refl
  delete_found [] rest name item (suc i) before after at alike =
      absurd (none_alike rest i before after at alike)
    where
      none_alike :
          (rest : List Bytes) (i : ℕ)
          → Unit {0}
          → All (λ other. same other name ≡ false) rest
          → item_at rest i ≡ some item
          → same item name ≡ true
          → ⊥
      none_alike [] i u after at alike = cc
      none_alike (other ∷ rest) zero u after at alike = ground (arith, after.0)
      none_alike (other ∷ rest) (suc i) u after at alike = none_alike rest i tt after.1 at alike
  delete_found (other ∷ items) rest name item zero before after at alike =
      absurd (ground (arith, before.0))
  delete_found (other ∷ items) rest name item (suc i) before after at alike =
      ap (◌∷◌ other) (delete_found items rest name item i before.1 after at alike)

  not_alike :
      (items rest : List Bytes) (name : Bytes)
      → same name name ≡ true
      → All (λ other. same other name ≡ false) (items ++ name ∷ rest)
      → ⊥
  not_alike [] rest name self a = ground (arith, a.0)
  not_alike (item ∷ items) rest name self a = not_alike items rest name self a.1

  All-member :
      (items : List Bytes) (name item : Bytes) (i : ℕ)
      → All (λ other. same other name ≡ false) items
      → item_at items i ≡ some item
      → same item name ≡ true
      → ⊥
  All-member [] name item i a at alike = cc
  All-member (other ∷ items) name item zero a at alike = ground (arith, a.0)
  All-member (other ∷ items) name item (suc i) a at alike =
      All-member items name item i a.1 at alike

  -- FindString finds nothing where nothing is the same,
  finds_nothing :
      (items : List Bytes) (name : Bytes)
      → All (λ other. same other name ≡ false) items
      → wx.find_string items name ≡ none
  finds_nothing items name a = elim (Option-cases (wx.find_string items name)) [
    | inl nothing ↦ nothing
    | inr (i, there) ↦
        let (item, at, alike) = laws.finds items name i there in
        absurd (All-member items name item i a at alike)
  ]

  -- and what is listed once is found and deleted.
  deletes :
      (f : ChatClientFrame) (items rest : List Bytes) (name : Bytes)
      → f.user_list ≡ items ++ name ∷ rest
      → All (λ other. same other name ≡ false) items
      → All (λ other. same other name ≡ false) rest
      → same name name ≡ true
      → (remove_user wx f name).user_list ≡ items ++ rest
  unfolding remove_user
  deletes f items rest name e before after self =
      elim (Option-cases (wx.find_string f.user_list name)) [
        | inl nothing ↦ absurd (
            not_alike items rest name self (
              subst (λ l. All (λ other. same other name ≡ false) l) e
                (laws.misses f.user_list name nothing)))
        | inr (i, there) ↦
            let (item, at, alike) = laws.finds f.user_list name i there in
            rw (there, remove_user)
              (ap (λ (l : List Bytes). delete_at wx l i) e
                ∙ delete_found items rest name item i before after
                    (ap (λ (l : List Bytes). item_at l i) (sym e) ∙ at) alike)
      ]

  adds :
      (f : ChatClientFrame) (name : Bytes)
      → is_empty name ≡ false
      → All (λ other. same other name ≡ false) f.user_list
      → add_user wx f name ≡ record f { user_list = f.user_list ++ name ∷ [] }
  unfolding add_user
  adds f name named fresh = ground (arith, finds_nothing f.user_list name fresh)

  -- A user whose name is the same as that of a listed one is not added.
  skips :
      (f : ChatClientFrame) (items : List Bytes) (name other : Bytes)
      → f.user_list ≡ items ++ name ∷ []
      → same name other ≡ true
      → is_empty other ≡ false
      → add_user wx f other ≡ f
  unfolding add_user
  skips f items name other e alike named = elim (Option-cases (wx.find_string f.user_list other)) [
    | inl nothing ↦ absurd (
        last_unlike items (
          subst (λ l. All (λ x. same x other ≡ false) l) e (laws.misses f.user_list other nothing)))
    | inr (i, there) ↦ rw (named, there, add_user) refl
  ]
    where
      last_unlike : (items : List Bytes) → All (λ x. same x other ≡ false) (items ++ name ∷ []) → ⊥
      last_unlike [] a = ground (arith, a.0)
      last_unlike (item ∷ items) a = last_unlike items a.1

  -- What the users are after an event is what adding or removing leaves.
  joined_users :
      (f : ChatClientFrame) (room_id : ℕ) (name : Bytes)
      → (process_protocol_event wx f (chat_user_joined room_id name)).user_list
        ≡ (add_user wx f (wx.from_utf8 name)).user_list
  unfolding process_protocol_event append_line
  joined_users f room_id name = refl

  left_users :
      (f : ChatClientFrame) (room_id : ℕ) (name : Bytes)
      → (process_protocol_event wx f (chat_user_left room_id name)).user_list
        ≡ (remove_user wx f (wx.from_utf8 name)).user_list
  unfolding process_protocol_event append_line
  left_users f room_id name = refl

  -- When two users who are not listed yet come and the first goes again, the list of users has the
  -- second added if their names are not the same to FindString; but if they are, as with names
  -- that differ in the case of letters only, the list is as it was before, without the one who
  -- stays. Sameness need only hold of the first name and itself, and be symmetric on the two.
  pub comings_and_goings :
      (f : ChatClientFrame) (room_id : ℕ) (a b : Bytes)
      → is_empty (wx.from_utf8 a) ≡ false
      → is_empty (wx.from_utf8 b) ≡ false
      → All (λ other. same other (wx.from_utf8 a) ≡ false) f.user_list
      → All (λ other. same other (wx.from_utf8 b) ≡ false) f.user_list
      → same (wx.from_utf8 a) (wx.from_utf8 a) ≡ true
      → same (wx.from_utf8 b) (wx.from_utf8 a) ≡ same (wx.from_utf8 a) (wx.from_utf8 b)
      → (process_events wx f (comings room_id a b)).user_list ≡ (
          if same (wx.from_utf8 a) (wx.from_utf8 b)
          then f.user_list
          else f.user_list ++ wx.from_utf8 b ∷ [])
  unfolding process_events
  comings_and_goings f room_id a b named named' fresh fresh' self sym_ab =
      let a' = wx.from_utf8 a in
      let b' = wx.from_utf8 b in
      let f1 = process_protocol_event wx f (chat_user_joined room_id a) in
      let f2 = process_protocol_event wx f1 (chat_user_joined room_id b) in
      let one : f1.user_list ≡ f.user_list ++ a' ∷ [] =
        joined_users f room_id a
        ∙ ap (λ (g : ChatClientFrame). g.user_list) (adds f a' named fresh) in
      elim (Bool-cases (same a' b')) [
        | inl alike ↦
            let two : f2.user_list ≡ f.user_list ++ a' ∷ [] =
              joined_users f1 room_id b
              ∙ ap (λ (g : ChatClientFrame). g.user_list)
                  (skips f1 f.user_list a' b' one alike named')
              ∙ one in
            rw alike (
              left_users f2 room_id a
              ∙ deletes f2 f.user_list [] a' two fresh tt self
              ∙ append-nil f.user_list)
        | inr differ ↦
            let unseen : All (λ other. same other b' ≡ false) f1.user_list =
              subst (λ l. All (λ other. same other b' ≡ false) l) (sym one)
                (All-append (λ other. same other b' ≡ false) f.user_list (a' ∷ []) fresh'
                  (differ, tt)) in
            let two : f2.user_list ≡ f.user_list ++ a' ∷ b' ∷ [] =
              joined_users f1 room_id b
              ∙ ap (λ (g : ChatClientFrame). g.user_list) (adds f1 b' named' unseen)
              ∙ ap (λ (l : List Bytes). l ++ b' ∷ []) one
              ∙ append_assoc f.user_list (a' ∷ []) (b' ∷ []) in
            rw differ (
              left_users f2 room_id a
              ∙ deletes f2 f.user_list (b' ∷ []) a' two fresh (sym_ab ∙ differ, tt) self)
      ]
