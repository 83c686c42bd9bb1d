-- ===== src/Room/Joined/Notices.antt =====
-- When a joined room tells the server that its user is typing (src/matrix/room/joined.rs).
use mathlib.Core.Path.{ap₂}
use matrix_goose.Prelude.{
  ℕ, ◌+◌, ◌<◌, ◌≤◌, ◌≡◌, refl, Bool, true, false, ◌↔◌, ◌⊎◌, ◌∙◌, subst, ap, ltb, if◌then◌else◌,
  Option, none, some, List, [], ◌∷◌, ◌++◌, sym, text_eq, String, arith, Bool-cases, inl, inr,
}
use matrix_goose.Map.{lookup, insert, lookup-insert_same}
use matrix_goose.Exec.{ok, err}
use matrix_goose.Config.{from_secs}
use matrix_goose.Error.{HttpResult}
use matrix_goose.Room.Common.{RoomId}
use matrix_goose.Room.Joined.{
  Typing, yes, typing_notice_timeout, Joined, is_due, send_typing_notice, typing_notice, sent,
}

-- A notice stands in the room at `now` with the server since less than `d`.
unfoldable pub Within : ℕ → Option ℕ → ℕ → Type 0
Within d none now = ⊥
Within d (some t) now = now ≤ t + d

-- The start of typing is sent unless the last was sent in the last three seconds; the end of typing
-- is sent if the start was sent in the last four seconds.
unfoldable pub Due : Option ℕ → ℕ → Bool → Type 0
Due last now true = Within (from_secs 3) last now → ⊥
Due last now false = Within (from_secs 4) last now

is_due-Due :
    (last : Option ℕ) (now : ℕ) (typing : Bool)
    → (is_due last now typing ≡ true) ↔ Due last now typing
unfolding is_due Due Within
is_due-Due none now true = ground arith
is_due-Due none now false = ground arith
is_due-Due (some t) now true = ground arith
is_due-Due (some t) now false = ground arith

-- Each time is more than three seconds after the one before, the first after `last`.
unfoldable pub Spaced : Option ℕ → List ℕ → Type 0
Spaced last [] = Unit
Spaced none (t ∷ ts) = Spaced (some t) ts
Spaced (some p) (t ∷ ts) = (p + from_secs 3 < t) × Spaced (some t) ts

Spaced-nil : (last : Option ℕ) → Spaced last []
unfolding Spaced
Spaced-nil none = tt
Spaced-nil (some p) = tt

Spaced-cons :
    (last : Option ℕ) (t : ℕ) (ts : List ℕ)
    → Due last t true
    → Spaced (some t) ts
    → Spaced last (t ∷ ts)
unfolding Spaced Due Within
Spaced-cons none t ts d s = s
Spaced-cons (some p) t ts d s = (ground arith, s)

-- The press comes more than three seconds after the last notice, or there was none.
abbrev is_late : Option ℕ → ℕ → Bool
is_late none t = true
is_late (some p) t = ltb (p + from_secs 3) t

-- The presses that a request is sent for.
unfoldable pub late_presses : Option ℕ → List ℕ → List ℕ
late_presses last [] = []
late_presses last (t ∷ ts) =
    if is_late last t then t ∷ late_presses (some t) ts else late_presses last ts

is_due-is_late : (last : Option ℕ) (t : ℕ) → is_due last t true ≡ is_late last t
unfolding is_due
is_due-is_late none t = refl
is_due-is_late (some p) t = ground arith

late_presses-late :
    (last : Option ℕ) (t : ℕ) (ts : List ℕ)
    → is_late last t ≡ true
    → late_presses last (t ∷ ts) ≡ t ∷ late_presses (some t) ts
unfolding late_presses
late_presses-late last t ts e = rw (e, late_presses) refl

late_presses-early :
    (last : Option ℕ) (t : ℕ) (ts : List ℕ)
    → is_late last t ≡ false
    → late_presses last (t ∷ ts) ≡ late_presses last ts
unfolding late_presses
late_presses-early last t ts e = rw (e, late_presses) refl

module _ {W : Type 0} (send_typing : String → RoomId → Typing → W → HttpResult (Unit {0}) × W) where
  abbrev pub last_notice : Joined W → Option ℕ
  last_notice r = lookup r.room_id r.typing_notice_times

  -- The requests made at the time `t`, noted beside the world.
  abbrev pub noting :
      ℕ → String → RoomId → Typing → W × List ℕ → HttpResult (Unit {0}) × (W × List ℕ)
  noting t user room typing (w, ts) =
      let (r, w') = send_typing user room typing w in (r, (w', ts ++ t ∷ []))

  abbrev pub with_notes : Joined W → Joined (W × List ℕ)
  with_notes r = record {
    room_id = r.room_id;
    own_user_id = r.own_user_id;
    typing_notice_times = r.typing_notice_times;
    world = (r.world, []);
  }

  -- The requests that a press of a key at the time `t` makes.
  abbrev pub requests_at : ℕ → Joined W → List ℕ
  requests_at t r = (typing_notice (noting t) t true (with_notes r)).1.world.1

  -- The times of the requests that a user makes who presses keys at the times `ts`.
  unfoldable pub presses : List ℕ → Joined W → List ℕ
  presses [] r = []
  presses (t ∷ ts) r = requests_at t r ++ presses ts (typing_notice send_typing t true r).1

  sent-times :
      (r : Joined W) (a : HttpResult (Unit {0}) × W)
      → last_notice (sent send_typing r a).1 ≡ last_notice r
  sent-times r (ok u, w) = refl
  sent-times r (err e, w) = refl

  sent-true :
      (t : ℕ) (r : Joined W) → last_notice (send_typing_notice send_typing t true r).1 ≡ some t
  unfolding send_typing_notice
  sent-true t r =
      sent-times (record r { typing_notice_times = insert r.room_id t r.typing_notice_times }) _
      ∙ lookup-insert_same r.room_id t r.typing_notice_times

  -- `typing_notice` does not fail, sends nothing and keeps its state where no notice is due, and
  -- sends the notice where one is.
  pub typing_notice-Due :
      (now : ℕ) (typing : Bool) (r : Joined W)
      → (Due (last_notice r) now typing
          × (typing_notice send_typing now typing r ≡ send_typing_notice send_typing now typing r))
        ⊎ ((Due (last_notice r) now typing → ⊥)
            × (typing_notice send_typing now typing r ≡ (ok tt, r)))
  unfolding typing_notice
  typing_notice-Due now typing r =
      let d = is_due-Due (last_notice r) now typing in
      elim (Bool-cases (is_due (last_notice r) now typing)) [
        | inl e ↦ inl (d.0 e, rw (e, typing_notice) refl)
        | inr e ↦ inr (λ x. cc (d.1 x), rw (e, typing_notice) refl)
      ]

  after-press :
      (t : ℕ) (r : Joined W)
      → is_due (last_notice r) t true ≡ true
      → last_notice (typing_notice send_typing t true r).1 ≡ some t
  unfolding typing_notice
  after-press t r e = rw (e, typing_notice) (sent-true t r)

  after-no_press :
      (t : ℕ) (r : Joined W)
      → is_due (last_notice r) t true ≡ false
      → last_notice (typing_notice send_typing t true r).1 ≡ last_notice r
  unfolding typing_notice
  after-no_press t r e = rw (e, typing_notice) refl

  noted :
      (t : ℕ) (r : Joined W) (q : HttpResult (Unit {0}) × W)
      → (sent (noting t) (with_notes r) (q.0, (q.1, t ∷ []))).1.world.1 ≡ t ∷ []
  noted t r (ok u, w) = refl
  noted t r (err e, w) = refl

  requests_at-due :
      (t : ℕ) (r : Joined W) → is_due (last_notice r) t true ≡ true → requests_at t r ≡ t ∷ []
  unfolding typing_notice send_typing_notice
  requests_at-due t r e =
      rw (e, requests_at, typing_notice)
        (noted t (record r { typing_notice_times = insert r.room_id t r.typing_notice_times })
          (send_typing r.own_user_id r.room_id (yes typing_notice_timeout) r.world))

  requests_at-not_due :
      (t : ℕ) (r : Joined W) → is_due (last_notice r) t true ≡ false → requests_at t r ≡ []
  unfolding typing_notice
  requests_at-not_due t r e = rw (e, requests_at, typing_notice) refl

  Spaced-presses : (ts : List ℕ) (r : Joined W) → Spaced (last_notice r) (presses ts r)
  unfolding presses
  Spaced-presses [] r = Spaced-nil (last_notice r)
  Spaced-presses (t ∷ ts) r =
      let rest = Spaced-presses ts (typing_notice send_typing t true r).1 in
      elim (Bool-cases (is_due (last_notice r) t true)) [
        | inl e ↦
            subst
              (λ x. Spaced (last_notice r) (x ++ presses ts (typing_notice send_typing t true r).1))
              (sym (requests_at-due t r e))
              (Spaced-cons (last_notice r) t (presses ts (typing_notice send_typing t true r).1)
                ((is_due-Due (last_notice r) t true).0 e)
                (subst (λ x. Spaced x (presses ts (typing_notice send_typing t true r).1))
                  (after-press t r e) rest))
        | inr e ↦
            subst
              (λ x. Spaced (last_notice r) (x ++ presses ts (typing_notice send_typing t true r).1))
              (sym (requests_at-not_due t r e))
              (subst (λ x. Spaced x (presses ts (typing_notice send_typing t true r).1))
                (after-no_press t r e) rest)
      ]

  presses-late_presses :
      (ts : List ℕ) (r : Joined W) → presses ts r ≡ late_presses (last_notice r) ts
  unfolding presses late_presses
  presses-late_presses [] r = refl
  presses-late_presses (t ∷ ts) r =
      let rest = presses-late_presses ts (typing_notice send_typing t true r).1 in
      let late = is_due-is_late (last_notice r) t in
      elim (Bool-cases (is_due (last_notice r) t true)) [
        | inl e ↦
            ap₂ (λ a b. a ++ b) (requests_at-due t r e)
              (rest ∙ ap (λ x. late_presses x ts) (after-press t r e))
            ∙ sym (late_presses-late (last_notice r) t ts (sym late ∙ e))
        | inr e ↦
            ap₂ (λ a b. a ++ b) (requests_at-not_due t r e)
              (rest ∙ ap (λ x. late_presses x ts) (after-no_press t r e))
            ∙ sym (late_presses-early (last_notice r) t ts (sym late ∙ e))
      ]

  -- The requests that are sent when keys are pressed are those of the presses that come more than three
  -- seconds after the request before, or after the notice that the room knows of, if there is one. So
  -- two requests are always more than three seconds apart. Whether they succeed makes no difference.
  pub presses-Spaced :
      (ts : List ℕ) (r : Joined W)
      → (presses ts r ≡ late_presses (last_notice r) ts) × Spaced (last_notice r) (presses ts r)
  presses-Spaced ts r = (presses-late_presses ts r, Spaced-presses ts r)
