-- ===== src/Room/Joined/Waiting.antt =====
-- `sync_up` of src/matrix/room/joined.rs: the loop that waits for the room to be synced. Fuel bounds
-- the number of looks at the room; `none` is a loop that still waits.
use matrix_goose.Prelude.{
  ℕ, zero, suc, ◌≤◌, ◌<◌, ◌≡◌, refl, Bool, true, false, not, ◌&&◌, Option, none, some, arith,
  Bool-cases, inl, inr, if◌then◌else◌,
}
use matrix_goose.Room.Common.{RoomState, joined, left, invited}

-- What the loop looks at, and what a wait of at most a second lets happen.
pub record Watched (W : Type 0) : Type 0 where
  pub is_synced : W → Bool
  pub state : W → RoomState
  pub wait : W → W

abbrev pub is_joined : RoomState → Bool
is_joined joined = true
is_joined left = false
is_joined invited = false

module _ {W : Type 0} (V : Watched W) where
  -- The condition of the loop.
  unfoldable pub is_waiting : W → Bool
  is_waiting w = not (V.is_synced w) && is_joined (V.state w)

  unfoldable pub sync_up : ℕ → W → Option W
  unfolding is_waiting
  sync_up zero w = none
  sync_up (suc fuel) w = let rest = sync_up fuel (V.wait w) in if is_waiting w then rest else some w

  -- The world after so many waits.
  abbrev pub waited : ℕ → W → W
  waited zero w = w
  waited (suc n) w = waited n (V.wait w)

  -- Whether the wait is over: the room is synced, or its user is not in it any more.
  abbrev pub over : Bool → RoomState → Bool
  over true state = true
  over false joined = false
  over false left = true
  over false invited = true

  abbrev pub over_at : W → Bool
  over_at w = over (V.is_synced w) (V.state w)

  is_waiting-over : (w : W) → is_waiting w ≡ not (over_at w)
  unfolding is_waiting
  is_waiting-over w = go (V.is_synced w) (V.state w)
    where
      go : (b : Bool) (s : RoomState) → (not b && is_joined s) ≡ not (over b s)
      go true s = refl
      go false joined = refl
      go false left = refl
      go false invited = refl

  -- The wait was not over at each of the first looks.
  abbrev Pending : ℕ → W → Type 0
  Pending zero w = Unit
  Pending (suc k) w = (over_at w ≡ false) × Pending k (V.wait w)

  abbrev pub Returns : ℕ → ℕ → W → Type 0
  Returns n fuel w =
      (k : ℕ) × (k ≤ n)
      × (sync_up fuel w ≡ some (waited k w))
      × (over_at (waited k w) ≡ true)
      × Pending k w

  -- If at some look, after `n` waits, the room is synced or no longer joined, then the loop returns,
  -- with more than `n` looks to take, and it does so at the first such look.
  pub sync_up-Returns :
      (n fuel : ℕ) (w : W) → n < fuel → over_at (waited n w) ≡ true → Returns n fuel w
  unfolding sync_up
  sync_up-Returns n zero w h d = absurd (omega arith)
  sync_up-Returns zero (suc fuel) w h d =
      let e : is_waiting w ≡ false = cc (is_waiting-over w, d) in (0, omega arith, rw e refl, d, tt)
  sync_up-Returns (suc n) (suc fuel) w h d = elim (Bool-cases (over_at w)) [
    | inl o ↦
        let e : is_waiting w ≡ false = cc (is_waiting-over w, o) in
        (0, omega arith, rw e refl, o, tt)
    | inr o ↦
        let e : is_waiting w ≡ true = cc (is_waiting-over w, o) in
        let (k, le, r, last, before) = sync_up-Returns n fuel (V.wait w) (omega arith) d in
        (suc k, omega arith, rw e r, last, (o, before))
  ]
