-- ===== src/Sync/Response/Telling.antt =====
-- Counting how often a step of the handling of a sync tells the gap of a room (src/matrix/sync.rs).
use matrix_goose.Prelude.{
  ◌≡◌, refl, sym, ◌∙◌, ap, ℕ, ◌+◌, Bool, true, false, Option, none, some, List, [], ◌∷◌,
  if◌then◌else◌, text_eq, ◌==◌, Bool-cases, inl, inr, arith,
}
use matrix_goose.Map.{Map, lookup, lookup-insert}
use matrix_goose.Exec.{Result, ok, err, Exec, for_each, continue, ◌>>◌}
use matrix_goose.Error.{Error}
use matrix_goose.EventHandler.Defs.{RoomId}
use matrix_goose.EventHandler.Dispatch.{Env, Dispatch, Handlers}
use matrix_goose.Sync.Response.{
  BaseClient, Synced, notify_sync_gap, set_observable, dispatched, gap, with_room,
}

abbrev pub add_to : ℕ → Option ℕ → Option ℕ
add_to n none = none
add_to n (some k) = some (k + n)

pub add_to-add_to : (a b : ℕ) (o : Option ℕ) → add_to b (add_to a o) ≡ add_to (a + b) o
add_to-add_to a b none = refl
add_to-add_to a b (some k) = ap some (omega arith)

pub add_to-zero : (o : Option ℕ) → add_to 0 o ≡ o
add_to-zero none = refl
add_to-zero (some k) = ap some (omega arith)

abbrev pub once : RoomId → RoomId → ℕ
once r room_id = if room_id == r then 1 else 0

abbrev pub once_if : RoomId → RoomId → Bool → ℕ
once_if r room_id limited = if limited then once r room_id else 0

abbrev pub sum_of : {A : Type 0} → (A → ℕ) → List A → ℕ
sum_of f [] = 0
sum_of f (x ∷ xs) = f x + sum_of f xs

pub set_observable-told :
    (r room_id : RoomId) (o : Option ℕ) (gaps : Map RoomId ℕ)
    → lookup room_id gaps ≡ o
    → lookup r (set_observable room_id o gaps) ≡ add_to (once r room_id) (lookup r gaps)
set_observable-told r room_id none gaps h = elim (Bool-cases (room_id == r)) [
  | inl e ↦ let g = ap (λ x. lookup x gaps) (sym ((text_eq.beq_iff room_id r).0 e)) ∙ h in rw g refl
  | inr e ↦ rw e (sym (add_to-zero (lookup r gaps)))
]
set_observable-told r room_id (some n) gaps h =
    lookup-insert r room_id (n + 1) gaps ∙ elim (Bool-cases (room_id == r)) [
      | inl e ↦
          let g = ap (λ x. lookup x gaps) (sym ((text_eq.beq_iff room_id r).0 e)) ∙ h in
          rw (e, g) refl
      | inr e ↦ rw e (sym (add_to-zero (lookup r gaps)))
    ]

pub sum_of-zero : {A : Type 0} (xs : List A) → sum_of (λ x. 0) xs ≡ 0
sum_of-zero [] = refl
sum_of-zero (x ∷ xs) = omega (arith, sum_of-zero xs)

module _ {V : Env} where
  abbrev pub told : RoomId → Synced V → Option ℕ
  told r s = lookup r s.sync_gap_broadcast_txs

  -- If the call succeeds, the gap of the room `r` is told `n` times.
  unfoldable pub Tells : RoomId → ℕ → Synced V → Result Error (Unit {0}) × Synced V → Type 0
  Tells r n s (ok _, t) = told r t ≡ add_to n (told r s)
  Tells r n s (err e, t) = Unit

  -- Whatever the state it is called in.
  abbrev pub Telling : RoomId → ℕ → Exec Error (Synced V) (Unit {0}) → Type 0
  Telling r n m = (s : Synced V) → Tells r n s (m s)

  pub Tells-then :
      (r : RoomId) (a b : ℕ) (n : Exec Error (Synced V) (Unit {0})) (s : Synced V)
      (q : Result Error (Unit {0}) × Synced V)
      → Tells r a s q
      → Telling r b n
      → Tells r (a + b) s (continue q.0 (λ _. n) q.1)
  unfolding Tells
  Tells-then r a b n s (ok u, t) h k = go (n t) (k t)
    where
      go : (p : Result Error (Unit {0}) × Synced V) → Tells r b t p → Tells r (a + b) s p
      go (ok v, x) e = e ∙ ap (add_to b) h ∙ add_to-add_to a b (told r s)
      go (err e, x) f = tt
  Tells-then r a b n s (err e, t) h k = tt

  pub Telling-then :
      (r : RoomId) (a b : ℕ) (m n : Exec Error (Synced V) (Unit {0}))
      → Telling r a m
      → Telling r b n
      → Telling r (a + b) (m >> n)
  Telling-then r a b m n h k s = Tells-then r a b n s (m s) (h s) k

  pub Tells-none :
      (r : RoomId) (s t : Synced V) (q : Result Error (Unit {0}))
      → told r t ≡ told r s
      → Tells r 0 s (q, t)
  unfolding Tells
  Tells-none r s t (ok u) h = h ∙ sym (add_to-zero (told r s))
  Tells-none r s t (err e) h = tt

  -- A call of the dispatch tells none.
  pub Telling-dispatched :
      (r : RoomId) (m : Exec V.JsonError (Dispatch V) (Unit {0})) → Telling r 0 (dispatched V m)
  Telling-dispatched r m s = Tells-none r s (dispatched V m s).1 (dispatched V m s).0 refl

  pub Telling-for_each :
      {A : Type 0} (r : RoomId) (k : A → ℕ) (body : A → Exec Error (Synced V) (Unit {0}))
      → ((x : A) → Telling r (k x) (body x))
      → (xs : List A) → Telling r (sum_of k xs) (for_each body xs)
  unfolding Tells
  Telling-for_each r k body h [] s = sym (add_to-zero (told r s))
  Telling-for_each r k body h (x ∷ xs) s =
      Tells-then r (k x) (sum_of k xs) (for_each body xs) s (body x s) (h x s)
        (Telling-for_each r k body h xs)

  pub notify_sync_gap-told :
      (r room_id : RoomId) (s : Synced V)
      → told r (notify_sync_gap V room_id s) ≡ add_to (once r room_id) (told r s)
  unfolding notify_sync_gap
  notify_sync_gap-told r room_id s =
      set_observable-told r room_id (told room_id s) s.sync_gap_broadcast_txs refl

  pub Telling-gap :
      (run_calls : Handlers V) (B : BaseClient V) (r room_id : RoomId) (limited : Bool)
      → Telling r (once_if r room_id limited) (gap V run_calls B limited room_id)
  unfolding Tells
  Telling-gap run_calls B r room_id true s = notify_sync_gap-told r room_id s
  Telling-gap run_calls B r room_id false s = sym (add_to-zero (told r s))

  pub Telling-with_room :
      (run_calls : Handlers V) (B : BaseClient V) (r room_id : RoomId)
      (body : Option V.Room → Exec Error (Synced V) (Unit {0}))
      → ((o : Option V.Room) → Telling r 0 (body o))
      → Telling r 0 (with_room V run_calls B room_id body)
  unfolding Tells
  Telling-with_room run_calls B r room_id body h s = go (B.get_room room_id s.dispatch.world)
    where
      go :
          (o : Option V.Room)
          → Tells r 0 s (elim o [ none ↦ (ok tt, s) | some room ↦ body (some room) s ])
      go none = sym (add_to-zero (told r s))
      go (some room) = h (some room) s
