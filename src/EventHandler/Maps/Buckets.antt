-- ===== src/EventHandler/Maps/Buckets.antt =====
-- One of the four maps of src/matrix/event_handler/maps.rs: a key holds the handlers registered
-- under it, in the order of registration.
use matrix_goose.Prelude.{
  ℕ, not, Option, none, some, ◌≡◌, refl, List, [], ◌∷◌, ◌++◌, arith, Eq, ◌==◌, num_eq,
  if◌then◌else◌, filter, is_empty, to_list,
}
use matrix_goose.Map.{Map, lookup, insert, erase, lookup-insert, lookup-erase}
use matrix_goose.EventHandler.Defs.{EventHandlerWrapper}

-- `v.retain(|e| e.handler_id != handler_id)`
abbrev pub retain : {F : Type 0} → ℕ → List (EventHandlerWrapper F) → List (EventHandlerWrapper F)
retain n = filter (λ w. not (w.handler_id == n))

module _ {F K : Type 0} ⦃e : Eq K⦄ where
  -- `map.get_key_value(&key)`, with no handlers where there is no entry.
  unfoldable pub handlers : K → Map K (List (EventHandlerWrapper F)) → List (EventHandlerWrapper F)
  handlers k m = to_list (lookup k m)

  -- `map.entry(key).or_default().push(wrapper)`
  unfoldable pub push_handler :
      K
      → EventHandlerWrapper F
      → Map K (List (EventHandlerWrapper F))
      → Map K (List (EventHandlerWrapper F))
  push_handler k w m = insert k (to_list (lookup k m) ++ w ∷ []) m

  -- `o.remove()` where the list has become empty
  put_back :
      K
      → List (EventHandlerWrapper F)
      → Map K (List (EventHandlerWrapper F))
      → Map K (List (EventHandlerWrapper F))
  put_back k v m = if is_empty v then erase k m else insert k v m

  remove_occupied :
      K
      → ℕ
      → Option (List (EventHandlerWrapper F))
      → Map K (List (EventHandlerWrapper F))
      → Map K (List (EventHandlerWrapper F))
  remove_occupied k n none m = m
  remove_occupied k n (some v) m = put_back k (retain n v) m

  unfoldable pub remove_entry :
      K → ℕ → Map K (List (EventHandlerWrapper F)) → Map K (List (EventHandlerWrapper F))
  unfolding remove_occupied put_back
  remove_entry k n m = remove_occupied k n (lookup k m) m

  pub handlers-push_handler :
      (j k : K) (w : EventHandlerWrapper F) (m : Map K (List (EventHandlerWrapper F)))
      → handlers j (push_handler k w m) ≡ (if k == j then handlers j m ++ w ∷ [] else handlers j m)
  unfolding handlers push_handler
  handlers-push_handler j k w m =
      ground (arith, lookup-insert j k (to_list (lookup k m) ++ w ∷ []) m, e.beq_iff k j)

  handlers-remove_occupied :
      (j k : K) (n : ℕ) (o : Option (List (EventHandlerWrapper F)))
      (m : Map K (List (EventHandlerWrapper F)))
      → lookup k m ≡ o
      → handlers j (remove_occupied k n o m)
        ≡ (if k == j then retain n (handlers j m) else handlers j m)
  unfolding handlers remove_entry
  handlers-remove_occupied j k n none m h = ground (arith, e.beq_iff k j)
  handlers-remove_occupied j k n (some v) m h =
      ground (arith, e.beq_iff k j, lookup-erase j k m, lookup-insert j k (retain n v) m)

  -- Removal takes one id out of the list of its key, and leaves every other key alone.
  pub handlers-remove_entry :
      (j k : K) (n : ℕ) (m : Map K (List (EventHandlerWrapper F)))
      → handlers j (remove_entry k n m) ≡ (if k == j then retain n (handlers j m) else handlers j m)
  unfolding remove_entry
  handlers-remove_entry j k n m = handlers-remove_occupied j k n (lookup k m) m refl
