-- ===== src/Room/Common/Messages/Actions.antt =====
-- What `messages` makes of the server's answer (src/matrix/room/common.rs).
use matrix_goose.Prelude.{
  subst, sym, min, ◌-◌, ◌^◌, ◌≡◌, refl, ap, ◌⊎◌, inl, inr, Option, none, some, String, List, [],
  ◌∷◌, map,
}
use matrix_goose.Exec.{Result, ok, err}
use matrix_goose.Error.{Error, HttpResult, HttpError, http}
use matrix_goose.Account.{UserId}
use matrix_goose.Account.Rules.{push_rules, or_default, as_result, rules_of}
use matrix_goose.Room.Common.Messages.{
  MessagesOptions, PushContext, TimelineEvent, Messages, MessagesClient, MessagesAnswer, new_event,
  context_with, context_for, context_of, push_context, acted, ruled, in_context, plain_messages,
  messages_of, messages,
}

module _ {W : Type 0} (C : MessagesClient W) where
  -- The base client does not know the own member, or there are no power levels that can be read. The
  -- reading leaves the second world.
  abbrev Levelless : Option C.PowerEvent → Type 0
  Levelless none = Unit
  Levelless (some e) = C.power_levels e ≡ none

  abbrev pub LacksContext : W → W → Type 0
  LacksContext v w =
      (C.get_member_no_sync C.room_id C.own_user_id v ≡ (ok none, w))
      ⊎ ((name : String) × (x : W) × (o : Option C.PowerEvent) × (C.get_member_no_sync C.room_id
              C.own_user_id v
            ≡ (ok (some name), x))
          × (C.power_event C.room_id x ≡ (ok o, w))
          × Levelless o)

  -- The context is that of this room and the own user, with the name and the levels that are read, and
  -- the count of members, if it fits.
  abbrev pub HasContext : W → PushContext C.Levels → W → Type 0
  HasContext v ctx w =
      (name : String) × (x : W) × (e : C.PowerEvent) × (l : C.Levels) × (C.get_member_no_sync
          C.room_id C.own_user_id v
        ≡ (ok (some name), x))
      × (C.power_event C.room_id x ≡ (ok (some e), w))
      × (C.power_levels e ≡ some l)
      × (ctx ≡ record {
        user_id = C.own_user_id;
        room_id = C.room_id;
        member_count = min (C.active_members_count v) (2 ^ 53 - 1);
        user_display_name = name;
        levels = l;
      })

  -- Rules that are stored and can be read, or the server's default ones for the user.
  abbrev pub Chosen : Option C.rules.Raw → Option UserId → C.Ruleset → Type 0
  Chosen none none rules = ⊥
  Chosen none (some user) rules = rules ≡ C.server_default user
  Chosen (some raw) user rules =
      (C.rules.deserialize raw ≡ some rules)
      ⊎ ((u : UserId) × (C.rules.deserialize raw ≡ none)
          × (user ≡ some u)
          × (rules ≡ C.server_default u))

  abbrev pub HasRules : W → C.Ruleset → W → Type 0
  HasRules v rules w =
      (o : Option C.rules.Raw) × (C.rules.stored v ≡ (ok o, w)) × Chosen o (C.rules.user_id w) rules

  abbrev Unread : Option C.rules.Raw → Type 0
  Unread none = Unit
  Unread (some raw) = C.rules.deserialize raw ≡ none

  -- No stored rules can be read, and the client is not logged in.
  abbrev pub LacksRules : W → W → Type 0
  LacksRules v w =
      (o : Option C.rules.Raw) × (C.rules.stored v ≡ (ok o, w))
      × Unread o
      × (C.rules.user_id w ≡ none)

  -- The error of reading the own member or the power levels.
  abbrev pub FailsContext : W → Error → W → Type 0
  FailsContext v e w =
      (C.get_member_no_sync C.room_id C.own_user_id v ≡ (err e, w))
      ⊎ ((name : String) × (x : W) × (C.get_member_no_sync C.room_id C.own_user_id v
            ≡ (ok (some name), x))
          × (C.power_event C.room_id x ≡ (err e, w)))

  -- The error of reading the rules.
  abbrev pub FailsRules : W → Error → W → Type 0
  FailsRules v e w =
      (ctx : PushContext C.Levels) × (u : W) × HasContext v ctx u × (C.rules.stored u ≡ (err e, w))

  abbrev pub without_actions : C.Raw → TimelineEvent C.Raw C.Action
  without_actions e = record { event = e; push_actions = [] }

  abbrev pub with_actions_of :
      C.Ruleset → PushContext C.Levels → C.Raw → TimelineEvent C.Raw C.Action
  with_actions_of rules ctx e = record { event = e; push_actions = C.get_actions rules e ctx }

  abbrev pub Actions : W → List C.Raw → List (TimelineEvent C.Raw C.Action) → W → Type 0
  Actions v raws chunk w =
      (LacksContext v w × (chunk ≡ map without_actions raws))
      ⊎ ((ctx : PushContext C.Levels) × (u : W) × (rules : C.Ruleset) × HasContext v ctx u
          × HasRules u rules w
          × (chunk ≡ map (with_actions_of rules ctx) raws))

  abbrev pub Annotated : MessagesOptions C.Filter → W → MessagesAnswer C → Type 0
  Annotated options w (none, w') =
      (s : Messages C.Raw C.State) × (v : W) × (ctx : PushContext C.Levels) × (u : W)
      × (C.send_messages C.room_id options w ≡ (ok s, v))
      × HasContext v ctx u
      × LacksRules u w'
  Annotated options w (some (err e), w') =
      ((x : HttpError) × (C.send_messages C.room_id options w ≡ (err x, w')) × (e ≡ http x))
      ⊎ ((s : Messages C.Raw C.State) × (v : W) × (C.send_messages C.room_id options w ≡ (ok s, v))
          × (FailsContext v e w' ⊎ FailsRules v e w'))
  Annotated options w (some (ok m), w') =
      (s : Messages C.Raw C.State) × (v : W) × (C.send_messages C.room_id options w ≡ (ok s, v))
      × (m.start ≡ s.start)
      × (m.end ≡ s.end)
      × (m.state ≡ s.state)
      × Actions v s.chunk m.chunk w'

  abbrev Fits : W → Result Error (Option (PushContext C.Levels)) × W → Type 0
  Fits v (err e, w) = FailsContext v e w
  Fits v (ok none, w) = LacksContext v w
  Fits v (ok (some ctx), w) = HasContext v ctx w

  context_with-Fits :
      (v x w : W) (name : String) (e : C.PowerEvent) (o : Option C.Levels)
      → C.get_member_no_sync C.room_id C.own_user_id v ≡ (ok (some name), x)
      → C.power_event C.room_id x ≡ (ok (some e), w)
      → C.power_levels e ≡ o
      → Fits v (ok (context_with C (C.active_members_count v) name o), w)
  context_with-Fits v x w name e none g p l = inr (name, x, some e, g, p, l)
  context_with-Fits v x w name e (some ls) g p l = (name, x, e, ls, g, p, l, refl)

  context_for-Fits :
      (v x : W) (name : String) (q : Result Error (Option C.PowerEvent) × W)
      → C.get_member_no_sync C.room_id C.own_user_id v ≡ (ok (some name), x)
      → C.power_event C.room_id x ≡ q
      → Fits v (context_for C (C.active_members_count v) name q)
  context_for-Fits v x name (err e, w) g p = inr (name, x, g, p)
  context_for-Fits v x name (ok none, w) g p = inr (name, x, none, g, p, tt)
  context_for-Fits v x name (ok (some e), w) g p =
      context_with-Fits v x w name e (C.power_levels e) g p refl

  context_of-Fits :
      (v : W) (q : Result Error (Option String) × W)
      → C.get_member_no_sync C.room_id C.own_user_id v ≡ q
      → Fits v (context_of C (C.active_members_count v) q)
  context_of-Fits v (err e, w) g = inl g
  context_of-Fits v (ok none, w) g = inl g
  context_of-Fits v (ok (some name), x) g = context_for-Fits v x name _ g refl

  abbrev Ruled : W → Option (Result Error C.Ruleset) × W → Type 0
  Ruled v (none, w) = LacksRules v w
  Ruled v (some (err e), w) = C.rules.stored v ≡ (err e, w)
  Ruled v (some (ok rules), w) = HasRules v rules w

  default-Ruled :
      (v w : W) (user : Option UserId)
      → C.rules.stored v ≡ (ok none, w)
      → C.rules.user_id w ≡ user
      → Ruled v
          (as_result C.rules C.server_default (or_default C.rules C.server_default none user), w)
  default-Ruled v w none e u = (none, e, tt, u)
  default-Ruled v w (some user) e u =
      (none, e, subst (λ x. Chosen none x (C.server_default user)) (sym u) refl)

  unread-Ruled :
      (v w : W) (raw : C.rules.Raw) (user : Option UserId)
      → C.rules.stored v ≡ (ok (some raw), w)
      → C.rules.deserialize raw ≡ none
      → C.rules.user_id w ≡ user
      → Ruled v
          (as_result C.rules C.server_default (or_default C.rules C.server_default none user), w)
  unread-Ruled v w raw none e d u = (some raw, e, d, u)
  unread-Ruled v w raw (some user) e d u = (some raw, e, inr (user, d, u, refl))

  read-Ruled :
      (v w : W) (raw : C.rules.Raw) (o : Option C.Ruleset)
      → C.rules.stored v ≡ (ok (some raw), w)
      → C.rules.deserialize raw ≡ o
      → Ruled v (
        as_result C.rules C.server_default
            (or_default C.rules C.server_default o (C.rules.user_id w)),
        w,
      )
  read-Ruled v w raw none e d = unread-Ruled v w raw (C.rules.user_id w) e d refl
  read-Ruled v w raw (some rules) e d = (some raw, e, inl d)

  rules_of-Ruled :
      (v : W) (q : Result Error (Option C.rules.Raw) × W)
      → C.rules.stored v ≡ q
      → Ruled v (rules_of C.rules C.server_default q)
  rules_of-Ruled v (err x, w) e = e
  rules_of-Ruled v (ok none, w) e = default-Ruled v w (C.rules.user_id w) e refl
  rules_of-Ruled v (ok (some raw), w) e = read-Ruled v w raw (C.rules.deserialize raw) e refl

  acted-new :
      (rules : C.Ruleset) (ctx : PushContext C.Levels) (raws : List C.Raw)
      → map (acted C rules ctx) (map (new_event C) raws) ≡ map (with_actions_of rules ctx) raws
  acted-new rules ctx [] = refl
  acted-new rules ctx (r ∷ raws) =
      ap (λ z. with_actions_of rules ctx r ∷ z) (acted-new rules ctx raws)

  ruled-Annotated :
      (options : MessagesOptions C.Filter) (w v u : W) (s : Messages C.Raw C.State)
      (ctx : PushContext C.Levels) (q : Option (Result Error C.Ruleset) × W)
      → C.send_messages C.room_id options w ≡ (ok s, v)
      → HasContext v ctx u
      → Ruled u q
      → Annotated options w (ruled C ctx (plain_messages C s) q)
  ruled-Annotated options w v u s ctx (none, w') e h r = (s, v, ctx, u, e, h, r)
  ruled-Annotated options w v u s ctx (some (err x), w') e h r = inr (s, v, e, inr (ctx, u, h, r))
  ruled-Annotated options w v u s ctx (some (ok rules), w') e h r =
      (s, v, e, refl, refl, refl, inr (ctx, u, rules, h, r, acted-new rules ctx s.chunk))

  in_context-Annotated :
      (options : MessagesOptions C.Filter) (w v : W) (s : Messages C.Raw C.State)
      (q : Result Error (Option (PushContext C.Levels)) × W)
      → C.send_messages C.room_id options w ≡ (ok s, v)
      → Fits v q
      → Annotated options w (in_context C (plain_messages C s) q)
  unfolding push_rules
  in_context-Annotated options w v s (err x, w') e h = inr (s, v, e, inl h)
  in_context-Annotated options w v s (ok none, w') e h = (s, v, e, refl, refl, refl, inl (h, refl))
  in_context-Annotated options w v s (ok (some ctx), u) e h =
      ruled-Annotated options w v u s ctx _ e h (rules_of-Ruled u _ refl)

  messages_of-Annotated :
      (options : MessagesOptions C.Filter) (w : W) (q : HttpResult (Messages C.Raw C.State) × W)
      → C.send_messages C.room_id options w ≡ q
      → Annotated options w (messages_of C q)
  unfolding push_context
  messages_of-Annotated options w (err x, v) e = inl (x, e, refl)
  messages_of-Annotated options w (ok s, v) e =
      in_context-Annotated options w v s _ e (context_of-Fits v _ refl)

  -- Messages that `messages` answers are those of the server, in order, with its tokens and state. If
  -- the base client knows the own member of the room, and there are power levels that can be read, then
  -- each has the push actions for the context of this room, the own user, its name, those levels, and
  -- the count of members cut to 2^53 - 1, by the rules that are stored, or by the server's default
  -- rules of the user if none can be read. Otherwise none has push actions. An error is that of the
  -- request, of reading the own member or the power levels, or of reading the rules; and it panics only
  -- if there are no rules to read and the client is not logged in.
  pub messages-Annotated :
      (options : MessagesOptions C.Filter) (w : W) → Annotated options w (messages C options w)
  unfolding messages
  messages-Annotated options w = messages_of-Annotated options w _ refl
