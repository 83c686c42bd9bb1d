-- ===== src/EventHandler/Dispatch/Plan.antt =====
-- The rounds of handlers that a batch of events of src/matrix/event_handler/mod.rs is turned into,
-- read off the events alone.
use mathlib.Core.List.{foldl, foldl-append}
use mathlib.Core.Path.{fun_ext}
use mathlib.Core.Option
use matrix_goose.EventHandler.Maps.{get_handlers}
use matrix_goose.EventHandler.Store.{EventHandlerStore}
use matrix_goose.Prelude.{
  ◌≡◌, refl, sym, List, [], ◌∷◌, ◌++◌, Option, none, ◌∙◌, ap, String, Bool, true, false, map,
}
use matrix_goose.Exec.{Result, ok, err, Exec, modify, lift, for_each, continue, ◌>>=◌}
use matrix_goose.EventHandler.Defs.{
  HandlerKind, state, original_state, redacted_state, message_like, original_message_like,
  redacted_message_like, timeline, state_redacted, message_like_redacted,
}
use matrix_goose.EventHandler.Dispatch.{
  Env, Call, Round, round_calls, Dispatch, Handlers, SyncTimelineEvent, call_event_handlers,
  handle_sync_events, handle_redaction_kinds, handle_sync_state_events, handle_sync_timeline_events,
  kinds,
}

module _ {E X D : Type 0} (parse : X → Result E D) where
  -- The inputs before the first one that does not parse, with what was read in them.
  abbrev pub parsed : List X → List (X × D)
  parsed [] = []
  parsed (x ∷ xs) = elim (parse x) [ ok d ↦ (x, d) ∷ parsed xs | err e ↦ [] ]

  -- The first error.
  abbrev pub outcome : List X → Result E (Unit {0})
  outcome [] = ok tt
  outcome (x ∷ xs) = elim (parse x) [ ok d ↦ outcome xs | err e ↦ err e ]

  module _ {S : Type 0} (body : X → D → S → S) where
    abbrev pub each : X → Exec E S (Unit {0})
    each x = lift (parse x) >>= λ d. modify (body x d)

    abbrev pub apply_all : List (X × D) → S → S
    apply_all ps s = foldl (λ t p. body p.0 p.1 t) s ps

    pub for_each-parsed :
        (xs : List X) (s : S) → for_each each xs s ≡ (outcome xs, apply_all (parsed xs) s)
    for_each-parsed [] s = refl
    for_each-parsed (x ∷ xs) s = go (parse x) (λ d. for_each-parsed xs (body x d s))
      where
        go :
            (r : Result E D)
            → ((d : D)
                → for_each each xs (body x d s) ≡ (outcome xs, apply_all (parsed xs) (body x d s)))
            → let q = continue r (λ d. modify (body x d)) s in
              continue q.0 (λ _. for_each each xs) q.1 ≡ (
                elim r [ ok d ↦ outcome xs | err e ↦ err e ],
                apply_all (elim r [ ok d ↦ (x, d) ∷ parsed xs | err e ↦ [] ]) s,
              )
        go (ok d) ih = ih d
        go (err e) ih = refl

-- `Iterator::flat_map`
abbrev pub flat_map : {A B : Type 0} → (A → List B) → List A → List B
flat_map f [] = []
flat_map f (x ∷ xs) = f x ++ flat_map f xs

module _ (V : Env) (run_calls : Handlers V) where
  open V use {Room, Raw, JsonError}

  -- The calls of a round: one for each handler that the maps hold for its event, with what came with
  -- the event.
  abbrev pub calls_of : Round V → EventHandlerStore V.F → List (Call V)
  calls_of q s =
      map
        (λ (h, f). record {
          handler_fn = f;
          handle = h;
          room = q.room;
          raw = q.raw;
          encryption_info = q.encryption_info;
          push_actions = q.push_actions;
        })
        (get_handlers q.event_kind q.event_type (Option.map V.room_id q.room) s.handlers)

  -- A round makes its calls, and leaves what they leave.
  abbrev pub after_round : Round V → Dispatch V → Dispatch V
  after_round q s = record {
    store = (run_calls (calls_of q s.store) (s.store, s.world)).0;
    world = (run_calls (calls_of q s.store) (s.store, s.world)).1;
    calls = s.calls ++ calls_of q s.store;
  }

  -- Rounds of handlers, one after the other.
  abbrev pub run_rounds : List (Round V) → Dispatch V → Dispatch V
  run_rounds qs s = foldl (λ t q. after_round q t) s qs

  pub run_rounds-flat_map :
      {A : Type 0} (f : A → List (Round V)) (xs : List A) (s : Dispatch V)
      → run_rounds (flat_map f xs) s ≡ foldl (λ t x. run_rounds (f x) t) s xs
  run_rounds-flat_map f [] s = refl
  run_rounds-flat_map f (x ∷ xs) s =
      foldl-append _ s (f x) (flat_map f xs) ∙ run_rounds-flat_map f xs (run_rounds (f x) s)

  abbrev pub plain_round : HandlerKind → Option Room → Raw → String → Round V
  plain_round k room raw t = record {
    event_kind = k;
    event_type = t;
    room = room;
    raw = raw;
    encryption_info = none;
    push_actions = [];
  }

  abbrev TimelineDetails : Type 0
  TimelineDetails = record { event_type : String; has_state_key : Bool; redacted : Bool }

  -- The kinds of the three rounds of an event: state or message-like, the same with whether it was
  -- redacted, and the kind of all events of timelines.
  abbrev pub timeline_kinds : Bool → Bool → List HandlerKind
  timeline_kinds true true = state ∷ redacted_state ∷ timeline ∷ []
  timeline_kinds true false = state ∷ original_state ∷ timeline ∷ []
  timeline_kinds false true = message_like ∷ redacted_message_like ∷ timeline ∷ []
  timeline_kinds false false = message_like ∷ original_message_like ∷ timeline ∷ []

  kinds_lem :
      (has_state_key redacted : Bool)
      → ((kinds has_state_key redacted).0 ∷ (kinds has_state_key redacted).1 ∷ timeline ∷ [])
        ≡ timeline_kinds has_state_key redacted
  unfolding state_redacted message_like_redacted
  kinds_lem true true = refl
  kinds_lem true false = refl
  kinds_lem false true = refl
  kinds_lem false false = refl

  abbrev pub rounds_for :
      List HandlerKind → Option Room → SyncTimelineEvent V × TimelineDetails → List (Round V)
  rounds_for ks room (item, d) =
      map
        (λ k. record {
          event_kind = k;
          event_type = d.event_type;
          room = room;
          raw = item.event;
          encryption_info = item.encryption_info;
          push_actions = item.push_actions;
        })
        ks

  -- The rounds of an event of a timeline.
  abbrev pub timeline_rounds : Option Room → SyncTimelineEvent V × TimelineDetails → List (Round V)
  timeline_rounds room p = rounds_for (timeline_kinds p.1.has_state_key p.1.redacted) room p

  abbrev pub kinds_rounds : Option Room → SyncTimelineEvent V × TimelineDetails → List (Round V)
  kinds_rounds room p =
      rounds_for
        ((kinds p.1.has_state_key p.1.redacted).0
          ∷ (kinds p.1.has_state_key p.1.redacted).1
          ∷ timeline
          ∷ [])
        room p

  pub kinds_rounds_lem :
      (room : Option Room) (p : SyncTimelineEvent V × TimelineDetails)
      → kinds_rounds room p ≡ timeline_rounds room p
  kinds_rounds_lem room p =
      ap (λ ks. rounds_for ks room p) (kinds_lem p.1.has_state_key p.1.redacted)

  abbrev pub timeline_parse :
      SyncTimelineEvent V
      → Result JsonError (record { event_type : String; has_state_key : Bool; redacted : Bool })
  timeline_parse item = V.timeline_details item.event

  -- Every event of a timeline that stands before the first malformed one gets its three rounds, in
  -- the order of the timeline, and the answer is the error of the first malformed one, if any.
  pub handle_sync_timeline_events_lem :
      (room : Option Room) (items : List (SyncTimelineEvent V)) (s : Dispatch V)
      → handle_sync_timeline_events V run_calls room items s ≡ (
        outcome timeline_parse items,
        run_rounds (flat_map (timeline_rounds room) (parsed timeline_parse items)) s,
      )
  unfolding handle_sync_timeline_events call_event_handlers round_calls
  handle_sync_timeline_events_lem room items s =
      for_each-parsed timeline_parse (λ item d t. run_rounds (kinds_rounds room (item, d)) t) items
        s
      ∙ ap (λ t. (outcome timeline_parse items, t))
          (sym (run_rounds-flat_map (kinds_rounds room) (parsed timeline_parse items) s))
      ∙ ap
          (λ f.
            (outcome timeline_parse items, run_rounds (flat_map f (parsed timeline_parse items)) s))
          (fun_ext (kinds_rounds_lem room))

  abbrev pub state_round : Option Room → Raw × String → Round V
  state_round room (raw, t) = plain_round state room raw t

  abbrev pub redaction_round : Option Room → Raw × (String × Bool) → Round V
  redaction_round room (raw, d) = plain_round (state_redacted d.1) room raw d.0

  -- The second pass is made only if the first read all the events.
  abbrev pub second_pass : Result JsonError (Unit {0}) → Option Room → List Raw → List (Round V)
  second_pass (ok _) room events = map (redaction_round room) (parsed V.state_details events)
  second_pass (err e) room events = []

  abbrev pub state_rounds : Option Room → List Raw → List (Round V)
  state_rounds room events =
      map (state_round room) (parsed V.extract_type events)
      ++ second_pass (outcome V.extract_type events) room events

  abbrev pub state_outcome : List Raw → Result JsonError (Unit {0})
  state_outcome events = elim (outcome V.extract_type events) [
    | ok _ ↦ outcome V.state_details events
    | err e ↦ err e
  ]

  pub run_rounds-map :
      {A : Type 0} (f : A → Round V) (xs : List A) (s : Dispatch V)
      → run_rounds (map f xs) s ≡ foldl (λ t x. after_round (f x) t) s xs
  run_rounds-map f [] s = refl
  run_rounds-map f (x ∷ xs) s = run_rounds-map f xs _

  abbrev pub kind_round : HandlerKind → Option Room → Raw × String → Round V
  kind_round k room (raw, t) = plain_round k room raw t

  -- Events of one kind get one round each, up to the first malformed one.
  pub handle_sync_events_lem :
      (k : HandlerKind) (room : Option Room) (events : List Raw) (s : Dispatch V)
      → handle_sync_events V run_calls k room events s ≡ (
        outcome V.extract_type events,
        run_rounds (map (kind_round k room) (parsed V.extract_type events)) s,
      )
  unfolding handle_sync_events call_event_handlers round_calls
  handle_sync_events_lem k room events s =
      for_each-parsed V.extract_type (λ raw t. after_round (kind_round k room (raw, t))) events s
      ∙ ap (λ t. (outcome V.extract_type events, t))
          (sym (run_rounds-map (kind_round k room) (parsed V.extract_type events) s))

  second_pass_lem :
      (room : Option Room) (events : List Raw) (s : Dispatch V)
      → handle_redaction_kinds V run_calls room events s ≡ (
        outcome V.state_details events,
        run_rounds (map (redaction_round room) (parsed V.state_details events)) s,
      )
  unfolding handle_redaction_kinds call_event_handlers round_calls
  second_pass_lem room events s =
      for_each-parsed V.state_details (λ raw d. after_round (redaction_round room (raw, d))) events
        s
      ∙ ap (λ t. (outcome V.state_details events, t))
          (sym (run_rounds-map (redaction_round room) (parsed V.state_details events) s))

  -- The state events of a room go to the handlers of all state events first, up to the first event
  -- with no type. Only if each has one do they go, up to the first malformed one, to the handlers
  -- that ask for redacted or for original state events. The answer is the first error met.
  pub handle_sync_state_events_lem :
      (room : Option Room) (events : List Raw) (s : Dispatch V)
      → handle_sync_state_events V run_calls room events s
        ≡ (state_outcome events, run_rounds (state_rounds room events) s)
  unfolding handle_sync_state_events
  handle_sync_state_events_lem room events s =
      ap (λ p. continue p.0 (λ _. handle_redaction_kinds V run_calls room events) p.1)
        (handle_sync_events_lem state room events s)
      ∙ go (outcome V.extract_type events)
    where
      firsts : List (Round V)
      firsts = map (state_round room) (parsed V.extract_type events)

      go :
          (r : Result JsonError (Unit {0}))
          → continue r (λ _. handle_redaction_kinds V run_calls room events) (run_rounds firsts s)
            ≡ (
              elim r [ ok _ ↦ outcome V.state_details events | err e ↦ err e ],
              run_rounds (firsts ++ second_pass r room events) s,
            )
      go (ok u) =
          second_pass_lem room events (run_rounds firsts s)
          ∙ ap (λ t. (outcome V.state_details events, t))
              (sym (foldl-append _ s firsts (second_pass (ok u) room events)))
      go (err e) = ap (λ t. (err e, t)) (sym (foldl-append _ s firsts []))
