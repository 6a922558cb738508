-- ===== src/Bot/Followup.antt =====
-- Follow-ups in a thread of the bot (`resolve_followup` of src/main.rs).
use webex_generic_account_bo.Base.{
  max, Bool, true, false, ◌&&◌, ◌||◌, not, Option, none, some, List, [], ◌∷◌, ◌++◌, Result, ok, err,
  any, take, is_some, is_some_and, is_empty, if◌then◌else◌,
}
use webex_generic_account_bo.Text.{Text, text, text_eq, contains_text, is_some_text}
use webex_generic_account_bo.Config.{
  RoomPolicy, FollowupTrigger, on_mention, quoted_bot_reply, followup_marker_search_max_messages,
  attempt_lease,
}
use webex_generic_account_bo.Policy.{
  MessageContext, from_message, sender_allowed, sender_listed, message_matches_prefix,
}
use webex_generic_account_bo.Markers.{message_contains_marker, marker_message_ids, source_marker}
use webex_generic_account_bo.Thread.{render_thread_context, sort_by_created}
use webex_generic_account_bo.Webex.{Message, WebexCallError, webex_call_is_not_found}
use webex_generic_account_bo.Bot.Monad.{fetched, listed, App, M, ◌>>=◌, done, call}
use webex_generic_account_bo.Bot.Failures.{ReplyThread, find_existing_message_by_marker}
use webex_generic_account_bo.Bot.Threads.{source_marker_search_max_pages}

pub record FollowupRun : Type 0 where
  pub reply_thread : ReplyThread
  pub source_context : MessageContext
  pub thread_context : Text

unfoldable pub followup_sender_allowed : RoomPolicy → Message → Bool
followup_sender_allowed p m =
    if p.followup.allow_all_senders
    then true
    else if is_empty p.followup.allowed_person_ids && is_empty p.followup.allowed_person_emails
    then sender_allowed p m
    else sender_listed p.followup.allowed_person_ids p.followup.allowed_person_emails m

unfoldable pub followup_trigger_matches :
    RoomPolicy → Message → Option Text → FollowupTrigger → Bool
followup_trigger_matches p m self_id on_mention =
    is_some_and (λ s. contains_text s m.mentioned_people) self_id
    || message_matches_prefix m p.prefixes
followup_trigger_matches p m self_id quoted_bot_reply = message_contains_marker m (text "wgb-ref:")

unfoldable pub followup_candidate_matches : RoomPolicy → Message → Option Text → Bool
unfolding followup_sender_allowed followup_trigger_matches
followup_candidate_matches p m self_id =
    is_some m.parent_id
    && followup_sender_allowed p m
    && any (followup_trigger_matches p m self_id) p.followup.triggers

-- `left.id == right.id`.
unfoldable pub same_id : Option Text → Option Text → Bool
same_id none none = true
same_id (some s) (some t) = text_eq s t
same_id _ _ = false

-- The IDs in the markers of the replies, but for those of the current message.
unfoldable pub thread_marker_ids : Option Text → Option Text → List Message → List Text
unfolding same_id
thread_marker_ids current self_id [] = []
thread_marker_ids current self_id (m ∷ ms) =
    let rest = thread_marker_ids current self_id ms in
    if same_id m.id current then rest else marker_message_ids m (text "wgb-ref:") self_id ++ rest

abbrev first : List Text → Option Text
first [] = none
first (s ∷ ss) = some s

unfoldable pub followup_source_message_id :
    Message → List Message → Message → Option Text → Option Text
unfolding thread_marker_ids
followup_source_message_id root thread current self_id = first (
    (if message_contains_marker root (text "wgb-source-ref:")
      then []
      else marker_message_ids root (text "wgb-ref:") self_id)
    ++ thread_marker_ids current.id self_id (sort_by_created thread))

-- A `Result<Option<A>, WebexCallError>` of a step of `resolve_followup`.
abbrev pub Found : Type 0 → Type 0
Found A = Result WebexCallError (Option A)

-- A fetched message; one that is not there ends the search without an error.
abbrev pub of_fetch : Result WebexCallError Message → Found Message
of_fetch (ok m) = ok (some m)
of_fetch (err e) = if webex_call_is_not_found e then ok none else err e

-- The next step, where the one before found something.
abbrev pub when_found : {A B : Type 0} → Found A → (A → M (Found B)) → M (Found B)
when_found (ok (some a)) f = f a
when_found (ok none) f = done (ok none)
when_found (err e) f = done (err e)

module _ (app : App) where
  unfoldable pub fetch_message : Text → M (Found Message)
  fetch_message message_id = do
    outcome ← call (fetched message_id) (λ h. app.webex_message h message_id)
    done (of_fetch outcome)

  -- The source message: the root itself, or a message that is fetched.
  unfoldable pub fetch_source : Message → Text → M (Found Message)
  unfolding fetch_message
  fetch_source root source_id =
      if is_some_text source_id root.id then done (ok (some root)) else fetch_message source_id

  unfoldable pub is_read_only_event : RoomPolicy → Text → Bool
  is_read_only_event p event_room_id = text_eq event_room_id p.room_id && p.read_only_source

  -- The thread of the forwarded copy, by its ID.
  unfoldable pub forward_thread : Text → Option Text → M (Found ReplyThread)
  forward_thread output_room_id (some parent_id) =
      done (ok (some (record { room_id = output_room_id; parent_id = parent_id })))
  forward_thread output_room_id none = done (ok none)

  -- The parent for the replies in the output room: the forwarded copy of the source message.
  unfoldable pub followup_forward : Message → MessageContext → Text → M (Found ReplyThread)
  unfolding find_existing_message_by_marker source_marker_search_max_pages
  followup_forward source context output_room_id = do
    pages ← source_marker_search_max_pages app source (attempt_lease app.config.server)
    found ←
        find_existing_message_by_marker app output_room_id none (source_marker context.message_id)
          pages
    when_found found λ forward. forward_thread output_room_id forward.id

  -- The thread for the replies to an event in the read-only source room.
  unfoldable pub followup_output : Message → MessageContext → Option Text → M (Found ReplyThread)
  followup_output source context (some output_room_id) =
      followup_forward source context output_room_id
  followup_output source context none = done (ok none)

  unfoldable pub followup_reply_thread :
      RoomPolicy → Text → Text → Message → MessageContext → M (Found ReplyThread)
  unfolding is_read_only_event
  followup_reply_thread p event_room_id parent_id source context =
      if is_read_only_event p event_room_id
      then followup_output source context p.output_room_id
      else done (ok (some (record { room_id = event_room_id; parent_id = parent_id })))

  -- The ID of the source message.
  unfoldable pub followup_source_id :
      RoomPolicy → Text → Text → Message → List Message → Message → Option Text
  unfolding is_read_only_event
  followup_source_id p event_room_id parent_id root thread m =
      if is_read_only_event p event_room_id && is_some p.output_room_id
      then some parent_id
      else followup_source_message_id root thread m app.self_person_id

  -- The context of a message, if that is in the room of the policy.
  unfoldable pub keep_in_room : RoomPolicy → Option MessageContext → Option MessageContext
  keep_in_room p (some c) = if text_eq c.room_id p.room_id then some c else none
  keep_in_room p none = none

  -- The thread, with the current message in it.
  unfoldable pub with_current : List Message → Message → Text → List Message
  with_current thread m message_id =
      if any (λ t. is_some_text message_id t.id) thread then thread else thread ++ m ∷ []

  -- From the context of the source message on.
  unfoldable pub finish_followup :
      RoomPolicy
      → Message
      → Text
      → Text
      → Text
      → List Message
      → Message
      → Option MessageContext
      → M (Found FollowupRun)
  finish_followup p root message_id event_room_id parent_id thread source none = done (ok none)
  finish_followup p root message_id event_room_id parent_id thread source (some context) = do
    target ← followup_reply_thread p event_room_id parent_id source context
    when_found target λ reply_thread. done (
        ok (
          some (record {
            reply_thread = reply_thread;
            source_context = context;
            thread_context =
                render_thread_context app.format_time root
                  (take p.followup.max_thread_messages thread) message_id app.self_person_id
                  p.followup.max_thread_context_chars;
          })))

  -- From the ID of the source message on.
  unfoldable pub followup_from_source :
      RoomPolicy → Message → Text → Text → Text → List Message → Option Text → M (Found FollowupRun)
  unfolding keep_in_room
  followup_from_source p root message_id event_room_id parent_id thread none = done (ok none)
  followup_from_source p root message_id event_room_id parent_id thread (some source_id) = do
    found ← fetch_source root source_id
    when_found found λ source.
        finish_followup p root message_id event_room_id parent_id thread source
          (keep_in_room p (from_message source))

  -- From the listed messages of the thread on.
  unfoldable pub followup_listed :
      RoomPolicy
      → Message
      → Text
      → Text
      → Text
      → Message
      → Result WebexCallError (List Message)
      → M (Found FollowupRun)
  unfolding with_current followup_source_id
  followup_listed p m message_id event_room_id parent_id root (err e) = done (err e)
  followup_listed p m message_id event_room_id parent_id root (ok messages) =
      let thread = with_current messages m message_id in
      followup_from_source p root message_id event_room_id parent_id thread
        (followup_source_id p event_room_id parent_id root thread m)

  -- From the root message on.
  unfoldable pub followup_in_thread :
      RoomPolicy → Message → Text → Text → Text → Message → M (Found FollowupRun)
  followup_in_thread p m message_id event_room_id parent_id root = do
    let limit = max p.followup.max_thread_messages followup_marker_search_max_messages
    outcome ←
        call (listed event_room_id parent_id limit)
          (λ h. app.webex_thread h event_room_id parent_id limit)
    followup_listed p m message_id event_room_id parent_id root outcome

  -- From the parent of the message on.
  unfoldable pub followup_of_parent :
      RoomPolicy → Message → Text → Text → Option Text → M (Found FollowupRun)
  followup_of_parent p m message_id event_room_id none = done (ok none)
  followup_of_parent p m message_id event_room_id (some parent_id) = do
    root ← fetch_message parent_id
    when_found root (followup_in_thread p m message_id event_room_id parent_id)

  unfoldable pub resolve_followup : RoomPolicy → Message → Text → Text → M (Found FollowupRun)
  resolve_followup p m message_id event_room_id =
      if not (followup_candidate_matches p m app.self_person_id)
      then done (ok none)
      else followup_of_parent p m message_id event_room_id m.parent_id
