-- ===== src/Bot/Threads.antt =====
-- Where replies go: the thread in the room, or the forwarded copy in the output room (src/main.rs).
use webex_generic_account_bo.Base.{
  ℕ, ◌-◌, ◌/◌, Bool, true, false, Option, none, some, Result, ok, err, Duration, ℤ, pos, negsuc,
  leb, if◌then◌else◌, is_some_and, ◌++◌,
}
use webex_generic_account_bo.Text.{Text, text}
use webex_generic_account_bo.Config.{RoomPolicy, attempt_lease}
use webex_generic_account_bo.Markers.{source_marker}
use webex_generic_account_bo.Reply.{prepare_forward_markdown, top_level_markdown_message}
use webex_generic_account_bo.Webex.{Message, WebexCallError}
use webex_generic_account_bo.Bot.Monad.{AttemptLease, read_clock, App, M, ◌>>=◌, done, call}
use webex_generic_account_bo.Bot.Failures.{
  ReplyThreadSetup, ready, create_message, find_existing_message_by_marker, postpone,
  handle_forward_reconciliation_failure, handle_forward_create_failure, forward_parent,
}

abbrev pub source_marker_search_max_pages_recent : ℕ
source_marker_search_max_pages_recent = 3

-- `message_is_at_least_age` of a message created at or after the epoch, at the time `now`.
unfoldable pub is_older : ℕ → Duration → Option ℕ → Bool
is_older created_ms min_age now = is_some_and (λ t. leb (min_age / 1_000_000) (t - created_ms)) now

unfoldable pub pages_by_age : Bool → Option ℕ
pages_by_age old = if old then none else some source_marker_search_max_pages_recent

module _ (app : App) where
  unfoldable pub pages_of_created : Duration → Option ℤ → M (Option ℕ)
  unfolding pages_by_age is_older
  pages_of_created age none = done (pages_by_age false)
  pages_of_created age (some (negsuc n)) = done (pages_by_age true)
  pages_of_created age (some (pos n)) = do
    now ← call read_clock app.clock
    done (pages_by_age (is_older n age now))

  -- How far back the forwarded copy of a message is searched for.
  unfoldable pub source_marker_search_max_pages : Message → Duration → M (Option ℕ)
  unfolding pages_of_created
  source_marker_search_max_pages m recovery_age = pages_of_created recovery_age m.created

  -- Forwarding the source message, where no copy with an ID was found.
  unfoldable pub forward_source : Message → Text → Text → Text → AttemptLease → M ReplyThreadSetup
  unfolding create_message postpone
  forward_source m message_id source_room_id output_room_id a = do
    let marker = source_marker message_id
    outcome ← create_message app (
        top_level_markdown_message output_room_id
          (prepare_forward_markdown m source_room_id message_id marker))
    elim outcome [
      | ok forward ↦ elim forward.id [
        | some parent_id ↦ done (ready (record { room_id = output_room_id; parent_id = parent_id }))
        | none ↦
            postpone app a (attempt_lease app.config.server)
              (text "forwarded Webex source message " ++ (message_id ++ text " had no message id"))
      ]
      | err error ↦
          handle_forward_create_failure app a
            (record {
              message_id = message_id;
              output_room_id = output_room_id;
              source_marker = marker;
              marker_search_max_pages = some source_marker_search_max_pages_recent;
            })
            error
    ]

  -- The copy that is there, or a new one.
  unfoldable pub with_forward :
      Message → Text → Text → Text → AttemptLease → Option Text → M ReplyThreadSetup
  with_forward m message_id source_room_id output_room_id a none =
      forward_source m message_id source_room_id output_room_id a
  with_forward m message_id source_room_id output_room_id a (some parent_id) =
      done (ready (record { room_id = output_room_id; parent_id = parent_id }))

  -- What the search for the copy found.
  unfoldable pub on_forward_found :
      Message
      → Text
      → Text
      → Text
      → AttemptLease
      → Result WebexCallError (Option Message)
      → M ReplyThreadSetup
  on_forward_found m message_id source_room_id output_room_id a (ok o) =
      with_forward m message_id source_room_id output_room_id a (forward_parent app (ok o))
  on_forward_found m message_id source_room_id output_room_id a (err error) =
      handle_forward_reconciliation_failure app a message_id output_room_id error

  -- With an output room.
  unfoldable pub prepare_forward : Message → Text → Text → Text → AttemptLease → M ReplyThreadSetup
  unfolding find_existing_message_by_marker source_marker_search_max_pages
  prepare_forward m message_id source_room_id output_room_id a = do
    pages ← source_marker_search_max_pages m (attempt_lease app.config.server)
    found ← find_existing_message_by_marker app output_room_id none (source_marker message_id) pages
    on_forward_found m message_id source_room_id output_room_id a found

  -- By the output room of the policy.
  unfoldable pub thread_for_output :
      Message → Text → Text → Text → AttemptLease → Option Text → M ReplyThreadSetup
  thread_for_output m message_id source_room_id source_parent_id a none =
      done (ready (record { room_id = source_room_id; parent_id = source_parent_id }))
  thread_for_output m message_id source_room_id source_parent_id a (some output_room_id) =
      prepare_forward m message_id source_room_id output_room_id a

  unfoldable pub prepare_reply_thread :
      RoomPolicy → Message → Text → Text → Text → AttemptLease → M ReplyThreadSetup
  unfolding thread_for_output
  prepare_reply_thread policy m message_id source_room_id source_parent_id a =
      thread_for_output m message_id source_room_id source_parent_id a policy.output_room_id
