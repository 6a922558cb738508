-- ===== src/Config/Lease.antt =====
-- The time budget of an attempt against its lease (src/config.rs).
use webex_generic_account_bo.Base.{
  ℕ, ◌+◌, ◌*◌, ◌/◌, ◌-◌, max, Bool, Option, none, some, ltb, if◌then◌else◌, is_some, saturating_add,
  saturating_mul,
}
use webex_generic_account_bo.Config.Types.{
  CodexConfig, FollowupConfig, JenkinsContextConfig, RoomPolicy,
}
use webex_generic_account_bo.Config.Codex.{is_ephemeral}

abbrev pub webex_request_timeout_secs : ℕ
webex_request_timeout_secs = 30

abbrev pub event_hydration_not_found_retry_secs : ℕ
event_hydration_not_found_retry_secs = 5

abbrev pub direct_reply_marker_search_max_pages : ℕ
direct_reply_marker_search_max_pages = 3

abbrev pub webex_requests_per_attempt : ℕ
webex_requests_per_attempt = 3 + direct_reply_marker_search_max_pages * 2

abbrev pub followup_non_paged_webex_requests_per_attempt : ℕ
followup_non_paged_webex_requests_per_attempt = 3

abbrev pub webex_list_page_size : ℕ
webex_list_page_size = 100

abbrev pub followup_marker_search_max_messages : ℕ
followup_marker_search_max_messages = 100

abbrev pub followup_reply_marker_search_min_messages : ℕ
followup_reply_marker_search_min_messages = 300

abbrev pub staging_webex_requests_per_attempt : ℕ
staging_webex_requests_per_attempt = 7

-- `EPHEMERAL_RUNNER_WALL_OVERHEAD_SECONDS` of src/launcher_protocol.rs.
abbrev pub ephemeral_runner_wall_overhead_seconds : ℕ
ephemeral_runner_wall_overhead_seconds = 5 * 2 + 600 + 600 + 600 + 5 * 2 + (600 + 110 + 5)

unfoldable pub followup_reply_marker_search_max_pages : ℕ → ℕ
followup_reply_marker_search_max_pages max_thread_messages =
    saturating_add (max max_thread_messages followup_reply_marker_search_min_messages)
      (webex_list_page_size - 1)
    / webex_list_page_size

unfoldable pub webex_page_requests : ℕ → ℕ
webex_page_requests item_limit =
    saturating_add item_limit (webex_list_page_size - 1) / webex_list_page_size

unfoldable pub followup_webex_requests : FollowupConfig → ℕ
unfolding webex_page_requests followup_reply_marker_search_max_pages
followup_webex_requests c =
    saturating_add
      (saturating_add followup_non_paged_webex_requests_per_attempt
        (webex_page_requests (max c.max_thread_messages followup_marker_search_max_messages)))
      (followup_reply_marker_search_max_pages c.max_thread_messages)

unfoldable pub room_webex_requests : RoomPolicy → ℕ
room_webex_requests r =
    let staged =
      if is_some r.output_room_id
      then saturating_add webex_requests_per_attempt staging_webex_requests_per_attempt
      else webex_requests_per_attempt in
    if r.followup.enabled
    then saturating_add staged (followup_webex_requests r.followup)
    else staged

unfoldable pub max_prefetch_secs : JenkinsContextConfig → ℕ
max_prefetch_secs c = saturating_mul (max c.timeout_secs 1) c.max_urls

-- The prefetch time of a room: 0 with no enabled Jenkins context.
unfoldable pub room_prefetch_secs : Option JenkinsContextConfig → ℕ
unfolding max_prefetch_secs
room_prefetch_secs none = 0
room_prefetch_secs (some c) = if c.enabled then max_prefetch_secs c else 0

-- `minimum_lease` of `validate_attempt_lease_for`.
unfoldable pub minimum_lease : CodexConfig → ℕ → ℕ → ℕ
minimum_lease codex jenkins_prefetch_secs webex_requests =
    let overhead =
      if is_ephemeral codex.isolation.mode then ephemeral_runner_wall_overhead_seconds else 0 in
    saturating_add
      (saturating_add
        (saturating_add (saturating_add codex.timeout_secs overhead) jenkins_prefetch_secs)
        event_hydration_not_found_retry_secs)
      (saturating_mul webex_request_timeout_secs webex_requests)

-- Whether the lease is long enough for one configuration.
unfoldable pub lease_suffices : ℕ → CodexConfig → ℕ → ℕ → Bool
lease_suffices lease_secs codex jenkins_prefetch_secs webex_requests =
    ltb (minimum_lease codex jenkins_prefetch_secs webex_requests) lease_secs
