-- ===== src/Config/Planned.antt =====
-- The time that is planned for an attempt, in exact arithmetic (`validate_attempt_lease` of src/config.rs).
use webex_generic_account_bo.Base.{
  ℕ, subst, saturating_add, saturating_mul, ◌+◌, ◌*◌, ◌/◌, ◌-◌, ◌^◌, max, Option, none, some, ◌<◌,
  ◌≡◌, refl, arith, is_some, if◌then◌else◌,
}
use webex_generic_account_bo.Config.Types.{
  CodexConfig, RoomPolicy, BotConfig, FollowupConfig, JenkinsContextConfig, IsolationMode,
  current_user, ephemeral_linux_user,
}
use webex_generic_account_bo.Config.Codex.{is_ephemeral}
use webex_generic_account_bo.Config.Lease.{
  minimum_lease, room_prefetch_secs, room_webex_requests, max_prefetch_secs,
  followup_webex_requests, webex_page_requests, followup_reply_marker_search_max_pages,
}
use webex_generic_account_bo.Config.Defs.{codex_for_policy}

-- The seconds that the isolation of a Codex run may add: twice 5 to connect and to answer, three
-- phases of 600, twice 5 more, and 715 to clean up.
abbrev pub isolation_secs : IsolationMode → ℕ
isolation_secs current_user = 0
isolation_secs ephemeral_linux_user = 2535

-- The seconds of a Jenkins prefetch: the timeout, but at least 1, for each URL.
abbrev pub prefetch_secs : Option JenkinsContextConfig → ℕ
prefetch_secs none = 0
prefetch_secs (some j) = if j.enabled then max j.timeout_secs 1 * j.max_urls else 0

-- The pages of 100 messages that a list of so many messages has.
abbrev pub pages : ℕ → ℕ
pages messages = (messages + 99) / 100

-- The Webex requests that are planned for an attempt: 9, with 7 more if the room has an output room,
-- and with a follow-up 3 more, and the pages of its two searches.
abbrev pub planned_requests : RoomPolicy → ℕ
planned_requests r =
    9
    + (if is_some r.output_room_id then 7 else 0)
    + (if r.followup.enabled
        then 3
          + pages (max r.followup.max_thread_messages 100)
          + pages (max r.followup.max_thread_messages 300)
        else 0)

-- The seconds of an attempt in a room, in exact arithmetic: the Codex run with its isolation, the
-- Jenkins prefetch, 5 seconds before a message is fetched again, and 30 for each planned request.
abbrev pub attempt_secs : BotConfig → RoomPolicy → ℕ
attempt_secs c r =
    let codex = codex_for_policy c r in
    codex.timeout_secs
    + isolation_secs codex.isolation.mode
    + prefetch_secs r.jenkins_context
    + 5
    + 30 * planned_requests r

-- The saturating sum of a budget.
abbrev saturated : ℕ → ℕ → ℕ → ℕ → ℕ
saturated timeout overhead prefetch requests =
    saturating_add (saturating_add (saturating_add (saturating_add timeout overhead) prefetch) 5)
      (saturating_mul 30 requests)

unsaturated :
    (t o n r lease : ℕ)
    → lease < 2 ^ 64
    → saturated t o n r < lease
    → (t + o + n + 5 + 30 * r < lease) × (n < 2 ^ 64 - 1)
unsaturated t o n r lease l h = (omega arith, omega arith)

minimum_lease-saturated :
    (x : CodexConfig) (n r : ℕ) (mode : IsolationMode)
    → x.isolation.mode ≡ mode
    → minimum_lease x n r ≡ saturated x.timeout_secs (isolation_secs mode) n r
unfolding minimum_lease is_ephemeral
minimum_lease-saturated x n r current_user p = ground (arith, p)
minimum_lease-saturated x n r ephemeral_linux_user p = ground (arith, p)

pub exact_sum :
    (x : CodexConfig) (n r lease : ℕ)
    → lease < 2 ^ 64
    → minimum_lease x n r < lease
    → (x.timeout_secs + isolation_secs x.isolation.mode + n + 5 + 30 * r < lease) × (n < 2 ^ 64 - 1)
exact_sum x n r lease l h =
    unsaturated x.timeout_secs (isolation_secs x.isolation.mode) n r lease l
      (subst (λ m. m < lease) (minimum_lease-saturated x n r x.isolation.mode refl) h)

pub exact_prefetch :
    (j : Option JenkinsContextConfig)
    → room_prefetch_secs j < 2 ^ 64 - 1
    → room_prefetch_secs j ≡ prefetch_secs j
unfolding room_prefetch_secs max_prefetch_secs
exact_prefetch none h = refl
exact_prefetch (some j) h = ground arith

exact_followup :
    (f : FollowupConfig)
    → f.max_thread_messages + 99 < 2 ^ 64
    → followup_webex_requests f
      ≡ 3 + pages (max f.max_thread_messages 100) + pages (max f.max_thread_messages 300)
unfolding followup_webex_requests webex_page_requests followup_reply_marker_search_max_pages
exact_followup f h = omega arith

pub exact_requests :
    (r : RoomPolicy)
    → r.followup.max_thread_messages + 99 < 2 ^ 64
    → room_webex_requests r ≡ planned_requests r
unfolding room_webex_requests
exact_requests r h = ground (arith, exact_followup r.followup h)
