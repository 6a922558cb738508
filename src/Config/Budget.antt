-- ===== src/Config/Budget.antt =====
-- The lease of a validated configuration and the time budgets of its rooms
-- (`validate_attempt_lease` of src/config.rs).
use webex_generic_account_bo.Base.{
  ℕ, ◌+◌, ◌^◌, ◌≤◌, ◌<◌, ◌≡◌, refl, Bool, true, false, ◌||◌, List, [], ◌∷◌, All, arith, is_ok,
  is_some, if◌then◌else◌, ltb, ltb→lt, &&-eq-true,
}
use webex_generic_account_bo.Config.Types.{CodexConfig, RoomPolicy, BotConfig}
use webex_generic_account_bo.Config.Paths.{Host}
use webex_generic_account_bo.Config.Lease.{
  minimum_lease, lease_suffices, room_prefetch_secs, room_webex_requests,
  webex_requests_per_attempt,
}
use webex_generic_account_bo.Config.Defs.{
  codex_for_policy, validate_attempt_lease, room_leases_suffice, validate,
}
use webex_generic_account_bo.Config.Planned.{
  attempt_secs, exact_sum, exact_prefetch, exact_requests,
}
use webex_generic_account_bo.Config.Facts.{validate-Validated}

lease_mono : (x : CodexConfig) (n : ℕ) (r s : ℕ) → r ≤ s → minimum_lease x n r ≤ minimum_lease x n s
unfolding minimum_lease
lease_mono x n r s h = ground arith

suffices_lt :
    (lease : ℕ) (x : CodexConfig) (n r : ℕ)
    → lease_suffices lease x n r ≡ true
    → minimum_lease x n r < lease
unfolding lease_suffices
suffices_lt lease x n r h = ltb→lt _ _ h

own_codex :
    (c : BotConfig) (r : RoomPolicy) → is_some r.codex ≡ false → codex_for_policy c r ≡ c.codex
unfolding codex_for_policy
own_codex c r h = ground arith

default_covers :
    (c : BotConfig) (x : CodexConfig) (n m : ℕ)
    → minimum_lease c.codex 0 webex_requests_per_attempt < c.server.attempt_lease_secs
    → x ≡ c.codex
    → n ≡ 0
    → m ≤ webex_requests_per_attempt
    → minimum_lease x n m < c.server.attempt_lease_secs
default_covers c x n m d p q l = ground (arith, lease_mono c.codex 0 m webex_requests_per_attempt l)

-- A room with its own configuration, a prefetch or more requests is checked by itself; the others are
-- covered by the check of the default.
covered :
    (c : BotConfig) (x : CodexConfig) (n m : ℕ) (own more_time more_requests : Bool)
    → minimum_lease c.codex 0 webex_requests_per_attempt < c.server.attempt_lease_secs
    → (own ≡ false → x ≡ c.codex)
    → (more_time ≡ false → n ≡ 0)
    → (more_requests ≡ false → m ≤ webex_requests_per_attempt)
    → (if own || more_time || more_requests
        then lease_suffices c.server.attempt_lease_secs x n m
        else true)
      ≡ true
    → minimum_lease x n m < c.server.attempt_lease_secs
covered c x n m true t r d p q l h = suffices_lt c.server.attempt_lease_secs x n m h
covered c x n m false true r d p q l h = suffices_lt c.server.attempt_lease_secs x n m h
covered c x n m false false true d p q l h = suffices_lt c.server.attempt_lease_secs x n m h
covered c x n m false false false d p q l h = default_covers c x n m d (p refl) (q refl) (l refl)

not_ltb : (a b : ℕ) → ltb a b ≡ false → b ≤ a
not_ltb a b h = ground arith

not_positive : (n : ℕ) → ltb 0 n ≡ false → n ≡ 0
not_positive n h = ground arith

rooms_covered :
    (c : BotConfig) (rs : List RoomPolicy)
    → minimum_lease c.codex 0 webex_requests_per_attempt < c.server.attempt_lease_secs
    → room_leases_suffice c rs ≡ true
    → All
        (λ r.
          minimum_lease
            (codex_for_policy c r)
            (room_prefetch_secs r.jenkins_context)
            (room_webex_requests r)
          < c.server.attempt_lease_secs)
        rs
unfolding room_leases_suffice
rooms_covered c [] d h = tt
rooms_covered c (r ∷ rs) d h = (
  covered c _ _ _ _ _ _ d (own_codex c r) (not_positive _) (not_ltb webex_requests_per_attempt _)
      (&&-eq-true _ _ h).0,
  rooms_covered c rs d (&&-eq-true _ _ h).1,
)

lease_checked :
    (c : BotConfig)
    → is_ok (validate_attempt_lease c) ≡ true
    → (lease_suffices c.server.attempt_lease_secs c.codex 0 webex_requests_per_attempt ≡ true)
      × (room_leases_suffice c c.rooms ≡ true)
unfolding validate_attempt_lease
lease_checked c h = ground arith

exact_room :
    (c : BotConfig) (r : RoomPolicy)
    → c.server.attempt_lease_secs < 2 ^ 64
    → r.followup.max_thread_messages + 99 < 2 ^ 64
    → minimum_lease
        (codex_for_policy c r)
        (room_prefetch_secs r.jenkins_context)
        (room_webex_requests r)
      < c.server.attempt_lease_secs
    → attempt_secs c r < c.server.attempt_lease_secs
exact_room c r l size h =
    let q = exact_sum (codex_for_policy c r) _ _ _ l h in
    omega (arith, q.0, exact_prefetch r.jenkins_context q.1, exact_requests r size)

exact_rooms :
    (c : BotConfig) (rs : List RoomPolicy)
    → c.server.attempt_lease_secs < 2 ^ 64
    → All (λ r. r.followup.max_thread_messages + 99 < 2 ^ 64) rs
    → All
        (λ r.
          minimum_lease
            (codex_for_policy c r)
            (room_prefetch_secs r.jenkins_context)
            (room_webex_requests r)
          < c.server.attempt_lease_secs)
        rs
    → All (λ r. attempt_secs c r < c.server.attempt_lease_secs) rs
exact_rooms c [] l sizes h = tt
exact_rooms c (r ∷ rs) l sizes h = (exact_room c r l sizes.0 h.0, exact_rooms c rs l sizes.1 h.1)

-- In a validated configuration the lease of an attempt is longer than the time that is planned for an
-- attempt in every room, in exact arithmetic: its Codex run with the overhead of isolation, its
-- Jenkins prefetch, 5 seconds before a message is fetched again, and 30 seconds for each of the Webex
-- requests that the code plans (9, with 7 more for an output room, and with a follow-up 3 more and
-- the pages of 100 messages of two searches). The lease is a 64-bit number, and no limit on the
-- messages of a thread is among the last 99 of 64 bits.
pub lease_covers_every_room :
    (host : Host) (c : BotConfig)
    → is_ok (validate host c) ≡ true
    → c.server.attempt_lease_secs < 2 ^ 64
    → All (λ r. r.followup.max_thread_messages + 99 < 2 ^ 64) c.rooms
    → All (λ r. attempt_secs c r < c.server.attempt_lease_secs) c.rooms
lease_covers_every_room host c h l sizes =
    let q = lease_checked c (validate-Validated host c h).lease_valid in
    exact_rooms c c.rooms l sizes (
      rooms_covered c c.rooms
        (suffices_lt c.server.attempt_lease_secs c.codex 0 webex_requests_per_attempt q.0) q.1)
