-- ===== src/Bot/Settling/Facts.antt =====
-- What the history of calls tells of a handler of src/main.rs: settlements, writes and runs.
use webex_generic_account_bo.Base.{
  ℕ, suc, ◌≤◌, ◌≡◌, Bool, true, false, ◌&&◌, Option, none, some, List, [], ◌∷◌, ◌==◌, Result, ok,
  err, is_ok, is_some, Duration, arith, is_some_and,
}
use webex_generic_account_bo.Config.{BotConfig, room_is_read_only_source}
use webex_generic_account_bo.Webex.{HttpError, CreateMessage}
use webex_generic_account_bo.Bot.Monad.{AttemptLease, marked, deferred, created, ran, History}

-- A settlement: the lease, and `none` where it was marked processed or the delay of a deferral.
abbrev pub Settlement : Type 0
Settlement = AttemptLease × Option Duration

abbrev pub settlements : History → List Settlement
settlements [] = []
settlements (marked a ∷ h) = (a, none) ∷ settlements h
settlements (deferred a d ∷ h) = (a, some d) ∷ settlements h
settlements (_ ∷ h) = settlements h

-- How often Codex ran.
abbrev pub runs : History → ℕ
runs [] = 0
runs (ran c p m ∷ h) = suc (runs h)
runs (_ ∷ h) = runs h

-- Whether a message would go into a read-only source room.
abbrev pub is_forbidden : BotConfig → CreateMessage → Bool
is_forbidden c r = is_some_and (λ room. room_is_read_only_source c room) r.room_id

-- Every message that was posted went into a room that may be written to.
abbrev pub WritesAllowed : BotConfig → History → Type 0
WritesAllowed c [] = Unit
WritesAllowed c (created r ∷ h) = (is_forbidden c r ≡ false) × WritesAllowed c h
WritesAllowed c (_ ∷ h) = WritesAllowed c h

-- An error that tells the caller to come back: status 503 with a delay.
abbrev pub is_retryable : {A : Type 0} → Result HttpError A → Bool
is_retryable (ok a) = true
is_retryable (err e) = e.status == 503 && is_some e.retry_after

abbrev pub drop_last : List Settlement → List Settlement
drop_last [] = []
drop_last (s ∷ ss) = ss

abbrev pub last_lease : List Settlement → Option AttemptLease
last_lease [] = none
last_lease (s ∷ ss) = some s.0

abbrev pub last_delay : List Settlement → Option Duration
last_delay [] = none
last_delay (s ∷ ss) = s.1

-- A stretch of a handler that settles nothing and runs nothing.
pub record Quiet (c : BotConfig) (h h' : History) : Type 0 where
  pub settled : settlements h' ≡ settlements h
  pub ran_same : runs h' ≡ runs h
  pub writes : WritesAllowed c h → WritesAllowed c h'

-- A handler that settled its attempt once: it marked it if it succeeded, and otherwise fails with a
-- delay. It ran Codex at most once.
pub record Settled {A : Type 0} (c : BotConfig) (a : AttemptLease) (h : History)
    (out : Result HttpError A × History) : Type 0 where
  pub once : drop_last (settlements out.1) ≡ settlements h
  pub own : last_lease (settlements out.1) ≡ some a
  pub marks : is_ok out.0 ≡ true → last_delay (settlements out.1) ≡ none
  pub retries : is_retryable out.0 ≡ true
  pub one_run : runs out.1 ≤ suc (runs h)
  pub writes : WritesAllowed c h → WritesAllowed c out.1

pub Quiet-trans :
    {c : BotConfig} {h h' h'' : History} → Quiet c h h' → Quiet c h' h'' → Quiet c h h''
Quiet-trans q r = ground arith

pub Quiet-Settled :
    {A : Type 0} {c : BotConfig} {a : AttemptLease} {h h' : History}
    {out : Result HttpError A × History}
    → Quiet c h h'
    → Settled c a h' out
    → Settled c a h out
Quiet-Settled q s = ground arith
