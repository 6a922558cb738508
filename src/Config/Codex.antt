-- ===== src/Config/Codex.antt =====
-- `CodexConfig::validate`, `IsolationConfig::validate` and `CodexConfigPatch::apply_to`
-- (src/config.rs).
use webex_generic_account_bo.Base.{
  ℕ, Bool, true, false, ◌||◌, not, leb, ◌==◌, if◌then◌else◌, is_empty, is_some, is_some_and, or,
  unwrap_or, Result, ok, ensure, ◌>>◌,
}
use webex_generic_account_bo.Text.{Text, text, text_eq, is_blank, is_some_text}
use webex_generic_account_bo.Config.Types.{
  IsolationMode, current_user, ephemeral_linux_user, IsolationConfig, CodexConfig, CodexConfigPatch,
}

-- What the validation of a Codex configuration refuses, by the message of its `anyhow!`.
pub data CodexError : Type 0 where
  empty_bin zero_output_limit zero_timeout bad_sandbox bad_approval_policy : CodexError
  bad_reasoning_effort empty_codex_home bad_trust ephemeral_model ephemeral_profile : CodexError
  ephemeral_git_check not_ephemeral timeout_over_launcher output_over_launcher : CodexError

abbrev pub timeout_seconds_max : ℕ
timeout_seconds_max = 3600

abbrev pub output_char_limit_max : ℕ
output_char_limit_max = 100_000

unfoldable pub is_ephemeral : IsolationMode → Bool
is_ephemeral current_user = false
is_ephemeral ephemeral_linux_user = true

unfoldable pub validate_isolation : IsolationConfig → Result CodexError (Unit {0})
unfolding is_ephemeral
validate_isolation c =
    ensure (if is_ephemeral c.mode then not c.trusted_prompt_authors else c.trusted_prompt_authors)
      bad_trust

unfoldable pub valid_reasoning_effort : Text → Bool
valid_reasoning_effort v =
    text_eq v (text "minimal")
    || text_eq v (text "low")
    || text_eq v (text "medium")
    || text_eq v (text "high")
    || text_eq v (text "xhigh")

-- The checks that `ephemeral-linux-user` adds.
unfoldable pub validate_ephemeral : CodexConfig → Result CodexError (Unit {0})
validate_ephemeral c =
    ensure (is_some_text (text "gpt-5.5") c.model) ephemeral_model
    >> ensure (not (is_some c.profile)) ephemeral_profile
    >> ensure c.skip_git_repo_check ephemeral_git_check
    >> ensure c.ephemeral not_ephemeral
    >> ensure (leb c.timeout_secs timeout_seconds_max) timeout_over_launcher
    >> ensure (leb c.output_limit_chars output_char_limit_max) output_over_launcher

unfoldable pub validate_codex : CodexConfig → Result CodexError (Unit {0})
unfolding is_ephemeral validate_isolation validate_ephemeral valid_reasoning_effort
validate_codex c =
    ensure (not (is_blank c.bin)) empty_bin
    >> ensure (not (c.output_limit_chars == 0)) zero_output_limit
    >> ensure (not (c.timeout_secs == 0)) zero_timeout
    >> ensure (text_eq c.sandbox (text "read-only")) bad_sandbox
    >> ensure (text_eq c.approval_policy (text "never")) bad_approval_policy
    >> ensure (not (is_some_and (λ e. not (valid_reasoning_effort e)) c.model_reasoning_effort))
        bad_reasoning_effort
    >> ensure (not (is_empty c.codex_home)) empty_codex_home
    >> validate_isolation c.isolation
    >> (if is_ephemeral c.isolation.mode then validate_ephemeral c else ok tt)

unfoldable pub apply_to : CodexConfigPatch → CodexConfig → CodexConfig
apply_to p base = record {
  bin = unwrap_or base.bin p.bin;
  cwd = unwrap_or base.cwd p.cwd;
  codex_home = unwrap_or base.codex_home p.codex_home;
  profile = or p.profile base.profile;
  model = or p.model base.model;
  model_reasoning_effort = or p.model_reasoning_effort base.model_reasoning_effort;
  sandbox = unwrap_or base.sandbox p.sandbox;
  approval_policy = unwrap_or base.approval_policy p.approval_policy;
  timeout_secs = unwrap_or base.timeout_secs p.timeout_secs;
  output_limit_chars = unwrap_or base.output_limit_chars p.output_limit_chars;
  skip_git_repo_check = unwrap_or base.skip_git_repo_check p.skip_git_repo_check;
  ephemeral = unwrap_or base.ephemeral p.ephemeral;
  isolation = unwrap_or base.isolation p.isolation;
}
