-- ===== src/Policy/Defs.antt =====
-- The trigger decision, the message context and the prompt template (src/policy.rs).
use webex_generic_account_bo.Base.{
  ℕ, zero, suc, max, Bool, true, false, ◌&&◌, ◌||◌, Option, none, some, List, [], ◌∷◌, any,
  is_empty, is_some_and, unwrap_or, or, if◌then◌else◌,
}
use webex_generic_account_bo.Text.{
  Text, text, contains_text, eq_ignore_ascii_case, strip_prefix, trim_start, is_whitespace, replace,
}
use webex_generic_account_bo.Webex.{Message}
use webex_generic_account_bo.Config.{RoomPolicy, TriggerMode, mention, prefix, always, never}

pub data TriggerDecision : Type 0 where
  matched room_disabled sender_not_allowed missing_self_person_id : TriggerDecision
  not_mentioned prefix_not_matched : TriggerDecision

pub record MessageContext : Type 0 where
  pub message_id : Text
  pub room_id : Text
  pub person_id : Option Text
  pub person_email : Option Text
  pub body : Text

unfoldable pub message_body : Message → Text
message_body m = unwrap_or [] (or m.body_text m.markdown)

unfoldable pub from_message : Message → Option MessageContext
from_message m = elim m.id [
  | none ↦ none
  | some message_id ↦ elim m.room_id [
    | none ↦ none
    | some room_id ↦ some (record {
      message_id = message_id;
      room_id = room_id;
      person_id = m.person_id;
      person_email = m.person_email;
      body = message_body m;
    })
  ]
]

-- The allowlists of a policy or of its follow-ups, against the sender of a message.
unfoldable pub sender_listed : List Text → List Text → Message → Bool
sender_listed ids emails m =
    is_some_and (λ p. contains_text p ids) m.person_id
    || is_some_and (λ e. any (λ a. eq_ignore_ascii_case a e) emails) m.person_email

unfoldable pub sender_allowed : RoomPolicy → Message → Bool
sender_allowed p m =
    if p.allow_all_senders
    then true
    else if is_empty p.allowed_person_ids && is_empty p.allowed_person_emails
    then false
    else sender_listed p.allowed_person_ids p.allowed_person_emails m

-- Nothing is left, or what is left begins with white space.
unfoldable pub at_boundary : Text → Bool
at_boundary [] = true
at_boundary (c ∷ s) = is_whitespace c

unfoldable pub prefix_matches : Text → Text → Bool
prefix_matches body p = is_some_and at_boundary (strip_prefix p (trim_start body))

unfoldable pub message_matches_prefix : Message → List Text → Bool
message_matches_prefix m prefixes = any (λ p. prefix_matches (message_body m) p) prefixes

-- The decision of a `mention` trigger.
unfoldable pub mention_decision : Message → Option Text → TriggerDecision
mention_decision m none = missing_self_person_id
mention_decision m (some self_id) =
    if contains_text self_id m.mentioned_people then matched else not_mentioned

unfoldable pub decide_trigger : TriggerMode → RoomPolicy → Message → Option Text → TriggerDecision
unfolding mention_decision
decide_trigger always p m self_id = matched
decide_trigger never p m self_id = room_disabled
decide_trigger mention p m self_id = mention_decision m self_id
decide_trigger prefix p m self_id =
    if message_matches_prefix m p.prefixes then matched else prefix_not_matched

unfoldable pub is_never : TriggerMode → Bool
is_never never = true
is_never _ = false

unfoldable pub should_trigger : RoomPolicy → Message → Option Text → TriggerDecision
unfolding decide_trigger is_never
should_trigger p m self_id =
    if is_never p.trigger
    then room_disabled
    else if sender_allowed p m
    then decide_trigger p.trigger p m self_id
    else sender_not_allowed

unfoldable pub render_prompt : Text → MessageContext → Text
render_prompt template c =
    let with_room = replace (text "{room_id}") c.room_id template in
    let with_message = replace (text "{message_id}") c.message_id with_room in
    let with_person = replace (text "{person_id}") (unwrap_or [] c.person_id) with_message in
    let with_email = replace (text "{person_email}") (unwrap_or [] c.person_email) with_person in
    replace (text "{body}") c.body with_email

-- The loop of `trim_to_chars`, with the characters still allowed.
unfoldable pub take_chars : ℕ → Text → Text
take_chars room [] = []
take_chars zero (c ∷ s) = text "\n[truncated]"
take_chars (suc room) (c ∷ s) = c ∷ take_chars room s

unfoldable pub trim_to_chars : Text → ℕ → Text
unfolding take_chars
trim_to_chars value max_chars = take_chars (max max_chars 1) value
