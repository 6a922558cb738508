-- ===== src/Policy/Trigger.antt =====
-- Who and what can trigger the bot (src/policy.rs).
use webex_generic_account_bo.Base.{
  ◌≡◌, ◌≢◌, refl, inl, inr, ◌↔◌, ap, true, false, Option, none, some, [], ◌∷◌, ◌++◌, is_some_and,
  arith, Option-cases,
}
use webex_generic_account_bo.Text.{
  Text, contains_text, strip_prefix, strip_prefix_sound, strip_prefix_append, trim_start,
  is_whitespace,
}
use webex_generic_account_bo.Webex.{Message}
use webex_generic_account_bo.Config.{RoomPolicy, TriggerMode, mention, prefix, always, never}
use webex_generic_account_bo.Policy.Defs.{
  matched, should_trigger, sender_allowed, message_matches_prefix, prefix_matches, at_boundary,
}

-- What must hold for a message to trigger the bot under a mode.
abbrev pub Fires : TriggerMode → RoomPolicy → Message → Option Text → Type 0
Fires always p m self_id = Unit
Fires never p m self_id = ⊥
Fires mention p m self_id =
    (s : Text) × (self_id ≡ some s) × (contains_text s m.mentioned_people ≡ true)
Fires prefix p m self_id = message_matches_prefix m p.prefixes ≡ true

Fires-of-matched :
    (mode : TriggerMode) (p : RoomPolicy) (m : Message) (self_id : Option Text)
    → p.trigger ≡ mode
    → should_trigger p m self_id ≡ matched
    → (sender_allowed p m ≡ true) × Fires mode p m self_id
unfolding should_trigger
Fires-of-matched always p m self_id e h = ground arith
Fires-of-matched never p m self_id e h = ground arith
Fires-of-matched mention p m none e h = ground arith
Fires-of-matched mention p m (some s) e h = (ground arith, (s, refl, ground arith))
Fires-of-matched prefix p m self_id e h = ground arith

matched-of-Fires :
    (mode : TriggerMode) (p : RoomPolicy) (m : Message) (self_id : Option Text)
    → p.trigger ≡ mode
    → sender_allowed p m ≡ true
    → Fires mode p m self_id
    → should_trigger p m self_id ≡ matched
unfolding should_trigger
matched-of-Fires always p m self_id e a f = ground arith
matched-of-Fires never p m self_id e a f = absurd f
matched-of-Fires mention p m self_id e a (s, es, hs) = ground arith
matched-of-Fires prefix p m self_id e a f = ground arith

-- A message triggers the bot exactly when its sender is allowed and the room's mode fires: any
-- message under `always`, none under `never`, one that mentions the known own person ID under
-- `mention`, and one that matches a configured prefix under `prefix`.
pub should_trigger_iff :
    (p : RoomPolicy) (m : Message) (self_id : Option Text)
    → (should_trigger p m self_id ≡ matched)
      ↔ ((sender_allowed p m ≡ true) × Fires p.trigger p m self_id)
should_trigger_iff p m self_id = (
  Fires-of-matched p.trigger p m self_id refl,
  λ h. matched-of-Fires p.trigger p m self_id refl h.0 h.1,
)

-- What is left of a text after a prefix: nothing, or a text that begins with white space.
abbrev pub IsBoundary : Text → Type 0
IsBoundary [] = Unit
IsBoundary (c ∷ s) = is_whitespace c ≡ true

-- A body matches a prefix exactly when, after its leading white space, it is the prefix followed by
-- nothing or by white space.
pub prefix_matches_iff :
    (body p : Text)
    → (prefix_matches body p ≡ true)
      ↔ ((rest : Text) × (trim_start body ≡ p ++ rest) × IsBoundary rest)
unfolding prefix_matches at_boundary
prefix_matches_iff body p = (sound, complete)
  where
    boundary : (rest : Text) → at_boundary rest ≡ true → IsBoundary rest
    boundary [] h = tt
    boundary (c ∷ s) h = h

    sound :
        prefix_matches body p ≡ true
        → (rest : Text) × (trim_start body ≡ p ++ rest) × IsBoundary rest
    sound h = elim (Option-cases (strip_prefix p (trim_start body))) [
      | inl e ↦ absurd (cc (ap (is_some_and at_boundary) e))
      | inr (rest, e) ↦
          (rest, strip_prefix_sound p (trim_start body) rest e, boundary rest (rw e at h))
    ]

    at_of : (rest : Text) → IsBoundary rest → at_boundary rest ≡ true
    at_of [] h = refl
    at_of (c ∷ s) h = h

    complete :
        (rest : Text) × (trim_start body ≡ p ++ rest) × IsBoundary rest
        → prefix_matches body p ≡ true
    complete (rest, e, b) = rw (e, strip_prefix_append p rest) (at_of rest b)

-- With no allowlist at all and no `allow_all_senders`, no message triggers the bot.
pub should_trigger_denies_by_default :
    (p : RoomPolicy) (m : Message) (self_id : Option Text)
    → p.allow_all_senders ≡ false
    → p.allowed_person_ids ≡ []
    → p.allowed_person_emails ≡ []
    → should_trigger p m self_id ≢ matched
unfolding should_trigger sender_allowed
should_trigger_denies_by_default p m self_id a i e h = ground arith
