-- ===== src/Config/Facts.antt =====
-- What a validated configuration guarantees to the bot (`BotConfig::validate` of src/config.rs).
use webex_generic_account_bo.Base.{
  ◌≡◌, subst, Bool-cases, inl, inr, true, false, some, List, [], ◌∷◌, All, arith, is_ok, find,
}
use webex_generic_account_bo.Text.{Text, text_eq, text_eq_refl, text_eq_sound, contains_text}
use webex_generic_account_bo.Config.Types.{RoomPolicy, BotConfig}
use webex_generic_account_bo.Config.Paths.{Host}
use webex_generic_account_bo.Config.Defs.{
  policy_for_room, room_ids_unique, validate_rooms, validate_commands, validate_attempt_lease,
  validate,
}

-- The checks of `validate` that the theorems use.
pub record Validated (host : Host) (c : BotConfig) : Type 0 where
  pub unique : room_ids_unique [] c.rooms ≡ true
  pub rooms_valid : is_ok (validate_rooms c.rooms) ≡ true
  pub commands_valid : is_ok (validate_commands c c.config_commands) ≡ true
  pub lease_valid : is_ok (validate_attempt_lease c) ≡ true

pub validate-Validated :
    (host : Host) (c : BotConfig) → is_ok (validate host c) ≡ true → Validated host c
unfolding validate
validate-Validated host c h = ground arith

unseen_differs :
    (x y : Text) (seen : List Text)
    → contains_text x seen ≡ true
    → contains_text y seen ≡ false
    → text_eq x y ≡ false
unseen_differs x y seen p q = elim (Bool-cases (text_eq x y)) [
  | inl e ↦
      absurd (ground (arith, subst (λ z. contains_text z seen ≡ true) (text_eq_sound x y e) p, q))
  | inr e ↦ e
]

seen_differs :
    (x : Text) (seen : List Text) (rs : List RoomPolicy)
    → contains_text x seen ≡ true
    → room_ids_unique seen rs ≡ true
    → All (λ p. text_eq x p.room_id ≡ false) rs
unfolding room_ids_unique contains_text
seen_differs x seen [] p u = tt
seen_differs x seen (r ∷ rs) p u = (
  unseen_differs x r.room_id seen p (ground arith),
  seen_differs x (r.room_id ∷ seen) rs (contains_later x r.room_id seen p) (ground arith),
)
  where
    contains_later :
        (x y : Text) (seen : List Text)
        → contains_text x seen ≡ true
        → contains_text x (y ∷ seen) ≡ true
    contains_later x y seen p = ground arith

pub All-map :
    (P Q : RoomPolicy → Type 0) (rs : List RoomPolicy)
    → ((p : RoomPolicy) → P p → Q p)
    → All P rs
    → All Q rs
All-map P Q [] f a = tt
All-map P Q (r ∷ rs) f a = (f r a.0, All-map P Q rs f a.1)

All-both :
    (P Q : RoomPolicy → Type 0) (rs : List RoomPolicy)
    → All P rs
    → All Q rs
    → All (λ p. P p × Q p) rs
All-both P Q [] a b = tt
All-both P Q (r ∷ rs) a b = ((a.0, b.0), All-both P Q rs a.1 b.1)

found_by_id :
    (seen : List Text) (rs : List RoomPolicy)
    → room_ids_unique seen rs ≡ true
    → All (λ p. find (λ r. text_eq r.room_id p.room_id) rs ≡ some p) rs
unfolding room_ids_unique contains_text
found_by_id seen [] u = tt
found_by_id seen (r ∷ rs) u = (
  first_found r rs,
  All-map _ _ rs (λ p q. later_found r p rs q.0 q.1)
      (All-both _ _ rs
        (seen_differs r.room_id (r.room_id ∷ seen) rs (contains_head r.room_id seen) (ground arith))
        (found_by_id (r.room_id ∷ seen) rs (ground arith))),
)
  where
    contains_head : (x : Text) (seen : List Text) → contains_text x (x ∷ seen) ≡ true
    contains_head x seen = ground (arith, text_eq_refl x)

    first_found :
        (r : RoomPolicy) (rs : List RoomPolicy)
        → find (λ x. text_eq x.room_id r.room_id) (r ∷ rs) ≡ some r
    first_found r rs = ground (arith, text_eq_refl r.room_id)

    later_found :
        (r p : RoomPolicy) (rs : List RoomPolicy)
        → text_eq r.room_id p.room_id ≡ false
        → find (λ x. text_eq x.room_id p.room_id) rs ≡ some p
        → find (λ x. text_eq x.room_id p.room_id) (r ∷ rs) ≡ some p
    later_found r p rs q f = ground arith

-- In a validated configuration every room policy is the one that the lookup by its room ID finds: no
-- policy is hidden behind another.
pub every_policy_is_found :
    (host : Host) (c : BotConfig)
    → is_ok (validate host c) ≡ true
    → All (λ p. policy_for_room c p.room_id ≡ some p) c.rooms
unfolding policy_for_room
every_policy_is_found host c h = found_by_id [] c.rooms (validate-Validated host c h).unique
