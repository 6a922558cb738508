-- ===== src/Scheduler/Pending.antt =====
-- Which jobs of the index are pending (`pending_message_ids_sync` and `validate_message_id` of
-- src/message_jobs.rs).
use webex_generic_account_bo.Base.{
  ℕ, Bool, true, false, not, ◌&&◌, ◌||◌, List, [], ◌∷◌, any, keep, map, take, ltb, leb, ◌==◌,
  is_empty,
}
use webex_generic_account_bo.Text.{Text, contains_text, byte_len}

-- The order of two message IDs; that of their bytes is that of their characters.
unfoldable pub text_leb : Text → Text → Bool
text_leb [] t = true
text_leb (a ∷ s) [] = false
text_leb (a ∷ s) (b ∷ t) = ltb a b || (a == b && text_leb s t)

-- An entry of the index: the time of queueing, and the message ID.
abbrev pub Entry : Type 0
Entry = ℕ × Text

unfoldable pub entry_leb : Entry → Entry → Bool
unfolding text_leb
entry_leb (s, x) (t, y) = ltb s t || (s == t && text_leb x y)

unfoldable pub insert_entry : Entry → List Entry → List Entry
insert_entry e [] = e ∷ []
insert_entry e (f ∷ fs) = elim (entry_leb e f) [ true ↦ e ∷ f ∷ fs | false ↦ f ∷ insert_entry e fs ]

-- `pending.sort()`.
unfoldable pub sort_entries : List Entry → List Entry
unfolding insert_entry
sort_entries [] = []
sort_entries (e ∷ es) = insert_entry e (sort_entries es)

unfoldable pub pending_message_ids : List Entry → List Text → ℕ → List Text
unfolding sort_entries
pending_message_ids entries excluded limit =
    map (λ e. e.1)
      (take limit (sort_entries (keep (λ e. not (contains_text e.1 excluded)) entries)))

abbrev pub max_message_id_bytes : ℕ
max_message_id_bytes = 1024

-- `char::is_control`.
unfoldable pub is_control : ℕ → Bool
is_control c = ltb c 0x20 || (leb 0x7f c && leb c 0x9f)

unfoldable pub validate_message_id : Text → Bool
unfolding is_control
validate_message_id id =
    not (is_empty id) && leb (byte_len id) max_message_id_bytes && not (any is_control id)
