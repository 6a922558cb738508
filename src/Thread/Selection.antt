-- ===== src/Thread/Selection.antt =====
-- Which replies the thread context keeps (`render_thread_context` of src/main.rs).
use mathlib.Core.List.{reverse}
use webex_generic_account_bo.Base.{ℕ, ◌≤◌, ◌≡◌, false, not, List, ◌∷◌, ◌++◌, keep, length, ℤ}
use webex_generic_account_bo.Text.{Text, text, join_with, is_blank}
use webex_generic_account_bo.Policy.{trim_to_chars}
use webex_generic_account_bo.Thread.{select_replies}
use webex_generic_account_bo.Thread.Choice.{joined, IsFull}

abbrev IsPlain : Text → Type 0
IsPlain e = is_blank e ≡ false

-- A context of at most so many characters that shows the root and the newest entries, each as a whole,
-- and that has no room for one more; the entries stand oldest first.
pub record KeepsNewest (limit : ℕ) (root : Text) (entries : List Text) (context : Text)
    : Type 0 where
  pub newest : List Text
  pub skipped : List Text
  pub split : entries ≡ reverse skipped ++ newest
  pub shown : context ≡ joined root newest
  pub short : length context ≤ limit
  pub full : IsFull limit root skipped newest

-- The end of `render_thread_context`, for a root that fits.
rest_of_context : (ℤ → Text) → ℕ → Text → List Text → Text
rest_of_context format_time limit root entries =
    trim_to_chars
      (join_with (text "\n\n") (
        keep (λ e. not (is_blank e))
          (root
            ∷ select_replies format_time limit (length root) (not (is_blank root))
                (reverse entries))))
      limit
