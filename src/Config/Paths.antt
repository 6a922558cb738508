-- ===== src/Config/Paths.antt =====
-- Lexical paths and `path_is_inside` (src/config.rs). What the file system says of a path is a
-- parameter.
use webex_generic_account_bo.Base.{
  Bool, true, false, ◌&&◌, ◌||◌, Option, none, some, List, [], ◌∷◌, ◌++◌, ◌==◌, if◌then◌else◌,
  is_empty,
}
use mathlib.Core.List.{reverse}
use webex_generic_account_bo.Text.{Text, text, text_eq}
use webex_generic_account_bo.Config.Types.{FilePath}

-- What `std::path::Path` splits a Unix path into.
pub data Component : Type 0 where
  root_dir cur_dir parent_dir : Component
  normal : Text → Component

unfoldable pub component_eq : Component → Component → Bool
component_eq root_dir root_dir = true
component_eq cur_dir cur_dir = true
component_eq parent_dir parent_dir = true
component_eq (normal s) (normal t) = text_eq s t
component_eq _ _ = false

-- The pieces between slashes; `piece` is the piece being read, reversed.
unfoldable pub split_slash : Text → Text → List Text
split_slash piece [] = reverse piece ∷ []
split_slash piece (c ∷ s) = elim (c == b'/') [
  | true ↦ reverse piece ∷ split_slash [] s
  | false ↦ split_slash (c ∷ piece) s
]

unfoldable pub component_of : Text → Component
component_of s = if text_eq s (text "..") then parent_dir else normal s

-- Empty pieces and inner `.` are dropped.
unfoldable pub inner_components : List Text → List Component
unfolding component_of
inner_components [] = []
inner_components (s ∷ ss) =
    if is_empty s || text_eq s (text ".")
    then inner_components ss
    else component_of s ∷ inner_components ss

unfoldable pub relative_components : List Text → List Component
unfolding inner_components
relative_components [] = []
relative_components (s ∷ ss) =
    if text_eq s (text ".") then cur_dir ∷ inner_components ss else inner_components (s ∷ ss)

unfoldable pub is_absolute : FilePath → Bool
is_absolute [] = false
is_absolute (c ∷ s) = c == b'/'

unfoldable pub components : FilePath → List Component
unfolding is_absolute split_slash relative_components inner_components
components p =
    if is_absolute p
    then root_dir ∷ inner_components (split_slash [] p)
    else relative_components (split_slash [] p)

-- `PathBuf::pop`: the last component goes, but never the root. The list is reversed.
unfoldable pub pop : List Component → List Component
pop [] = []
pop (root_dir ∷ rest) = root_dir ∷ rest
pop (_ ∷ rest) = rest

-- `PathBuf::push`: an absolute component replaces the path. The list is reversed.
unfoldable pub push : List Component → Component → List Component
push acc root_dir = root_dir ∷ []
push acc c = c ∷ acc

-- The loop of `normalize_lexical`, over a reversed path.
unfoldable pub normalize_from : List Component → List Component → List Component
unfolding pop push
normalize_from acc [] = reverse acc
normalize_from acc (cur_dir ∷ cs) = normalize_from acc cs
normalize_from acc (parent_dir ∷ cs) = normalize_from (pop acc) cs
normalize_from acc (c ∷ cs) = normalize_from (push acc c) cs

unfoldable pub normalize_lexical : List Component → List Component
unfolding normalize_from
normalize_lexical cs = normalize_from [] cs

-- `path == root || path.starts_with(root)`, by components.
unfoldable pub path_starts_with : List Component → List Component → Bool
unfolding component_eq
path_starts_with path [] = true
path_starts_with [] (r ∷ rs) = false
path_starts_with (p ∷ ps) (r ∷ rs) = component_eq p r && path_starts_with ps rs

-- The host, as `std` shows it.
pub record Host : Type 0 where
  -- `env::current_dir`, by its components.
  pub current_dir : Option (List Component)
  -- `Path::canonicalize`.
  pub canonicalize : FilePath → Option (List Component)
  -- `env::var`.
  pub env_var : Text → Option Text
  -- `parse::<SocketAddr>`, and whether its address is a loopback address.
  pub parse_bind : Text → Option Bool

unfoldable pub absolute_lexical : Host → FilePath → List Component
unfolding is_absolute components normalize_lexical
absolute_lexical host p = normalize_lexical (
    if is_absolute p
    then components p
    else elim host.current_dir [ none ↦ cur_dir ∷ components p | some d ↦ d ++ components p ])

unfoldable pub path_is_inside : Host → FilePath → FilePath → Bool
unfolding path_starts_with absolute_lexical
path_is_inside host path root =
    let lexical_path = absolute_lexical host path in
    let lexical_root = absolute_lexical host root in
    if path_starts_with lexical_path lexical_root then true else elim (host.canonicalize path) [
      | some p ↦ elim (host.canonicalize root) [
        | some r ↦ path_starts_with p r
        | none ↦ path_starts_with p lexical_root
      ]
      | none ↦ elim (host.canonicalize root) [
        | some r ↦ path_starts_with lexical_path r
        | none ↦ false
      ]
    ]
