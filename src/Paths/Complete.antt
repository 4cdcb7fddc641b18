-- ===== src/Paths/Complete.antt =====
-- The functions on paths, where the full names are known and the files are there.
use checker_olimp.Base.{◌≡◌, ◌≢◌, inl, inr, true, none, Option-cases}
use checker_olimp.Text.{Text, c_str}
use checker_olimp.Effect.{ok}
use checker_olimp.System.{System}
use checker_olimp.Paths.{get_full_path_name, get_directory_and_file, is_file_exist}
use checker_olimp.Paths.Laws.{Names, SplitsAs, named_lem, get_directory_and_file_iff}

module _ (S : System) where
  -- In every state of the system the path has that full name.
  abbrev pub HasFullName : Text → Text → Type 0
  HasFullName path full = (s : S.State) → Names S path s full

  -- In every state of the system the file can be read.
  abbrev pub IsThere : Text → Type 0
  IsThere path = (s : S.State) → S.read_file path s ≢ none

  -- The path is that of a file that can be read, which stands in the directory; a full name is the
  -- full name of itself.
  pub record IsFileOf (directory path full : Text) : Type 0 where
    pub name : Text
    pub named : HasFullName path full
    pub absolute : HasFullName full full
    pub split : SplitsAs full directory name
    pub there : IsThere full

  pub get_full_path_name-HasFullName :
      (path full : Text) (s : S.State)
      → HasFullName path full
      → get_full_path_name S (c_str path) s ≡ (ok full, s)
  get_full_path_name-HasFullName path full s h = named_lem S path s full (h s)

  pub is_file_exist-IsThere :
      (path : Text) (s : S.State) → IsThere path → is_file_exist S path s ≡ (ok true, s)
  unfolding is_file_exist
  is_file_exist-IsThere path s h = elim (Option-cases (S.read_file path s)) [
    | inl missing ↦ absurd (h s missing)
    | inr (text, found) ↦ rw found
  ]

  pub get_directory_and_file-HasFullName :
      (path full directory name : Text) (s : S.State)
      → HasFullName path full
      → SplitsAs full directory name
      → get_directory_and_file S path s ≡ (ok (directory, name), s)
  get_directory_and_file-HasFullName path full directory name s h split =
      (get_directory_and_file_iff S path s directory name).1 (full, h s, split)
