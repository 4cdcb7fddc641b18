-- ===== src/Paths/Progress.antt =====
-- The functions on paths give a value, or end the process by an assertion.
use checker_olimp.Base.{none, ◌≡◌, ◌≢◌}
use checker_olimp.Text.{Text, c_str}
use checker_olimp.Effect.Laws.{Guarded, gives, Guarded-bind, Guarded-value, Guarded-Post}
use checker_olimp.Paths.Laws.{Names, get_full_path_name-Names}
use checker_olimp.System.{System}
use checker_olimp.Config.Safety.{AnyValue, assert-Guarded, value_of-Guarded}
use checker_olimp.Paths.{reader_cpp, get_full_path_name, get_directory_and_file, is_file_exist}

-- `GetFullPathName` writes a name to the buffer, for every path. It does so where it succeeds and the
-- name fits the buffer; so no path is too long for it, and none makes it fail before it writes.
abbrev pub WritesNames : System → Type 0
WritesNames S = (path : Text) (s : S.State) → (S.full_path_name path s).1 ≢ none

module _ (S : System) (W : WritesNames S) where
  pub get_full_path_name-Guarded :
      (path : Text) (s : S.State) → Guarded AnyValue (get_full_path_name S path s)
  unfolding get_full_path_name
  get_full_path_name-Guarded path s = Guarded-value _ (
      Guarded-bind (value_of-Guarded S _ s (W path s))
        λ buff s₁ _. Guarded-bind (assert-Guarded S _ reader_cpp 17 s₁) λ _ s₂ _. gives tt)

  -- The system's name for the path, in a system that is as it was.
  abbrev pub IsFullPath : Text → S.State → Text → S.State → Type 0
  IsFullPath path s full s' = Names S path s full × (s' ≡ s)

  pub get_full_path_name-IsFullPath :
      (path : Text) (s : S.State)
      → Guarded (IsFullPath path s) (get_full_path_name S (c_str path) s)
  get_full_path_name-IsFullPath path s =
      Guarded-Post (get_full_path_name-Guarded (c_str path) s) (get_full_path_name-Names S path s)

  pub get_directory_and_file-Guarded :
      (path : Text) (s : S.State) → Guarded AnyValue (get_directory_and_file S path s)
  unfolding get_directory_and_file
  get_directory_and_file-Guarded path s =
      Guarded-bind (get_full_path_name-Guarded (c_str path) s)
        λ whole s₁ _. Guarded-bind (assert-Guarded S _ reader_cpp 30 s₁) λ _ s₂ _. gives tt

module _ (S : System) where
  pub is_file_exist-Guarded :
      (path : Text) (s : S.State) → Guarded AnyValue (is_file_exist S path s)
  unfolding is_file_exist
  is_file_exist-Guarded path s = gives tt
