-- ===== src/Paths.antt =====
-- checker_rc/reader.cpp, the path functions that every part of the checker uses.
pub mod Laws
pub mod Progress
pub mod Complete
use checker_olimp.Base.{
  ℕ, zero, suc, ◌+◌, ◌-◌, Bool, true, false, ◌&&◌, not, Option, none, some, [], ◌∷◌, ◌++◌, length,
  get_elem?, take, drop, ltb, ◌==◌, if◌then◌else◌,
}
use checker_olimp.Text.{Text, lit, c_str}
use checker_olimp.Effect.{Action, pure, query, value_of, ◌>>=◌, ◌>>◌}
use checker_olimp.System.{System}
use checker_olimp.Assert.{checker_assert}

abbrev pub reader_cpp : Text
reader_cpp = lit "reader.cpp"

-- Is the byte at the position a backslash?
abbrev backslash_at : Text → ℕ → Bool
backslash_at path pos = elim (get_elem? path pos) [ none ↦ false | some c ↦ c == 92 ]

-- The loop of `get_directory_and_file`, over the positions below the given one; `none` is -1.
scan_back : Text → ℕ → Option ℕ
scan_back path zero = none
scan_back path (suc pos) = if backslash_at path pos then some pos else scan_back path pos

-- The test on the position that ends the loop. At -1 it fails, since -1 is compared as the largest
-- unsigned number.
splits_at : Text → Option ℕ → Bool
splits_at path none = false
splits_at path (some pos) = not (pos == 0) && ltb pos (length path - 1)

-- `path.substr(0, pos)` and `path.substr(pos + 1)`. The assertion before lets no -1 come here.
cut_at : Text → Option ℕ → Text × Text
cut_at path none = (path, [])
cut_at path (some pos) = (take pos path, drop (pos + 1) path)

unfoldable pub restore_path : Text → Text → Text
restore_path profile_path file_name = profile_path ++ (92 ∷ file_name)

module _ (S : System) where
  -- The buffer is copied before the value returned is looked at; without a text in it that is
  -- undefined.
  unfoldable pub get_full_path_name : Text → Action S.State Text
  get_full_path_name path = do
    (retval, buff) ← query (S.full_path_name path)
    full_path ← value_of buff
    checker_assert S (not (retval == 0)) reader_cpp 17
    pure (c_str full_path)

  -- The directory and the name of the file.
  unfoldable pub get_directory_and_file : Text → Action S.State (Text × Text)
  unfolding scan_back splits_at cut_at
  get_directory_and_file path = do
    full ← get_full_path_name (c_str path)
    let pos = scan_back full (length full)
    checker_assert S (splits_at full pos) reader_cpp 30
    pure (cut_at full pos)

  unfoldable pub is_file_exist : Text → Action S.State Bool
  is_file_exist path = query (λ s. elim (S.read_file path s) [ none ↦ false | some _ ↦ true ])
