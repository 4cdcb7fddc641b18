-- ===== src/Json.antt =====
-- The part of rapidjson that the programs call, as an interface: reading values of a parsed
-- document, and writing. In a reading `none` stands for a failed `RAPIDJSON_ASSERT`.
pub mod Document
use checker_olimp.Base.{ℕ, ◌≢◌, ◌≡◌, ◌<◌, Bool, true, Option, none, some, List}
use checker_olimp.Base.Int.{ℤ}
use checker_olimp.Text.{Text}

-- The calls of a `rapidjson::Writer`.
pub data Event : Type 0 where
  start_object end_object start_array end_array : Event
  string : Text → Event
  uint64 : ℕ → Event
  int : ℤ → Event

pub record Json : Type 1 where
  pub Value : Type 0
  -- `Document::Parse`
  pub parse : Text → Value
  -- `HasMember` and `operator[]` on an object
  pub has_member : Value → Text → Option Bool
  pub member : Value → Text → Option Value
  pub is_object : Value → Bool
  pub is_array : Value → Bool
  pub is_string : Value → Bool
  pub is_uint : Value → Bool
  pub is_uint64 : Value → Bool
  pub is_int : Value → Bool
  pub get_string : Value → Option Text
  pub get_uint : Value → Option ℕ
  pub get_uint64 : Value → Option ℕ
  pub get_int : Value → Option ℤ
  -- `Size` and `operator[]` on an array
  pub size : Value → Option ℕ
  pub element : Value → ℕ → Option Value
  -- The text in the `StringBuffer` after the calls.
  pub render : List Event → Text

-- rapidjson's assertions: a reading does not fail on a value of its kind.
pub record IsChecked (J : Json) : Type 0 where
  pub has_member_object : (v : J.Value) (k : Text) → J.is_object v ≡ true → J.has_member v k ≢ none
  pub member_present : (v : J.Value) (k : Text) → J.has_member v k ≡ some true → J.member v k ≢ none
  pub get_string_string : (v : J.Value) → J.is_string v ≡ true → J.get_string v ≢ none
  pub get_uint_uint : (v : J.Value) → J.is_uint v ≡ true → J.get_uint v ≢ none
  pub get_uint64_uint64 : (v : J.Value) → J.is_uint64 v ≡ true → J.get_uint64 v ≢ none
  pub get_int_int : (v : J.Value) → J.is_int v ≡ true → J.get_int v ≢ none
  pub size_array : (v : J.Value) → J.is_array v ≡ true → J.size v ≢ none
  pub element_array :
      (v : J.Value) (n i : ℕ)
      → J.is_array v ≡ true
      → J.size v ≡ some n
      → i < n
      → J.element v i ≢ none
