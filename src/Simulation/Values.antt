-- ===== src/Simulation/Values.antt =====
-- JSON libraries whose values are documents.
use checker_olimp.Base.{
  ℕ, zero, suc, ◌≡◌, ◌≢◌, ◌<◌, arith, Bool, true, false, Option, none, some, ltb, if◌then◌else◌,
}
use checker_olimp.Base.Int.{ℤ, pos}
use checker_olimp.Text.{Text, lit, text_eq}
use checker_olimp.Words.{word, long_word}
use checker_olimp.Json.{Json, IsChecked}
use checker_olimp.Json.Document.{
  Doc, text, natural, integer, object, array, Fields, no_fields, field, Items, no_items, item,
  count,
}

abbrev find_field : Fields → Text → Option Doc
find_field no_fields key = none
find_field (field k d fs) key =
    let rest = find_field fs key in if text_eq k key then some d else rest

abbrev is_some : Option Doc → Bool
is_some none = false
is_some (some _) = true

abbrev has_member : Doc → Text → Option Bool
has_member (object fs) key = some (is_some (find_field fs key))
has_member _ key = none

abbrev member : Doc → Text → Option Doc
member (object fs) key = find_field fs key
member _ key = none

abbrev pub is_object : Doc → Bool
is_object (object _) = true
is_object _ = false

abbrev is_array : Doc → Bool
is_array (array _) = true
is_array _ = false

abbrev is_string : Doc → Bool
is_string (text _) = true
is_string _ = false

abbrev get_string : Doc → Option Text
get_string (text t) = some t
get_string _ = none

abbrev is_below : ℕ → Doc → Bool
is_below limit (natural n) = ltb n limit
is_below limit _ = false

abbrev get_below : ℕ → Doc → Option ℕ
get_below limit (natural n) = if ltb n limit then some n else none
get_below limit _ = none

-- An `int` that is not negative is also written by `Uint64`.
abbrev is_int : Doc → Bool
is_int (integer z) = true
is_int (natural n) = ltb n 2147483648
is_int _ = false

abbrev get_int : Doc → Option ℤ
get_int (integer z) = some z
get_int (natural n) = if ltb n 2147483648 then some (pos n) else none
get_int _ = none

abbrev size : Doc → Option ℕ
size (array ds) = some (count ds)
size _ = none

abbrev nth : Items → ℕ → Option Doc
nth no_items i = none
nth (item d ds) zero = some d
nth (item d ds) (suc i) = nth ds i

abbrev element : Doc → ℕ → Option Doc
element (array ds) i = nth ds i
element _ i = none

-- Each text is parsed to what the function says.
abbrev pub docs_json : (Text → Doc) → Json
docs_json parse = record {
  Value = Doc;
  parse = parse;
  has_member = has_member;
  member = member;
  is_object = is_object;
  is_array = is_array;
  is_string = is_string;
  is_uint = is_below word;
  is_uint64 = is_below long_word;
  is_int = is_int;
  get_string = get_string;
  get_uint = get_below word;
  get_uint64 = get_below long_word;
  get_int = get_int;
  size = size;
  element = element;
  render = λ events. lit "document";
}

abbrev pub doc_json : Doc → Json
doc_json document = docs_json (λ _. document)

has_member_lem : (v : Doc) (k : Text) → is_object v ≡ true → has_member v k ≢ none
has_member_lem (object fs) k o h = cc
has_member_lem (text _) k o h = cc
has_member_lem (natural _) k o h = cc
has_member_lem (integer _) k o h = cc
has_member_lem (array _) k o h = cc

member_lem : (v : Doc) (k : Text) → has_member v k ≡ some true → member v k ≢ none
member_lem (object fs) k o h = cc (rw h at o)
member_lem (text _) k o h = cc
member_lem (natural _) k o h = cc
member_lem (integer _) k o h = cc
member_lem (array _) k o h = cc

get_string_lem : (v : Doc) → is_string v ≡ true → get_string v ≢ none
get_string_lem (text t) o h = cc
get_string_lem (object _) o h = cc
get_string_lem (natural _) o h = cc
get_string_lem (integer _) o h = cc
get_string_lem (array _) o h = cc

get_below_lem : (limit : ℕ) (v : Doc) → is_below limit v ≡ true → get_below limit v ≢ none
get_below_lem limit (natural n) o h = cc (rw o at h)
get_below_lem limit (integer _) o h = cc
get_below_lem limit (object _) o h = cc
get_below_lem limit (text _) o h = cc
get_below_lem limit (array _) o h = cc

get_int_lem : (v : Doc) → is_int v ≡ true → get_int v ≢ none
get_int_lem (natural n) o h = cc (rw o at h)
get_int_lem (integer z) o h = cc
get_int_lem (object _) o h = cc
get_int_lem (text _) o h = cc
get_int_lem (array _) o h = cc

size_lem : (v : Doc) → is_array v ≡ true → size v ≢ none
size_lem (array _) o h = cc
size_lem (object _) o h = cc
size_lem (text _) o h = cc
size_lem (natural _) o h = cc
size_lem (integer _) o h = cc

nth_lem : (ds : Items) (i : ℕ) → i < count ds → nth ds i ≢ none
nth_lem no_items i l h = absurd (omega arith)
nth_lem (item d ds) zero l h = cc
nth_lem (item d ds) (suc i) l h = nth_lem ds i (omega arith) h

element_lem : (v : Doc) (n i : ℕ) → is_array v ≡ true → size v ≡ some n → i < n → element v i ≢ none
element_lem (array ds) n i o z l h = nth_lem ds i (let e : count ds ≡ n = cc in omega (arith, e)) h
element_lem (object _) n i o z l h = cc
element_lem (text _) n i o z l h = cc
element_lem (natural _) n i o z l h = cc
element_lem (integer _) n i o z l h = cc

pub doc_json-IsChecked : (document : Doc) → IsChecked (doc_json document)
doc_json-IsChecked document = record {
  has_member_object = has_member_lem;
  member_present = member_lem;
  get_string_string = get_string_lem;
  get_uint_uint = get_below_lem word;
  get_uint64_uint64 = get_below_lem long_word;
  get_int_int = get_int_lem;
  size_array = size_lem;
  element_array = element_lem;
}
