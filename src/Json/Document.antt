-- ===== src/Json/Document.antt =====
-- JSON documents as trees: the calls of the writer that write one, and what a parsed value must
-- answer to stand for it.
use checker_olimp.Base.{ℕ, suc, ◌+◌, ◌<◌, ◌≡◌, true, some, List, [], ◌∷◌, ltb}
use checker_olimp.Base.Int.{ℤ}
use checker_olimp.Text.{Text, c_str}
use checker_olimp.Words.{word}
use checker_olimp.Json.{
  Json, Event, start_object, end_object, start_array, end_array, string, uint64, int,
}

-- A number is a natural one, written by `Uint64`, or an `int`, written by `Int`.
mutual
  pub data Doc : Type 0 where
    text : Text → Doc
    natural : ℕ → Doc
    integer : ℤ → Doc
    object : Fields → Doc
    array : Items → Doc

  pub data Fields : Type 0 where
    no_fields : Fields
    field : Text → Doc → Fields → Fields

  pub data Items : Type 0 where
    no_items : Items
    item : Doc → Items → Items

-- The calls that write a document, in front of further ones.
unfoldable mutual
  pub events : Doc → List Event → List Event
  events (text t) es = string t ∷ es
  events (natural n) es = uint64 n ∷ es
  events (integer z) es = int z ∷ es
  events (object fs) es = start_object ∷ field_events fs (end_object ∷ es)
  events (array ds) es = start_array ∷ item_events ds (end_array ∷ es)

  pub field_events : Fields → List Event → List Event
  field_events no_fields es = es
  field_events (field k d fs) es = string k ∷ events d (field_events fs es)

  pub item_events : Items → List Event → List Event
  item_events no_items es = es
  item_events (item d ds) es = events d (item_events ds es)

abbrev pub count : Items → ℕ
count no_items = 0
count (item d ds) = suc (count ds)

-- rapidjson's answers about a value that was parsed from the text of a document with distinct keys.
-- A natural number is `IsUint` if it has 32 bits.
module _ (J : Json) where
  unfoldable mutual
    pub Represents : J.Value → Doc → Type 0
    Represents v (text t) = (J.is_string v ≡ true) × (J.get_string v ≡ some t)
    Represents v (natural n) =
        (J.is_uint64 v ≡ true)
        × (J.get_uint64 v ≡ some n)
        × (J.is_uint v ≡ ltb n word)
        × (n < word → J.get_uint v ≡ some n)
    Represents v (integer z) = (J.is_int v ≡ true) × (J.get_int v ≡ some z)
    Represents v (object fs) = (J.is_object v ≡ true) × HasFields v fs
    Represents v (array ds) = (J.is_array v ≡ true) × (J.size v ≡ some (count ds)) × HasItems v 0 ds

    pub HasFields : J.Value → Fields → Type 0
    HasFields v no_fields = Unit
    HasFields v (field k d fs) =
        ((J.has_member v k ≡ some true) × (m : J.Value) × (J.member v k ≡ some m) × Represents m d)
        × HasFields v fs

    pub HasItems : J.Value → ℕ → Items → Type 0
    HasItems v i no_items = Unit
    HasItems v i (item d ds) =
        ((e : J.Value) × (J.element v i ≡ some e) × Represents e d) × HasItems v (i + 1) ds

  -- The value has the member, which stands for the document.
  abbrev pub HasField : J.Value → Text → Doc → Type 0
  HasField v k d =
      (J.has_member v k ≡ some true) × (m : J.Value) × (J.member v k ≡ some m) × Represents m d

  -- What the writer has written is parsed to a value that stands for the document. The text is passed
  -- on as a `const char *` twice, to the file and to the parser.
  abbrev pub ReadsBack : Doc → Type 0
  ReadsBack d = Represents (J.parse (c_str (c_str (J.render (events d []))))) d
