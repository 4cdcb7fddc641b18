-- ===== src/Config/Members.antt =====
-- What the readers of members give on a value that stands for a document.
use checker_olimp.Base.{ℕ, ◌+◌, ◌≡◌, ◌<◌, refl, ◌∙◌, ◌≤◌, true, false, arith}
use checker_olimp.Base.Int.{ℤ}
use checker_olimp.Text.{Text, c_str}
use checker_olimp.Effect.{ok, halted, exit, resume}
use checker_olimp.System.{System}
use checker_olimp.Words.{word}
use checker_olimp.Json.{Json}
use checker_olimp.Json.Document.{
  Doc, Fields, Items, text, natural, integer, object, array, Represents, HasField,
}
use checker_olimp.Assert.{assert_true, assert_false}
use checker_olimp.Paths.{reader_cpp}
use checker_olimp.Config.{
  required, string_member, uint_member, uint64_member, int_member, object_member, array_member,
}

module _ (S : System) (J : Json) (v : J.Value) (key : Text) (line : ℕ) (s : S.State) where
  required-HasField : (d : Doc) (h : HasField J v key d) → required S J v key line s ≡ (ok h.1, s)
  unfolding required resume
  required-HasField d h = rw h.0 (rw (assert_true S true reader_cpp line s refl) (rw h.2))

  pub string_member-HasField :
      (t : Text) → HasField J v key (text t) → string_member S J v key line s ≡ (ok (c_str t), s)
  unfolding string_member resume Represents
  string_member-HasField t h =
      rw (required-HasField (text t) h)
        (rw (assert_true S _ reader_cpp (line + 1) s h.3.0) (rw h.3.1))

  pub uint_member-HasField :
      (n : ℕ) → HasField J v key (natural n) → n < word → uint_member S J v key line s ≡ (ok n, s)
  unfolding uint_member resume Represents
  uint_member-HasField n h fits =
      let small : J.is_uint h.1 ≡ true = h.3.2 ∙ ground arith in
      rw (required-HasField (natural n) h)
        (rw (assert_true S _ reader_cpp (line + 1) s small) (rw (h.3.3 fits)))

  pub uint_member-large :
      (n : ℕ)
      → HasField J v key (natural n)
      → word ≤ n
      → (uint_member S J v key line s).0 ≡ halted (exit 1)
  unfolding uint_member resume Represents
  uint_member-large n h large =
      let not_uint : J.is_uint h.1 ≡ false = h.3.2 ∙ ground arith in
      rw (required-HasField (natural n) h) (rw (assert_false S _ reader_cpp (line + 1) s not_uint))

  pub uint64_member-HasField :
      (n : ℕ) → HasField J v key (natural n) → uint64_member S J v key line s ≡ (ok n, s)
  unfolding uint64_member resume Represents
  uint64_member-HasField n h =
      rw (required-HasField (natural n) h)
        (rw (assert_true S _ reader_cpp (line + 1) s h.3.0) (rw h.3.1))

  pub int_member-HasField :
      (z : ℤ) → HasField J v key (integer z) → int_member S J v key line s ≡ (ok z, s)
  unfolding int_member resume Represents
  int_member-HasField z h =
      rw (required-HasField (integer z) h)
        (rw (assert_true S _ reader_cpp (line + 1) s h.3.0) (rw h.3.1))

  pub object_member-HasField :
      (fs : Fields) (h : HasField J v key (object fs))
      → object_member S J v key line s ≡ (ok h.1, s)
  unfolding object_member resume Represents
  object_member-HasField fs h =
      rw (required-HasField (object fs) h) (rw (assert_true S _ reader_cpp (line + 2) s h.3.0))

  pub array_member-HasField :
      (ds : Items) (h : HasField J v key (array ds)) → array_member S J v key line s ≡ (ok h.1, s)
  unfolding array_member resume Represents
  array_member-HasField ds h =
      rw (required-HasField (array ds) h) (rw (assert_true S _ reader_cpp (line + 2) s h.3.0))
