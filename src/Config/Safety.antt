-- ===== src/Config/Safety.antt =====
-- `read_main_config` asserts what a value is before it reads it. Two assertions are missing: that
-- the document is an object, and that the elements of `tests` are.
use checker_olimp.Base.{
  ℕ, ◌+◌, ◌≡◌, ◌≢◌, refl, Bool, true, Option, none, some, inl, inr, Bool-cases,
}
use checker_olimp.Text.{Text}
use checker_olimp.Effect.{value_of}
use checker_olimp.Effect.Laws.{Guarded, gives, exits, Guarded-bind, Guarded-weaken}
use checker_olimp.System.{System}
use checker_olimp.Json.{Json, IsChecked}
use checker_olimp.Assert.{checker_assert, assert_true, assert_false}
use checker_olimp.Paths.{reader_cpp}
use checker_olimp.Config.{
  required, string_member, uint_member, uint64_member, int_member, object_member, array_member,
}

abbrev pub AnyValue {ℓ κ} : {A : Type ℓ} {W : Type κ} → A → W → Type 0
AnyValue _ _ = Unit

module _ (S : System) where
  pub assert-Guarded :
      (b : Bool) (file : Text) (line : ℕ) (s : S.State)
      → Guarded (λ _ _. b ≡ true) (checker_assert S b file line s)
  assert-Guarded b file line s = elim (Bool-cases b) [
    | inl e ↦ rw (assert_true S b file line s e) (gives e)
    | inr e ↦ rw (assert_false S b file line s e) exits
  ]

  pub value_of-Guarded :
      {A : Type 0} (o : Option A) (s : S.State)
      → o ≢ none
      → Guarded (λ a _. o ≡ some a) (value_of o s)
  value_of-Guarded none s h = absurd (h refl)
  value_of-Guarded (some a) s h = gives refl

module _ (S : System) (J : Json) (C : IsChecked J) (v : J.Value) (key : Text) (line : ℕ)
    (s : S.State) (o : J.is_object v ≡ true) where
  pub required-Guarded : Guarded (λ m _. J.member v key ≡ some m) (required S J v key line s)
  unfolding required
  required-Guarded =
      Guarded-bind (value_of-Guarded S _ s (C.has_member_object v key o)) λ present s₁ e.
        Guarded-bind (assert-Guarded S present reader_cpp line s₁)
          λ _ s₂ p. value_of-Guarded S _ s₂ (C.member_present v key (rw p at e))

  pub string_member-Guarded : Guarded AnyValue (string_member S J v key line s)
  unfolding string_member
  string_member-Guarded = Guarded-bind required-Guarded λ m s₁ _.
      Guarded-bind (assert-Guarded S (J.is_string m) reader_cpp (line + 1) s₁) λ _ s₂ p.
        Guarded-bind (value_of-Guarded S _ s₂ (C.get_string_string m p)) λ _ s₃ _. gives tt

  pub uint_member-Guarded : Guarded AnyValue (uint_member S J v key line s)
  unfolding uint_member
  uint_member-Guarded = Guarded-bind required-Guarded λ m s₁ _.
      Guarded-bind (assert-Guarded S (J.is_uint m) reader_cpp (line + 1) s₁)
        λ _ s₂ p. Guarded-weaken (value_of-Guarded S _ s₂ (C.get_uint_uint m p)) λ _ _ _. tt

  pub uint64_member-Guarded : Guarded AnyValue (uint64_member S J v key line s)
  unfolding uint64_member
  uint64_member-Guarded = Guarded-bind required-Guarded λ m s₁ _.
      Guarded-bind (assert-Guarded S (J.is_uint64 m) reader_cpp (line + 1) s₁)
        λ _ s₂ p. Guarded-weaken (value_of-Guarded S _ s₂ (C.get_uint64_uint64 m p)) λ _ _ _. tt

  pub int_member-Guarded : Guarded AnyValue (int_member S J v key line s)
  unfolding int_member
  int_member-Guarded = Guarded-bind required-Guarded λ m s₁ _.
      Guarded-bind (assert-Guarded S (J.is_int m) reader_cpp (line + 1) s₁)
        λ _ s₂ p. Guarded-weaken (value_of-Guarded S _ s₂ (C.get_int_int m p)) λ _ _ _. tt

  pub object_member-Guarded :
      Guarded
        (λ m _. (J.member v key ≡ some m) × (J.is_object m ≡ true))
        (object_member S J v key line s)
  unfolding object_member
  object_member-Guarded = Guarded-bind required-Guarded λ m s₁ e.
      Guarded-bind (assert-Guarded S (J.is_object m) reader_cpp (line + 2) s₁)
        λ _ s₂ p. gives (e, p)

  pub array_member-Guarded :
      Guarded
        (λ m _. (J.member v key ≡ some m) × (J.is_array m ≡ true))
        (array_member S J v key line s)
  unfolding array_member
  array_member-Guarded = Guarded-bind required-Guarded λ m s₁ e.
      Guarded-bind (assert-Guarded S (J.is_array m) reader_cpp (line + 2) s₁) λ _ s₂ p. gives (e, p)
