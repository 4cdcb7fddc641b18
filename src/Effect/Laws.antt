-- ===== src/Effect/Laws.antt =====
-- Postconditions of actions, as families over what an action ends in.
use checker_olimp.Base.{ℕ, ◌≡◌, ◌⊎◌, inl, inr, refl}
use checker_olimp.Text.{Text}
use checker_olimp.Effect.{Halt, exit, Outcome, ok, thrown, halted, Action, pure, resume}

-- Partial correctness: if the action returns a value, the value and the state left satisfy `P`.
pub data Post {W A : Type 0} (P : A → W → Type 0) : Outcome A × W → Type 0 where
  returned : {a : A} {w : W} → P a w → Post P (ok a, w)
  threw : {t : Text} {w : W} → Post P (thrown t, w)
  ended : {h : Halt} {w : W} → Post P (halted h, w)

-- Total correctness: the action does return a value, and it satisfies `P`.
pub data Returns {W A : Type 0} (P : A → W → Type 0) : Outcome A × W → Type 0 where
  returns : {a : A} {w : W} → P a w → Returns P (ok a, w)

-- What holds of the value that is returned.
pub Post-ok : {W A : Type 0} {Q : A → W → Type 0} {a : A} {w : W} → Post Q (ok a, w) → Q a w
Post-ok (returned h) = h

-- What an action returns is what it returns.
pub Post-refl : {W A : Type 0} (r : Outcome A × W) → Post (λ a w. r ≡ (ok a, w)) r
Post-refl (ok a, w) = returned refl
Post-refl (thrown t, w) = threw
Post-refl (halted h, w) = ended

-- The value and the state that an action ends in.
pub Returns-result :
    {W A : Type 0} {P : A → W → Type 0} {r : Outcome A × W}
    → Returns P r
    → (a : A) × (w : W) × (r ≡ (ok a, w)) × P a w
Returns-result (returns h) = (_, _, refl, h)

module _ {W A B : Type 0} {P : A → W → Type 0} {Q : B → W → Type 0} where
  pub Post-bind :
      {k : A → Action W B} {r : Outcome A × W}
      → Post P r
      → ((a : A) (w : W) → P a w → Post Q (k a w))
      → Post Q (resume k r)
  unfolding resume
  Post-bind (returned h) next = next _ _ h
  Post-bind threw next = threw
  Post-bind ended next = ended

  pub Returns-bind :
      {k : A → Action W B} {r : Outcome A × W}
      → Returns P r
      → ((a : A) (w : W) → P a w → Returns Q (k a w))
      → Returns Q (resume k r)
  unfolding resume
  Returns-bind (returns h) next = next _ _ h

-- What holds after the rest, whatever the first call gives.
module _ {W A B : Type 0} {Q : B → W → Type 0} where
  pub Post-step :
      {k : A → Action W B} (r : Outcome A × W)
      → ((a : A) (w : W) → Post Q (k a w))
      → Post Q (resume k r)
  unfolding resume
  Post-step (ok a, w) next = next a w
  Post-step (thrown t, w) next = threw
  Post-step (halted e, w) next = ended

-- The rest of an action whose first call gives a value.
module _ {W A B : Type 0} {Q : B → W → Type 0} where
  pub Post-value :
      (k : A → Action W B) {a : A} {w : W} → Post Q (k a w) → Post Q (resume k (ok a, w))
  unfolding resume
  Post-value k h = h

  pub Returns-value :
      (k : A → Action W B) {a : A} {w : W} → Returns Q (k a w) → Returns Q (resume k (ok a, w))
  unfolding resume
  Returns-value k h = h

  -- The same for a call whose end is known.
  pub Returns-ok :
      (k : A → Action W B) {r : Outcome A × W} {a : A} {w : W}
      → r ≡ (ok a, w)
      → Returns Q (k a w)
      → Returns Q (resume k r)
  unfolding resume
  Returns-ok k e h = rw e h

module _ {W A : Type 0} {P Q : A → W → Type 0} where
  pub Post-weaken : {r : Outcome A × W} → Post P r → ((a : A) (w : W) → P a w → Q a w) → Post Q r
  Post-weaken (returned h) f = returned (f _ _ h)
  Post-weaken threw f = threw
  Post-weaken ended f = ended

  pub Returns-weaken :
      {r : Outcome A × W} → Returns P r → ((a : A) (w : W) → P a w → Q a w) → Returns Q r
  Returns-weaken (returns h) f = returns (f _ _ h)

  -- An action that returns keeps what holds of it if it returns.
  pub Returns-Post : {r : Outcome A × W} → Returns P r → Post Q r → Returns Q r
  Returns-Post (returns h) p = returns (Post-ok p)

-- An action that returns has what it has if it returns, too.
pub Returns-both :
    {W A : Type 0} {P Q : A → W → Type 0} {r : Outcome A × W}
    → Returns P r
    → Post Q r
    → Returns (λ a w. Q a w × P a w) r
Returns-both (returns p) q = returns (Post-ok q, p)

-- A last step that only gives the value on changes nothing.
pub resume-pure : {W A : Type 0} (r : Outcome A × W) → resume pure r ≡ r
unfolding resume
resume-pure (ok a, w) = refl
resume-pure (thrown t, w) = refl
resume-pure (halted h, w) = refl

-- Once the process has ended, the rest is not run.
pub resume-halted :
    {W A B : Type 0} (k : A → Action W B) (r : Outcome A × W) {h : Halt}
    → r.0 ≡ halted h
    → (resume k r).0 ≡ halted h
unfolding resume
resume-halted k (ok a, w) e = cc
resume-halted k (thrown t, w) e = cc
resume-halted k (halted h, w) e = cc

-- The action gives a value that satisfies `P`, or ends the process by `exit`: it does nothing
-- undefined, throws nothing, and stays within its fuel.
pub data Guarded {W A : Type 0} (P : A → W → Type 0) : Outcome A × W → Type 0 where
  gives : {a : A} {w : W} → P a w → Guarded P (ok a, w)
  exits : {n : ℕ} {w : W} → Guarded P (halted (exit n), w)

module _ {W A B : Type 0} {P : A → W → Type 0} {Q : B → W → Type 0} where
  pub Guarded-bind :
      {k : A → Action W B} {r : Outcome A × W}
      → Guarded P r
      → ((a : A) (w : W) → P a w → Guarded Q (k a w))
      → Guarded Q (resume k r)
  unfolding resume
  Guarded-bind (gives h) next = next _ _ h
  Guarded-bind exits next = exits

-- The value given and the state left, or the end of the process.
pub Guarded-result :
    {W A : Type 0} {P : A → W → Type 0} {r : Outcome A × W}
    → Guarded P r
    → ((a : A) × (w : W) × (r ≡ (ok a, w)) × P a w) ⊎ ((n : ℕ) × (r.0 ≡ halted (exit n)))
Guarded-result (gives h) = inl (_, _, refl, h)
Guarded-result exits = inr (_, refl)

pub Guarded-weaken :
    {W A : Type 0} {P Q : A → W → Type 0} {r : Outcome A × W}
    → Guarded P r
    → ((a : A) (w : W) → P a w → Q a w)
    → Guarded Q r
Guarded-weaken (gives h) f = gives (f _ _ h)
Guarded-weaken exits f = exits

-- What holds after the rest may use what the first call gave.
pub Post-equation :
    {W A B : Type 0} {Q : B → W → Type 0} {k : A → Action W B} (r : Outcome A × W)
    → ((a : A) (w : W) → r ≡ (ok a, w) → Post Q (k a w))
    → Post Q (resume k r)
unfolding resume
Post-equation (ok a, w) next = next a w refl
Post-equation (thrown t, w) next = threw
Post-equation (halted e, w) next = ended

pub Post-both :
    {W A : Type 0} {P Q : A → W → Type 0} {r : Outcome A × W}
    → Post P r
    → Post Q r
    → Post (λ a w. P a w × Q a w) r
Post-both (returned p) q = returned (p, Post-ok q)
Post-both threw q = threw
Post-both ended q = ended

-- The rest of an action whose first call gives a value.
pub Guarded-value :
    {W A B : Type 0} {Q : B → W → Type 0} (k : A → Action W B) {a : A} {w : W}
    → Guarded Q (k a w)
    → Guarded Q (resume k (ok a, w))
unfolding resume
Guarded-value k h = h

-- What returns is guarded, and a guarded action keeps what holds of it if it returns.
module _ {W A : Type 0} {P Q : A → W → Type 0} where
  pub Returns-Guarded :
      {r : Outcome A × W} → Returns P r → ((a : A) (w : W) → P a w → Q a w) → Guarded Q r
  Returns-Guarded (returns h) f = gives (f _ _ h)

  pub Guarded-Post : {r : Outcome A × W} → Guarded P r → Post Q r → Guarded Q r
  Guarded-Post (gives h) p = gives (Post-ok p)
  Guarded-Post exits p = exits

-- What holds after the rest may use what the first call gave.
pub Guarded-equation :
    {W A B : Type 0} {P : A → W → Type 0} {Q : B → W → Type 0} {k : A → Action W B}
    {r : Outcome A × W}
    → Guarded P r
    → ((a : A) (w : W) → r ≡ (ok a, w) → Guarded Q (k a w))
    → Guarded Q (resume k r)
unfolding resume
Guarded-equation (gives h) next = next _ _ refl
Guarded-equation exits next = exits

-- If the action throws, the message satisfies `P`.
pub data Throws {W A : Type 0} (P : Text → Type 0) : Outcome A × W → Type 0 where
  gave : {a : A} {w : W} → Throws P (ok a, w)
  throws : {t : Text} {w : W} → P t → Throws P (thrown t, w)
  stopped : {h : Halt} {w : W} → Throws P (halted h, w)

module _ {W A B : Type 0} {P : Text → Type 0} where
  pub Throws-bind :
      {k : A → Action W B} {r : Outcome A × W}
      → Throws P r
      → ((a : A) (w : W) → Throws P (k a w))
      → Throws P (resume k r)
  unfolding resume
  Throws-bind gave next = next _ _
  Throws-bind (throws h) next = throws h
  Throws-bind stopped next = stopped

-- What the action throws is what it throws.
pub Throws-refl :
    {W A : Type 0} (m : Action W A) (w : W)
    → Throws (λ t. (w₁ : W) × (w₂ : W) × (m w₁ ≡ (thrown t, w₂))) (m w)
Throws-refl m w = cases m w (m w) refl
  where
    cases :
        {W A : Type 0} (m : Action W A) (w : W) (r : Outcome A × W)
        → m w ≡ r
        → Throws (λ t. (w₁ : W) × (w₂ : W) × (m w₁ ≡ (thrown t, w₂))) r
    cases m w (ok a, w') e = gave
    cases m w (thrown t, w') e = throws (w, w', e)
    cases m w (halted h, w') e = stopped

-- A first call that leaves the state as it was.
pub Post-kept :
    {W A B : Type 0} {P : A → Type 0} {Q : B → W → Type 0} (k : A → Action W B) {r : Outcome A × W}
    {w : W}
    → Post (λ a w'. P a × (w' ≡ w)) r
    → ((a : A) → P a → Post Q (k a w))
    → Post Q (resume k r)
unfolding resume
Post-kept k (returned (p, e)) next = rw e (next _ p)
Post-kept k threw next = threw
Post-kept k ended next = ended
