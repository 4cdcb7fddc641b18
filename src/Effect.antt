-- ===== src/Effect.antt =====
-- How a call of the programs ends, and the state passing that joins calls: an action takes the state
-- of the system that the program runs on, and gives an outcome and the state it leaves.
pub mod Laws
use checker_olimp.Base.{ℕ, Option, none, some}
use checker_olimp.Text.{Text}

-- Ends of the whole process. `undefined` stands for undefined behaviour of the C++ code (a read of a
-- variable without a value, an index out of range), `uncaught` for an exception that no handler takes,
-- and `out_of_fuel` for a loop that was cut off; it has no counterpart in the programs.
pub data Halt : Type 0 where
  exit : ℕ → Halt
  undefined uncaught out_of_fuel : Halt

-- `thrown` is a `throw exception(message)`, which a caller can catch.
pub data Outcome {ℓ} (A : Type ℓ) : Type ℓ where
  ok : A → Outcome A
  thrown : Text → Outcome A
  halted : Halt → Outcome A

abbrev pub Action : Type 0 → Type 0 → Type 0
Action W A = W → Outcome A × W

module _ {W : Type 0} where
  abbrev pub pure : {A : Type 0} → A → Action W A
  pure a w = (ok a, w)

  abbrev pub halt : {A : Type 0} → Halt → Action W A
  halt h w = (halted h, w)

  abbrev pub throw : {A : Type 0} → Text → Action W A
  throw message w = (thrown message, w)

  -- A look at the system that leaves it as it is, a change of it, and a call that does both.
  abbrev pub query : {A : Type 0} → (W → A) → Action W A
  query f w = (ok (f w), w)

  abbrev pub effect : (W → W) → Action W (Unit {0})
  effect f w = (ok tt, f w)

  abbrev pub call : {A : Type 0} → (W → A × W) → Action W A
  call f w = (ok (f w).0, (f w).1)

-- A value that may be missing is used: without it the behaviour is undefined.
abbrev pub value_of : {W A : Type 0} → Option A → Action W A
value_of none = halt undefined
value_of (some a) = pure a

-- What a call that has ended passes on to the rest.
unfoldable pub resume : {W A B : Type 0} → (A → Action W B) → Outcome A × W → Outcome B × W
resume f (ok a, w) = f a w
resume f (thrown t, w) = (thrown t, w)
resume f (halted h, w) = (halted h, w)

infixl 5 ◌>>=◌ ◌>>◌
abbrev pub ◌>>=◌ : {W A B : Type 0} → Action W A → (A → Action W B) → Action W B
◌>>=◌ m f w = resume f (m w)

abbrev pub ◌>>◌ : {W A B : Type 0} → Action W A → Action W B → Action W B
m >> k = m >>= λ _. k

-- `try { m } catch (exception e) { handler }`
unfoldable pub handle : {W A : Type 0} → (Text → Action W A) → Outcome A × W → Outcome A × W
handle handler (ok a, w) = (ok a, w)
handle handler (thrown t, w) = handler t w
handle handler (halted h, w) = (halted h, w)

abbrev pub try_catch : {W A : Type 0} → Action W A → (Text → Action W A) → Action W A
try_catch m handler w = handle handler (m w)
