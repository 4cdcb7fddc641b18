-- ===== src/Contester/Tables.antt =====
-- What the contester relies on of the tables: a view of the solutions in them, which the statements
-- of the program change as SQL says, and nothing else does.
use checker_olimp.Base.{ℕ, ◌≡◌, ◌∙◌, true, List, ◌++◌, length, Any, All, ◌≢◌}
use checker_olimp.Base.Int.{ℤ}
use checker_olimp.Text.{Text, lit, c_str}
use checker_olimp.Text.Decimal.{of_int}
use checker_olimp.System.{System, Shell}
use checker_olimp.Contester.Database.{MySql}
use checker_olimp.Contester.Data.Stored.{Lists}
use checker_olimp.Contester.Solution.{Solution, status_not_checked}
use checker_olimp.Contester.Solution.Stored.{HoldsSolution}
use checker_olimp.Contester.Checker.{content_or_empty}
use checker_olimp.Contester.Queue.{keys, Distinct, IsWaiting, waiting_count, finish, at_most}

-- The statements on the solutions that wait.
abbrev pub not_checked_sql : Text
not_checked_sql =
    lit "select id from solutions where status = " ++ (of_int status_not_checked ++ lit " limit 10")

abbrev pub update_sql : Text → ℤ → Text
update_sql result id =
    lit "UPDATE solutions SET result = '"
    ++ (result ++ (lit "', status = 1 WHERE id = " ++ of_int id))

-- A text that stands between quotes for itself: without a NUL, a quote or a backslash.
abbrev pub IsPlain : Text → Type 0
IsPlain = All (λ c. (c ≢ 0) × (c ≢ 39) × (c ≢ 92))

-- While the server answers, each solution is held with all that belongs to it.
abbrev pub AllHeld : {W : Type 0} → MySql W → (W → Type 0) → (W → List Solution) → Type 0
AllHeld {W = W} D IsUp view =
    (s : W) (x : Solution) → IsUp s → Any (λ y. y ≡ x) (view s) → HoldsSolution D s x

-- The server still answers, and the solutions are the same.
pub record Same {W : Type 0} (IsUp : W → Type 0) (view : W → List Solution) (s s' : W)
    : Type 0 where
  pub up : IsUp s'
  pub kept : view s' ≡ view s

pub record TableView (S : System) (H : Shell S.State) (D : MySql S.State) : Type 1 where
  -- The server answers, on a connection that was made, and what stands in the result file, if it is
  -- there, is plain.
  pub IsUp : S.State → Type 0
  pub plain_result :
      (s : S.State) → IsUp s → IsPlain (content_or_empty (S.read_file (lit "result.json") s))
  pub view : S.State → List Solution
  -- The id is the key.
  pub distinct : (s : S.State) → IsUp s → Distinct (keys (view s))
  -- The query gives ten different ids of solutions that wait, in some order, or all if they are fewer.
  pub chosen : S.State → List ℤ
  pub listed : (s : S.State) → IsUp s → Lists D s not_checked_sql (chosen s)
  pub chosen_distinct : (s : S.State) → IsUp s → Distinct (chosen s)
  pub chosen_waiting : (s : S.State) → IsUp s → All (λ id. IsWaiting id (view s)) (chosen s)
  pub chosen_count :
      (s : S.State) → IsUp s → length (chosen s) ≡ at_most 10 (waiting_count (view s))
  -- The update changes the row with the id.
  pub updated :
      (s : S.State) (id : ℤ) (result : Text)
      → IsUp s
      → IsPlain result
      → IsWaiting id (view s)
      → (s₁ : S.State) × (D.query (c_str (update_sql result id)) s ≡ (true, s₁))
        × IsUp s₁
        × (view s₁ ≡ finish id result (view s))
  -- The files that are written, those that are removed, the command, the clock and the console leave
  -- that so, and the tables alone.
  pub write_keeps :
      (ending text : Text) (s : S.State)
      → IsUp s
      → Same IsUp view s (S.write_file (lit "solution" ++ ending) text s).1
  pub remove_keeps : (path : Text) (s : S.State) → IsUp s → Same IsUp view s (S.remove_file path s)
  pub command_keeps :
      (command : Text) (s : S.State) → IsUp s → Same IsUp view s (H.run_command command s)
  pub clock_keeps : (s : S.State) → IsUp s → Same IsUp view s (H.clock s).1
  pub print_keeps : (text : Text) (s : S.State) → IsUp s → Same IsUp view s (S.print_error text s)
  pub sleep_keeps : (time : ℕ) (s : S.State) → IsUp s → Same IsUp view s (S.sleep time s)

pub Same-trans :
    {W : Type 0} {IsUp : W → Type 0} {view : W → List Solution} {s₁ s₂ s₃ : W}
    → Same IsUp view s₁ s₂
    → (IsUp s₂ → Same IsUp view s₂ s₃)
    → Same IsUp view s₁ s₃
Same-trans h next = record { up = (next h.up).up; kept = (next h.up).kept ∙ h.kept }
