-- ===== src/Tool/Laws.antt =====
-- What a run of a tool returns, and that it ends.
use checker_olimp.Base.{ℕ, zero, suc, ◌≤◌, ◌≡◌, inl, inr, refl, leb, ◌==◌, Bool-cases, arith, List}
use checker_olimp.Base.Int.{ℤ, pos, negsuc}
use checker_olimp.Text.{Text}
use checker_olimp.Effect.Laws.{Post, returned, ended, Post-step, Post-bind}
use checker_olimp.System.{System}
use checker_olimp.Words.{sub_word}
use checker_olimp.Executor.{is_over_time}
use checker_olimp.Executor.Time.{kernel_plus_user_time}
use checker_olimp.Tool.{tool_limit, keep_or, return_code, watch_tool, run_tool, execute}

-- What `execute` can return: a code from 0 to 4, or -1.
abbrev pub IsCode : ℤ → Type 0
IsCode (pos code) = code ≤ 4
IsCode (negsuc n) = n ≡ 0

return_code-IsCode : (exit_code : ℕ) → IsCode (return_code exit_code)
unfolding return_code
return_code-IsCode exit_code = elim (Bool-cases (leb exit_code 4)) [
  | inl small ↦ rw small (ground arith)
  | inr large ↦ rw large refl
]

abbrev pub Code {ℓ} : {A : Type ℓ} → ℤ → A → Type 0
Code code _ = IsCode code

module _ (S : System) (process : S.Handle) (time_start : ℕ) where
  pub watch_tool-IsCode :
      (fuel exit_code : ℕ) (s : S.State)
      → Post Code (watch_tool S process time_start fuel exit_code s)
  unfolding watch_tool
  watch_tool-IsCode zero exit_code s = ended
  watch_tool-IsCode (suc fuel) exit_code s = Post-step _ λ answer s₁.
      elim (Bool-cases (keep_or exit_code answer == S.still_active)) [
        | inr stopped ↦ rw stopped (returned (return_code-IsCode _))
        | inl active ↦ rw active (
            Post-step _ λ times s₂. Post-step _ λ now s₃.
              elim (Bool-cases (
                is_over_time tool_limit (kernel_plus_user_time times.0 times.1)
                  (sub_word now time_start))) [
                    | inl late ↦ rw late (Post-step _ λ _ s₄. returned refl)
                    | inr in_time ↦ rw in_time (watch_tool-IsCode fuel _ s₃)
                  ])
      ]

pub run_tool-IsCode :
    (S : System) (fuel : ℕ) (command : Text) (s : S.State) → Post Code (run_tool S fuel command s)
unfolding run_tool
run_tool-IsCode S fuel command s = Post-step _ λ made s₃. Post-step _ λ start s₄.
    Post-bind (watch_tool-IsCode S made.1 start fuel 0 s₄)
      λ code s₅ h. Post-step _ λ _ s₆. Post-step _ λ _ s₇. returned h

-- If `execute` for a tool returns, its code is from 0 to 4, or -1.
pub execute-IsCode :
    (S : System) (fuel : ℕ) (program_path : Text) (argv : List Text) (s : S.State)
    → Post Code (execute S fuel program_path argv s)
unfolding execute
execute-IsCode S fuel program_path argv s =
    Post-step _ λ _ s₁. Post-step _ λ parts s₂. run_tool-IsCode S fuel _ s₂
