-- ===== src/Executor/Keeps.antt =====
-- `executor::execute` keeps the configuration of the object, so that one object serves all tests.
use checker_olimp.Base.{arith, ℕ, ◌≡◌, inl, inr, none, some, Bool-cases, Option-cases}
use checker_olimp.Text.{Text, c_str}
use checker_olimp.Effect.{resume}
use checker_olimp.Effect.Laws.{Post, returned, Post-step, Post-value}
use checker_olimp.System.{System}
use checker_olimp.Executor.{
  RequestType, correct, Watched, Executor, create_child_process, conclude, run_child, execute,
}

module _ (S : System) (e : Executor S) where
  pub record SameConfig (e' : Executor S) : Type 0 where
    pub same_path : e'.executable_file_path ≡ e.executable_file_path
    pub same_directory : e'.executable_file_directory ≡ e.executable_file_directory
    pub same_input : e'.input_file_path ≡ e.input_file_path
    pub same_output : e'.output_file_path ≡ e.output_file_path
    pub same_time : e'.time_limit ≡ e.time_limit
    pub same_memory : e'.memory_limit ≡ e.memory_limit

  abbrev pub Keeps : Executor S → S.State → Type 0
  Keeps e' _ = SameConfig e'

  conclude-Keeps :
      (v : RequestType) (w : Watched) (e' : Executor S) (s : S.State)
      → SameConfig e'
      → Post Keeps (conclude S v w e' s)
  unfolding conclude resume
  conclude-Keeps correct w e' s h = elim (Option-cases (S.read_file e'.output_file_path s)) [
    | inl missing ↦ rw missing (returned (ground arith))
    | inr (text, found) ↦ rw found (returned (ground arith))
  ]
  conclude-Keeps _ w e' s h = returned (ground arith)

  run_child-Keeps :
      (fuel : ℕ) (e' : Executor S) (s : S.State)
      → SameConfig e'
      → Post Keeps (run_child S fuel e' s)
  unfolding run_child
  run_child-Keeps fuel e' s h = Post-step _ λ start s₁.
      Post-step _ λ w s₂. Post-step _ λ _ s₃. Post-step _ λ _ s₄. conclude-Keeps w.verdict w e' s₄ h

  -- If `execute` returns, the paths and the limits of the object are what they were, so that one
  -- object serves all tests.
  pub execute-Keeps :
      (fuel : ℕ) (quest : Text) (s : S.State) → Post Keeps (execute S fuel quest e s)
  unfolding execute create_child_process
  execute-Keeps fuel quest s = Post-step _ λ _ s₁. Post-step _ λ made s₂. elim (Bool-cases made) [
    | inr unmade ↦ rw unmade (returned (ground arith))
    | inl ready ↦ rw ready (
        Post-value _
          (elim (Bool-cases
            (S.create_process (some (c_str e.executable_file_path)) none
              (some (c_str e.executable_file_directory)) s₂).0) [
                | inl runs ↦ rw runs (run_child-Keeps fuel _ _ (ground arith))
                | inr fails ↦ rw fails (returned (ground arith))
              ]))
  ]
