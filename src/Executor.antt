-- ===== src/Executor.antt =====
-- checker_rc/executor.h and executor.cpp: one run of the contestant's program under a time and a
-- memory limit. The object is a record, and a method takes it and gives back what it changes.
pub mod Time
pub mod Limits
pub mod Verdict
pub mod Clock
pub mod Keeps
pub mod Termination
use checker_olimp.Base.{
  ℕ, zero, suc, Bool, true, false, ◌||◌, Option, none, some, List, [], ◌++◌, max, ltb, ◌==◌,
  if◌then◌else◌,
}
use checker_olimp.Text.{Text, c_str}
use checker_olimp.Effect.{
  Action, out_of_fuel, value_of, pure, halt, query, effect, call, ◌>>=◌, ◌>>◌,
}
use checker_olimp.System.{System}
use checker_olimp.Words.{max_word, sub_word, far_apart}
use Time.{kernel_plus_user_time}

-- `enum request_type`
pub data RequestType : Type 0 where
  crash correct tle mle nif cpf cctf : RequestType

pub record Request : Type 0 where
  pub report_program : Text
  pub time_out : ℕ
  pub memory : ℕ
  pub verdict : RequestType

-- `request::request()`
abbrev pub new_request : Request
new_request = record { report_program = []; time_out = 0; memory = 0; verdict = RequestType.crash }

-- `eps_time`, the milliseconds by which the clock and the processor time may differ.
abbrev pub eps_time : ℕ
eps_time = 2048

-- `work_time > time_limit || abs((long long) timer - work_time) > eps_time`
unfoldable pub is_over_time : ℕ → ℕ → ℕ → Bool
is_over_time time_limit work_time timer =
    ltb time_limit work_time || far_apart timer work_time eps_time

-- `memory == -1 || memory > memory_limit`
unfoldable pub is_over_memory : ℕ → ℕ → Bool
is_over_memory memory_limit memory = memory == max_word || ltb memory_limit memory

-- What the loop of `execute` leaves in `request_report.correct`, `work_time` and `memory`.
pub record Watched : Type 0 where
  pub verdict : RequestType
  pub work_time : ℕ
  pub memory : ℕ

module _ (S : System) where
  -- The members of `class executor`. Of `piProcInfo` the two handles are used.
  pub record Executor : Type 0 where
    pub executable_file_path : Text
    pub executable_file_directory : Text
    pub input_file_path : Text
    pub output_file_path : Text
    pub time_limit : ℕ
    pub memory_limit : ℕ
    pub request_report : Request
    pub process : S.Handle
    pub thread : S.Handle

  -- `executor::executor()`; the handles have no value yet.
  abbrev pub new_executor : S.Handle → S.Handle → Executor
  new_executor process thread = record {
    executable_file_path = [];
    executable_file_directory = [];
    input_file_path = [];
    output_file_path = [];
    time_limit = 0;
    memory_limit = 0;
    request_report = new_request;
    process = process;
    thread = thread;
  }

  unfoldable pub set_config : Text → Text → Text → Text → ℕ → ℕ → Executor → Executor
  set_config directory path input output time_limit memory_limit e = record e {
    executable_file_directory = directory;
    executable_file_path = path;
    input_file_path = input;
    output_file_path = output;
    time_limit = time_limit;
    memory_limit = memory_limit;
  }

  unfoldable pub create_child_process : Executor → Action S.State (Bool × Executor)
  create_child_process e = call λ s.
      let (success, process, thread, s') =
        S.create_process (some (c_str e.executable_file_path)) none
          (some (c_str e.executable_file_directory)) s in
      ((success, record e { process = process; thread = thread }), s')

  unfoldable pub get_exit_code : Executor → Action S.State ℕ
  get_exit_code e = call (S.exit_code_process e.process) >>= value_of

  unfoldable pub child_process_active : Executor → Action S.State Bool
  unfolding get_exit_code
  child_process_active e = do exit_code ← get_exit_code e; pure (exit_code == S.still_active)

  unfoldable pub kill_child_process : Executor → Action S.State (Unit {0})
  unfolding child_process_active
  kill_child_process e = do
    active ← child_process_active e
    if active then effect (S.terminate_process e.process 0) else pure tt

  unfoldable pub close_handles : Executor → Action S.State (Unit {0})
  close_handles e = do
    effect (S.close_handle e.process)
    effect (S.close_handle e.thread)
    effect (S.close_handle S.null_handle)

  unfoldable pub make_input_file : Text → Executor → Action S.State Bool
  make_input_file quest e = call (S.write_file e.input_file_path quest)

  -- The bytes read are added to the report.
  unfoldable pub read_output_file : Executor → Action S.State (Bool × Executor)
  read_output_file e = do
    content ← query (S.read_file e.output_file_path)
    pure (elim content [
      | none ↦ (false, e)
      | some text ↦
          let report = e.request_report.report_program ++ text in
          (
            true,
            record e { request_report = record (e.request_report) { report_program = report } },
          )
    ])

  unfoldable pub remove_in_out_files : Executor → Action S.State (Unit {0})
  remove_in_out_files e = do
    effect (S.remove_file (c_str e.input_file_path))
    effect (S.remove_file (c_str e.output_file_path))

  unfoldable pub get_memory_usage : Executor → Action S.State ℕ
  get_memory_usage e = do
    size ← call (S.process_memory e.process)
    pure (elim size [ none ↦ max_word | some memory ↦ memory ])

  unfoldable pub get_process_kernel_plus_user_time : Executor → Action S.State ℕ
  get_process_kernel_plus_user_time e = do
    times ← call (S.process_times e.process)
    (kernel_time, user_time) ← value_of times
    pure (kernel_plus_user_time kernel_time user_time)

  -- The `while (true)` loop of `execute`, on fuel.
  unfoldable pub watch : ℕ → Executor → ℕ → ℕ → ℕ → Action S.State Watched
  watch zero e time_start work_time memory = halt out_of_fuel
  watch (suc fuel) e time_start work_time memory = do
    exit_code ← get_exit_code e
    elim (exit_code == S.still_active) [
      | true ↦ do
        work_time' ← get_process_kernel_plus_user_time e
        now ← call S.tick_count
        elim (is_over_time e.time_limit work_time' (sub_word now time_start)) [
          | true ↦ do
            kill_child_process e
            pure (record { verdict = RequestType.tle; work_time = work_time'; memory = memory })
          | false ↦ do
            memory_usage ← get_memory_usage e
            elim (is_over_memory e.memory_limit (max memory memory_usage)) [
              | true ↦ do
                kill_child_process e
                pure (record {
                  verdict = RequestType.mle;
                  work_time = work_time';
                  memory = max memory memory_usage;
                })
              | false ↦ watch fuel e time_start work_time' (max memory memory_usage)
            ]
        ]
      | false ↦ pure (record {
        verdict = if exit_code == 0 then RequestType.correct else RequestType.crash;
        work_time = work_time;
        memory = memory;
      })
    ]

  -- Setting `request_report.correct`, and then the time and the memory used.
  abbrev pub with_verdict : RequestType → Executor → Executor
  with_verdict verdict e = record e {
    request_report = record (e.request_report) { verdict = verdict };
  }

  abbrev pub with_usage : Watched → Executor → Executor
  with_usage w e = record e {
    request_report = record (e.request_report) { time_out = w.work_time; memory = w.memory };
  }

  -- The end of `execute`, after the handles are closed.
  unfoldable pub conclude : RequestType → Watched → Executor → Action S.State Executor
  unfolding read_output_file
  conclude RequestType.correct w e = do
    (read, e') ← read_output_file (with_verdict RequestType.correct e)
    pure (if read then with_usage w e' else with_verdict RequestType.nif e')
  conclude verdict w e = pure (with_usage w (with_verdict verdict e))

  -- From the start of the clock on.
  unfoldable pub run_child : ℕ → Executor → Action S.State Executor
  run_child fuel e = do
    time_start ← call S.tick_count
    w ← watch fuel e time_start 0 0
    effect (S.sleep 100)
    close_handles e
    conclude w.verdict w e

  abbrev pub fresh_report : Request
  fresh_report = record {
    report_program = [];
    time_out = 0;
    memory = 0;
    verdict = RequestType.correct;
  }

  -- `execute` for a test's input. The request returned is the `request_report` of the result.
  unfoldable pub execute : ℕ → Text → Executor → Action S.State Executor
  execute fuel quest e = do
    let e₁ = record e { request_report = fresh_report }
    remove_in_out_files e₁
    made ← make_input_file quest e₁
    elim made [
      | false ↦ pure (with_verdict RequestType.cctf e₁)
      | true ↦ do
        (success, e₂) ← create_child_process e₁
        if success then run_child fuel e₂ else pure (with_verdict RequestType.cpf e₂)
    ]
