-- ===== src/Tests/Contest.antt =====
-- The contester on a database without rows.
use checker_olimp.Base.{◌+◌, ◌-◌, ◌≤◌, ◌<◌, ◌≡◌, true, some, [], ◌∷◌, arith}
use checker_olimp.Base.Int.{pos}
use checker_olimp.Text.{lit}
use checker_olimp.Effect.Laws.{Post}
use checker_olimp.Words.{word}
use checker_olimp.Contester.Database.{MySql}
use checker_olimp.Contester.Data.{Lang, ChTest, ChGroup, Task}
use checker_olimp.Contester.Solution.{Settings, Solution}
use checker_olimp.Contester.Checker.{Checker, new_checker, run}
use checker_olimp.Contester.Checker.Laws.{IsSaved, run-IsSaved}
use checker_olimp.Contester.Main.{check_solutions, pause_time}
use checker_olimp.Contester.Main.Steps.{Steps, check_solutions-Steps}
use checker_olimp.Contester.Main.Laws.{Caught}
use checker_olimp.Contester.Main.Pause.{pause_time_lem}
use checker_olimp.Simulation.{Machine, machine_system, machine_shell}
use checker_olimp.Json.{Json}
use checker_olimp.Json.Document.{text}
use checker_olimp.Simulation.Values.{doc_json}
use checker_olimp.Tests.{machine}

abbrev pub empty_mysql : MySql Machine
empty_mysql = record {
  connect = λ host user passwd dbname port m. (true, m);
  query = λ sql m. (true, m);
  error = λ m. [];
  store_result = λ m. (some [], m);
  close = λ m. m;
}

abbrev pub string_json : Json
string_json = doc_json (text [])

abbrev pub settings : Settings
settings = record {
  ch_bin = lit "checker_rc.exe";
  tests_dir = lit "tests\\";
  clngs = (lit "msv_cpp", record { ext = lit ".cpp"; cmd = lit "cl $1 /out:$2" }) ∷ [];
}

abbrev pub language : Lang
language = record {
  id = pos 1;
  name = lit "C++";
  compiler = [];
  extension = [];
  identifier = lit "msv_cpp";
}

abbrev pub first_test : ChTest
first_test = record {
  id = pos 5;
  gid = pos 4;
  scores = pos 10;
  input = lit "01";
  output = lit "01.a";
}

abbrev pub group : ChGroup
group = record {
  chts = first_test ∷ [];
  id = pos 4;
  tid = pos 3;
  method = pos 0;
  scores = pos 10;
  name = [];
}

abbrev pub task : Task
task = record {
  chgs = group ∷ [];
  id = pos 3;
  cid = pos 2;
  time_limit = 1000;
  memory_limit = 67108864;
  title = lit "sum";
  content = [];
  input = lit "input.txt";
  output = lit "output.txt";
  checker = lit "check.exe";
}

abbrev pub sent : Solution
sent = record {
  pt = task;
  pl = language;
  tsts = [];
  id = pos 7;
  uid = pos 1;
  tid = pos 3;
  lid = pos 1;
  created_at = pos 0;
  status = pos 0;
  score = pos 0;
  code = lit "int main() {}";
  file = [];
  hash = [];
  result = [];
}

abbrev pub checked : Checker
checked = new_checker settings sent (lit "solution") (lit "solution.json") (lit "result.json")

run-IsSaved_example :
    Post
      (IsSaved machine_system empty_mysql checked)
      (run machine_system machine_shell empty_mysql string_json settings checked machine)
run-IsSaved_example =
    run-IsSaved machine_system empty_mysql machine_shell string_json settings checked machine

pause_time_lem_example :
    (1500 ≤ 100 + 1000 → pause_time (pos 1000) 100 1500 + 1500 ≡ 100 + 1000)
    × (100 + 1000 < 1500 → pause_time (pos 1000) 100 1500 ≡ word - (1500 - (100 + 1000)))
pause_time_lem_example = pause_time_lem 1000 100 1500 (omega arith) (omega arith)

check_solutions-Steps_example :
    let r =
      check_solutions machine_system machine_shell empty_mysql string_json settings
        (pos 7 ∷ pos 8 ∷ [])
        machine in
    Caught machine_system machine_shell empty_mysql string_json settings r
    × Post
        (λ _ m.
          Steps machine_system machine_shell empty_mysql string_json settings
            (pos 7 ∷ pos 8 ∷ [])
            machine
            m)
        r
check_solutions-Steps_example =
    check_solutions-Steps machine_system machine_shell empty_mysql string_json settings
      (pos 7 ∷ pos 8 ∷ []) machine
