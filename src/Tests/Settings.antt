-- ===== src/Tests/Settings.antt =====
-- A configuration that is read, and a process that starts.
use aita.Common.{str_eq, refl, true, none, if◌then◌else◌}
use aita.Configuration.{
  Surroundings, get_env_int, project_root, get_path, read_config, missing_in, required, load_config,
  IsComplete, load_config-IsComplete,
}

abbrev os : Surroundings
os = record {
  getenv = λ key. if str_eq key "APP_ENV" then "" else "x";
  atoi = λ s. none;
  hostname = "one";
  load = λ path. true;
  dot_env_here = true;
  working_directory = "/srv";
  source_root = "/src";
  join = λ a b. b;
}

load_config-IsComplete_example : IsComplete (read_config os)
load_config-IsComplete_example =
    load_config-IsComplete os (read_config os)
      (unfold load_config required missing_in read_config get_env_int get_path project_root in refl)
