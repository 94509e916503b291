-- ===== src/Startup/Tests.antt =====
-- A start of the daemon on test files, and an instance of what is proved of it.
use propylea.Tls.Tests.{text_files}
use propylea.Router.Tests.{two_config}
use propylea.Config.{Loader, validate}
use propylea.Startup.{
  Running, check_routes, execute_cli, execute_command, run_check, run_serve, serves,
}
use propylea.Startup.Checked.{StartsOrStopsAtKey, run_check-run_serve}
use propylea.Prelude.{codes, false, none, ok, refl, ◌≡◌}

abbrev one_file : Loader
one_file = record {
  parse_toml = λ content. ok two_config;
  read_to_string = λ path. ok (codes "routes");
}

check_passes : run_check one_file text_files (codes "propylea.toml") false ≡ ok tt
unfolding run_check check_routes validate
check_passes = refl

serve_by_default :
    execute_cli one_file text_files (record { command = none; config = codes "propylea.toml" })
    ≡ serves (run_serve one_file text_files (codes "propylea.toml"))
unfolding execute_cli execute_command
serve_by_default = refl

run_check-run_serve_example :
    ((r : Running one_file text_files)
      → run_serve one_file text_files (codes "propylea.toml") ≡ ok r
      → run_check one_file text_files (codes "propylea.toml") false ≡ ok tt)
    × (run_check one_file text_files (codes "propylea.toml") false ≡ ok tt
        → StartsOrStopsAtKey one_file text_files
            (run_serve one_file text_files (codes "propylea.toml")))
run_check-run_serve_example = run_check-run_serve one_file text_files (codes "propylea.toml")
