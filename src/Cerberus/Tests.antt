-- ===== src/Cerberus/Tests.antt =====
-- A run of krkn/cerberus/setup.py: a go, with a failure that is of no route.
use krkn.Base.{ℕ, ◌≡◌, refl, true, false, some, [], ◌∷◌}
use krkn.Base.Text.{text, text_eq}
use krkn.Cerberus.{Globals, Outside, failed_routes, publish_kraken_status}
use krkn.Cerberus.Laws.{IsGo, publish_goes_on}

abbrev outside : Outside
outside = record {
  W = ℕ;
  get_signal = λ url w. some (text "True");
  get_failures = λ url start_time end_time w.
      some (record { component = text "etcd"; name = text "etcd-0" } ∷ []);
}

abbrev globals : Globals
globals = record {
  exit_on_failure = false;
  cerberus_enabled = true;
  cerberus_url = text "http://cerberus";
  check_application_routes = true;
}

publish_goes_on_example :
    IsGo outside globals 1 2 0 × (globals.exit_on_failure ≡ false) × (true ≡ true)
unfolding publish_kraken_status failed_routes text_eq
publish_goes_on_example = publish_goes_on outside globals 1 2 0 true refl refl
