-- ===== src/HealthChecks/Http.antt =====
-- krkn/health_checks/http_health_check_plugin.py: the thread that polls the endpoints. HTTP, the clock
-- and the sleep are parameters; time passes in requests and sleeps. A schedule says which calls of
-- the main thread come before each test of the loop's condition.
pub mod Periods
pub mod Refine
pub mod Loop
pub mod Laws
pub mod ReturnValue
pub mod Outage
use krkn.Base.{
  ℕ, suc, ◌==◌, Bool, true, false, not, ◌&&◌, Option, none, some, List, [], ◌∷◌, ◌++◌, map, any,
  keep, if◌then◌else◌, is_empty,
}
use krkn.Base.Int.{ℤ, pos, ◌-ℤ◌}
use krkn.Base.Text.{Text, text, text_eq, split, decimal}
use krkn.Base.Dict.{Dict, lookup, insert}
use krkn.HealthChecks.{HealthCheckPlugin, MainCall, apply_all, keeps_polling}

-- An entry of the list under `config`. A missing text is empty, which the code treats alike.
pub record CheckConfig : Type 0 where
  pub url : Text
  pub bearer_token : Text
  pub auth : Text
  pub verify_url : Bool
  pub exit_on_failure : Bool

pub record HttpConfig : Type 0 where
  pub interval : ℕ
  pub config : List CheckConfig

pub record Response : Type 0 where
  pub url : Text
  pub status : Bool
  pub status_code : ℕ

-- The status code of a record is a text where the status changed, and a number at the end.
pub data StatusCode : Type 0 where
  as_text : Text → StatusCode
  as_number : ℕ → StatusCode

pub record HealthCheck : Type 0 where
  pub url : Text
  pub status : Bool
  pub status_code : StatusCode
  pub start_timestamp : ℕ
  pub end_timestamp : ℕ
  pub duration : ℤ

pub record Tracked : Type 0 where
  pub status_code : ℕ
  pub start_timestamp : ℕ

-- `requests`, `datetime.now` and `time.sleep`. `none` is an exception of `http_session.get`.
pub record Outside : Type 1 where
  pub W : Type 0
  pub http_get :
      (url : Text) (auth : Option (List Text)) (authorization : Option Text) (verify : Bool)
      → W
      → Option ℕ × W
  pub now : W → ℕ
  pub sleep : ℕ → W → W

-- The local variables of the loop, and `self.ret_value`.
pub record Monitor : Type 0 where
  pub ret_value : ℕ
  pub telemetry : List HealthCheck
  pub tracker : Dict Tracked
  pub response_tracker : Dict Bool

-- `del tracker[url]`
unfoldable pub delete : {V : Type 0} → Text → Dict V → Dict V
delete url tracker = keep (λ e. not (text_eq e.0 url)) tracker

unfoldable pub change_record : Text → Tracked → ℕ → HealthCheck
change_record url seen end_timestamp = record {
  url = url;
  status = text_eq (decimal seen.status_code) (text "200");
  status_code = as_text (decimal seen.status_code);
  start_timestamp = seen.start_timestamp;
  end_timestamp = end_timestamp;
  duration = pos end_timestamp -ℤ pos seen.start_timestamp;
}

unfoldable pub final_record : ℕ → Text × Tracked → HealthCheck
final_record end_timestamp (url, seen) = record {
  url = url;
  status = seen.status_code == 200;
  status_code = as_number seen.status_code;
  start_timestamp = seen.start_timestamp;
  end_timestamp = end_timestamp;
  duration = pos end_timestamp -ℤ pos seen.start_timestamp;
}

-- The first response of a period.
unfoldable pub first_response : Bool → Text → ℕ → ℕ → Monitor → Monitor
first_response exit_on_failure url status_code now m = record {
  ret_value =
      if not (status_code == 200) && (exit_on_failure && (m.ret_value == 0))
      then 3
      else m.ret_value;
  telemetry = m.telemetry;
  tracker = insert url (record { status_code = status_code; start_timestamp = now }) m.tracker;
  response_tracker =
      if status_code == 200 then m.response_tracker else insert url false m.response_tracker;
}

-- Another status than before ends the period: its record is kept, and the url is tracked no more.
unfoldable pub status_changed : Text → Tracked → ℕ → Monitor → Monitor
unfolding change_record delete
status_changed url seen now m = record m {
  telemetry = m.telemetry ++ change_record url seen now ∷ [];
  tracker = delete url m.tracker;
  response_tracker = insert url true m.response_tracker;
}

-- What the loop does with a response.
unfoldable pub track : Bool → Text → ℕ → ℕ → Monitor → Monitor
unfolding first_response status_changed
track exit_on_failure url status_code now m = elim (lookup url m.tracker) [
  | none ↦ first_response exit_on_failure url status_code now m
  | some seen ↦ if status_code == seen.status_code then m else status_changed url seen now m
]

unfoldable pub response_of : Text → Option ℕ → Response
response_of url none = record { url = url; status = false; status_code = 500 }
response_of url (some code) = record { url = url; status = code == 200; status_code = code }

unfoldable pub first_responses : List CheckConfig → Dict Bool → Dict Bool
first_responses [] d = d
first_responses (check_config ∷ configs) d =
    if is_empty check_config.url
    then first_responses configs d
    else first_responses configs (insert check_config.url true d)

abbrev pub started : HttpConfig → HealthCheckPlugin → Monitor
started config plugin = record {
  ret_value = plugin.ret_value;
  telemetry = [];
  tracker = [];
  response_tracker = first_responses config.config [];
}

-- `any(cfg.get("url") for cfg in config.get("config", []))`
unfoldable pub is_defined : HttpConfig → Bool
is_defined config = any (λ (c : CheckConfig). not (is_empty c.url)) config.config

module _ (outside : Outside) where
  open outside use {W, http_get, now, sleep}

  unfoldable pub make_request : Text → Option (List Text) → Option Text → Bool → W → Response × W
  unfolding response_of
  make_request url auth headers verify w =
      let (answer, after) = http_get url auth headers verify w in (response_of url answer, after)

  -- The request that an entry asks for.
  unfoldable pub request_for : CheckConfig → W → Response × W
  unfolding make_request
  request_for check_config w =
      make_request check_config.url
        (if is_empty check_config.auth then none else some (split b',' check_config.auth))
        (if is_empty check_config.bearer_token
          then none
          else some (text "Bearer " ++ check_config.bearer_token))
        check_config.verify_url w

  -- One pass over the entries; one without a url is passed over.
  unfoldable pub check_all : List CheckConfig → Monitor → W → Monitor × W
  unfolding request_for track
  check_all [] m w = (m, w)
  check_all (check_config ∷ configs) m w =
      let (response, w1) = request_for check_config w in
      let m1 =
        track check_config.exit_on_failure check_config.url response.status_code (now w1) m in
      if is_empty check_config.url then check_all configs m w else check_all configs m1 w1

  -- The loop, with the calls of the main thread before each test; `none` is a loop that still runs
  -- where the schedule ends.
  unfoldable pub poll_loop :
      List (List MainCall)
      → HttpConfig
      → HealthCheckPlugin
      → Monitor
      → W
      → Option (HealthCheckPlugin × Monitor) × W
  unfolding check_all
  poll_loop [] config plugin m w = (none, w)
  poll_loop (calls ∷ schedule) config plugin m w =
      let plugin1 = apply_all calls plugin in
      let (m1, w1) = check_all config.config m w in
      let rest = poll_loop schedule config plugin1 m1 (sleep config.interval w1) in
      if keeps_polling plugin1 then rest else (some (plugin1, m), w)

  -- The records of what is still tracked, all with one end.
  unfoldable pub finish : Monitor → W → List HealthCheck
  unfolding final_record
  finish m w = m.telemetry ++ map (final_record (now w)) m.tracker

  -- `run_health_check`: the object, and what is put into the queue, if the loop ends.
  unfoldable pub run_health_check :
      List (List MainCall)
      → HttpConfig
      → HealthCheckPlugin
      → W
      → Option (HealthCheckPlugin × List (List HealthCheck)) × W
  unfolding poll_loop finish is_defined
  run_health_check schedule config plugin w =
      let (ended, after) = poll_loop schedule config plugin (started config plugin) w in
      if not (is_defined config) then (some (plugin, []), w) else elim ended [
        | none ↦ (none, after)
        | some (plugin1, m) ↦
            (some (record plugin1 { ret_value = m.ret_value }, finish m after ∷ []), after)
      ]
