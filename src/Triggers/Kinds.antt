-- ===== src/Triggers/Kinds.antt =====
-- The four kinds of trigger of krkn/scenario_plugins/triggers: command_trigger.py, http_trigger.py,
-- prometheus_trigger.py and k8s_trigger.py. A trigger's `met` and what it logs are followed; the
-- process, the server and the cluster that it asks are parameters.
pub mod Laws
use krkn.Base.{
  ℕ, zero, suc, map, ◌-◌, ◌≡◌, Bool, true, false, not, ◌&&◌, ◌||◌, Option, none, some, List, [],
  ◌∷◌, ◌++◌, if◌then◌else◌, is_empty, ◌==◌, leb, length,
}
use krkn.Base.Int.{ℤ, pos, negsuc}
use krkn.Base.Text.{Text, text, text_eq, contains, occurs}
use krkn.Base.Result.{Result, ok, err, ◌>>=◌}
use krkn.Triggers.Values.{
  Numbers, Value, nothing, truth, int, float, word, dict, items, instance_of, Fields, no_field,
  field, get_field, truthy, get_or_none, get_or, int_of, str,
}
use krkn.Triggers.Condition.{
  Operator, Problem, value_error, BadCondition, parse_condition, resolve_path, compare,
}

-- What the constructors raise: `ValueError`s, but for those that `is_value_error` excludes.
pub data ConfigError : Type 0 where
  no_command expected_rc_type expected_rc_range : ConfigError
  no_url bad_method expected_status_type expected_status_range bad_headers headers_type
        bad_body_contains :
      ConfigError
  no_query no_prometheus_url : ConfigError
  no_kubecli no_api_version no_kind no_name no_condition not_a_text : ConfigError
  bad_condition : BadCondition → ConfigError
  no_type unknown_type bad_entry : ConfigError
  no_conditions not_a_list bad_mode mode_type bad_on_timeout on_timeout_type not_numeric
        timeout_range interval_range :
      ConfigError

unfoldable pub is_value_error : ConfigError → Bool
is_value_error headers_type = false
is_value_error not_a_text = false
is_value_error bad_entry = false
is_value_error mode_type = false
is_value_error on_timeout_type = false
is_value_error _ = true

upper_char : ℕ → ℕ
upper_char c = if leb b'a' c && leb c b'z' then c - 32 else c

-- `s.upper()`
unfoldable pub upper : Text → Text
unfolding upper_char
upper s = map upper_char s

unfoldable pub valid_methods : List Text
valid_methods =
    text "DELETE"
    ∷ text "GET"
    ∷ text "HEAD"
    ∷ text "OPTIONS"
    ∷ text "PATCH"
    ∷ text "POST"
    ∷ text "PUT"
    ∷ []

-- `lo <= n <= hi`
unfoldable pub in_range : ℕ → ℕ → ℤ → Bool
in_range lo hi (pos n) = leb lo n && leb n hi
in_range lo hi (negsuc n) = false

-- `met != self._last_result`
unfoldable pub changed : Bool → Option Bool → Bool
changed b none = true
changed true (some last) = not last
changed false (some last) = last

module _ (numbers : Numbers) where
  open numbers use {F}

  -- What an object of each class keeps.
  pub data Kind : Type 0 where
    command : (cmd : Value F) (expected_rc : ℤ) → Kind
    http :
        (url : Value F) (method : Text) (expected_status : ℤ) (headers : Fields F)
        (body_contains : Option Text)
        → Kind
    prometheus : (query prometheus_url bearer_token : Value F) → Kind
    k8s :
        (api_version kind name namespace : Value F) (path : Text) (operator : Operator)
        (expected : Value F)
        → Kind

  -- `_last_result`, and the notices logged so far: a condition became satisfied, or not satisfied.
  pub record Trigger : Type 0 where
    pub kind : Kind
    pub last_result : Option Bool
    pub notices : List Bool

  fresh : Kind → Trigger
  fresh kind = record { kind = kind; last_result = none; notices = [] }

  -- `CommandTrigger(config)`
  unfoldable pub new_command : Fields F → Result ConfigError Trigger
  unfolding get_or_none get_or truthy int_of in_range fresh
  new_command config =
      let cmd = get_or_none numbers (text "cmd") config in
      let inline = get_or_none numbers (text "inline") config in
      let chosen = if truthy numbers cmd then cmd else inline in
      if not (truthy numbers chosen)
      then err no_command
      else elim (int_of numbers (get_or numbers (text "expected_rc") (int (pos 0)) config)) [
        | none ↦ err expected_rc_type
        | some rc ↦
            if in_range 0 255 rc then ok (fresh (command chosen rc)) else err expected_rc_range
      ]

  -- `dict(config.get("headers") or {})`; a list of pairs, which `dict` would
  -- take too, is not read.
  unfoldable pub headers_of : Value F → Result ConfigError (Fields F)
  unfolding truthy
  headers_of v =
      if not (truthy numbers v)
      then ok no_field
      else elim v [ dict fields ↦ ok fields | word s ↦ err bad_headers | _ ↦ err headers_type ]

  unfoldable pub body_of : Value F → Result ConfigError (Option Text)
  body_of v = elim v [ nothing ↦ ok none | word s ↦ ok (some s) | _ ↦ err bad_body_contains ]

  -- `headers[key] = v`
  unfoldable pub set_field : Text → Value F → Fields F → Fields F
  set_field key v no_field = field key v no_field
  set_field key v (field k old rest) =
      let later = set_field key v rest in
      if text_eq k key then field k v rest else field k old later

  -- The last part of the constructor of `HttpTrigger`.
  unfoldable pub new_http_with :
      (Value F → Text) → Value F → Text → ℤ → Fields F → Result ConfigError Trigger
  unfolding headers_of body_of get_or_none truthy fresh str set_field
  new_http_with container url method status config =
      let token = get_or_none numbers (text "bearer_token") config in
      (headers_of (get_or_none numbers (text "headers") config) >>= λ headers.
      body_of (get_or_none numbers (text "body_contains") config) >>= λ body. ok (
        fresh (
          http url method status
            (if truthy numbers token
              then set_field (text "Authorization")
                  (word (text "Bearer " ++ str numbers container token)) headers
              else headers)
            body)))

  -- `HttpTrigger(config)`
  unfoldable pub new_http : (Value F → Text) → Fields F → Result ConfigError Trigger
  unfolding get_or_none get_or truthy int_of in_range str upper contains valid_methods new_http_with
  new_http container config =
      let url = get_or_none numbers (text "url") config in
      let method =
        upper (str numbers container (get_or numbers (text "method") (word (text "GET")) config)) in
      if not (truthy numbers url)
      then err no_url
      else if not (contains method valid_methods)
      then err bad_method
      else elim (int_of numbers (get_or numbers (text "expected_status") (int (pos 200)) config)) [
        | none ↦ err expected_status_type
        | some status ↦
            if in_range 100 599 status
            then new_http_with container url method status config
            else err expected_status_range
      ]

  -- `PrometheusTrigger(config)`
  unfoldable pub new_prometheus : Fields F → Result ConfigError Trigger
  unfolding get_or_none truthy fresh
  new_prometheus config =
      let query = get_or_none numbers (text "query") config in
      let url = get_or_none numbers (text "prometheus_url") config in
      let token = get_or_none numbers (text "prometheus_bearer_token") config in
      if not (truthy numbers query)
      then err no_query
      else if not (truthy numbers url)
      then err no_prometheus_url
      else ok (fresh (prometheus query url (if truthy numbers token then token else nothing)))

  -- The condition of a Kubernetes trigger; the pattern is searched in a text only.
  unfoldable pub condition_of : Value F → Result ConfigError (Text × (Operator × Value F))
  unfolding parse_condition
  condition_of v = elim v [
    | word s ↦ elim (parse_condition numbers s) [ ok c ↦ ok c | err e ↦ err (bad_condition e) ]
    | _ ↦ err not_a_text
  ]

  -- `K8sTrigger(config, kubecli)`
  unfoldable pub new_k8s : (has_kubecli : Bool) → Fields F → Result ConfigError Trigger
  unfolding get_or_none truthy condition_of fresh
  new_k8s has_kubecli config =
      let api_version = get_or_none numbers (text "apiVersion") config in
      let kind = get_or_none numbers (text "kind") config in
      let name = get_or_none numbers (text "name") config in
      let condition = get_or_none numbers (text "condition") config in
      let namespace = get_or_none numbers (text "namespace") config in
      if not has_kubecli
      then err no_kubecli
      else if not (truthy numbers api_version)
      then err no_api_version
      else if not (truthy numbers kind)
      then err no_kind
      else if not (truthy numbers name)
      then err no_name
      else if not (truthy numbers condition)
      then err no_condition
      else (condition_of condition >>= λ parts.
          ok (fresh (k8s api_version kind name namespace (parts.0) (parts.1.0) (parts.1.1))))

  -- What the triggers ask: the clock and `time.sleep`, both in ticks, a shell, an HTTP server, a
  -- Prometheus server and a cluster. `none` stands for every exception of the call; Prometheus answers
  -- with a number of series.
  pub record Outside : Type 1 where
    pub W : Type 0
    pub monotonic : W → ℕ × W
    pub sleep : ℕ → W → W
    pub run_command : Value F → W → Option ℤ × W
    pub request : Text → Value F → Fields F → W → Option (ℤ × Text) × W
    pub process_query : Value F → Value F → Value F → W → Option ℕ × W
    -- `dyn.resources.get(...)`: whether the resource is namespaced
    pub resources_get : Value F → Value F → W → Result Problem Bool × W
    pub resource_get :
        Value F → Value F → Value F → Option (Value F) → W → Result Problem (Value F) × W
    pub getattr : Value F → Text → Result Problem (Value F)
    pub container : Value F → Text

  int_eq : ℤ → ℤ → Bool
  int_eq (pos a) (pos b) = a == b
  int_eq (pos a) (negsuc b) = false
  int_eq (negsuc a) (pos b) = false
  int_eq (negsuc a) (negsuc b) = a == b

  module _ (outside : Outside) where
    open outside use {
      W, run_command, request, process_query, resources_get, resource_get, getattr, container,
    }

    -- The field that the condition names, compared with the value that it expects.
    unfoldable pub holds : Value F → Text → Operator → Value F → Result Problem Bool
    unfolding resolve_path compare
    holds resource path operator expected =
        (resolve_path numbers getattr resource path >>= λ actual.
        compare numbers container actual operator expected)

    -- The lookups of `K8sTrigger.evaluate`, in order.
    unfoldable pub look_up :
        Value F → Value F → Value F → Value F → W → Result Problem (Value F) × W
    unfolding truthy
    look_up api_version kind name namespace w =
        let (api, w1) = resources_get api_version kind w in
        elim api [
          | err e ↦ (err e, w1)
          | ok namespaced ↦
              if namespaced && not (truthy numbers namespace)
              then (err value_error, w1)
              else resource_get api_version kind name
                  (if truthy numbers namespace then some namespace else none) w1
        ]

    is_ok_true : Result Problem Bool → Bool
    is_ok_true (ok b) = b
    is_ok_true (err e) = false

    http_met : ℤ → Option Text → Option (ℤ × Text) → Bool
    unfolding int_eq occurs
    http_met expected_status body none = false
    http_met expected_status none (some (status, page)) = int_eq status expected_status
    http_met expected_status (some sub) (some (status, page)) =
        int_eq status expected_status && occurs sub page

    -- `met`, with every exception caught.
    unfoldable pub met : Kind → W → Bool × W
    unfolding int_eq is_ok_true http_met holds look_up
    met (command cmd expected_rc) w =
        let (outcome, after) = run_command cmd w in
        (elim outcome [ none ↦ false | some rc ↦ int_eq rc expected_rc ], after)
    met (http url method expected_status headers body_contains) w =
        let (outcome, after) = request method url headers w in
        (http_met expected_status body_contains outcome, after)
    met (prometheus query prometheus_url token) w =
        let (outcome, after) = process_query query prometheus_url token w in
        (elim outcome [ none ↦ false | some zero ↦ false | some (suc n) ↦ true ], after)
    met (k8s api_version kind name namespace path operator expected) w =
        let (found, after) = look_up api_version kind name namespace w in
        (is_ok_true (found >>= λ resource. holds resource path operator expected), after)

    -- `evaluate`
    unfoldable pub evaluate : Trigger → W → Bool × (Trigger × W)
    unfolding met changed
    evaluate t w =
        let (b, after) = met (t.kind) w in
        (
          b,
          (
            record t {
              last_result = some b;
              notices = if changed b (t.last_result) then t.notices ++ b ∷ [] else t.notices;
            },
            after,
          ),
        )
