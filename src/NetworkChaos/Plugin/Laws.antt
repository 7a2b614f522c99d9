-- ===== src/NetworkChaos/Plugin/Laws.antt =====
-- krkn/scenario_plugins/network_chaos_ng: what `run` does.
use krkn.Base.{ℕ, ◌≤◌, ◌<◌, ◌≡◌, ◌⊎◌, Bool, true, some, List, [], ◌∷◌, ◌++◌, length, All, arith}
use krkn.Base.Text.{Text, text, contains}
use krkn.Base.Dict.{Dict}
use krkn.Base.Result.{ok}
use krkn.NetworkChaos.{Value, nothing, get}
use krkn.NetworkChaos.Factory.{Module, get_instance}
use krkn.NetworkChaos.Plugin.{Outside, Attempt, ChaosState, count_of, run_config}

abbrev pub attempts_on : Module → List Text → List Attempt
attempts_on m [] = []
attempts_on m (target ∷ targets) = record { chaos = m; target = target } ∷ attempts_on m targets

pub All-contains_cons :
    (s : Text) (ts xs : List Text)
    → All (λ (t : Text). contains t ts ≡ true) xs
    → All (λ (t : Text). contains t (s ∷ ts) ≡ true) xs
unfolding contains
All-contains_cons s ts [] h = tt
All-contains_cons s ts (x ∷ xs) (p, h) = (rw p (ground arith), All-contains_cons s ts xs h)

-- What `random.sample` promises of a list that is longer than the sample.
abbrev pub IsSample : (outside : Outside) → Type 0
IsSample outside =
    (n : ℕ) (targets : List Text) (w : outside.W)
    → n < length targets
    → (length (outside.sample n targets w).0 ≡ n)
      × All (λ (t : Text). contains t targets ≡ true) (outside.sample n targets w).0

module _ (outside : Outside) where
  open outside use {W, get_targets, run_module, sample, sleep}

  abbrev pub Within : ℕ → List Text → List Text → Type 0
  Within count targets chosen =
      ((count ≡ 0) ⊎ (length chosen ≤ count)) × All (λ (t : Text). contains t targets ≡ true) chosen

  -- A configuration was accepted, and its module was tried once on each of the chosen targets: its own,
  -- no more than `instance_count` where that is positive.
  abbrev pub Ran : Bool → Dict Value → ChaosState W → Type 0
  Ran several config st =
      (m : Module) × (targets : List Text) × (chosen : List Text) × (get_instance config ≡ ok m)
      × ((get_targets m st.world).0 ≡ some targets)
      × Within (count_of (get (text "instance_count") nothing m.config)) targets chosen
      × ((run_config outside several config st).1.attempts ≡ st.attempts ++ attempts_on m chosen)

  -- All configurations ran, each from the state that those before it left.
  abbrev pub AllRan : Bool → List (Dict Value) → ChaosState W → Type 0
  AllRan several [] st = Unit
  AllRan several (config ∷ more) st =
      Ran several config st × AllRan several more (run_config outside several config st).1
