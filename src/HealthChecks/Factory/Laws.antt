-- ===== src/HealthChecks/Factory/Laws.antt =====
-- krkn/health_checks/health_check_factory.py: every configured section is started, and all that is started
-- can be counted to its end and stopped.
use krkn.Base.{
  ℕ, zero, suc, ◌+◌, ◌≡◌, refl, sym, ap, ◌∙◌, Bool, false, Option, none, some, List, [], ◌∷◌, ◌++◌,
  map, All, length, if◌then◌else◌, Bool-cases, Option-cases, inl, inr, arith,
}
use mathlib.Core.Path.{subst}
use mathlib.Core.Option.{some-injective}
use mathlib.Core.List.{append_assoc, append-nil}
use krkn.Base.Text.{Text}
use krkn.Base.Dict.{Dict, lookup}
use krkn.HealthChecks.{
  HealthCheckPlugin, increment_iterations, set_stop, below_limit, keeps_polling,
}
use krkn.HealthChecks.Factory.{
  HealthCheckFactory, Checker, new_plugin, create_plugin, increment_all_iterations, stop_all,
  start_keys, start_all,
}
use krkn.HealthChecks.Factory.Loading.{Known, IsConsistent}

-- The types of the configured keys, in order.
abbrev pub configured_types : (Text → Bool) → Dict Text → List Text
configured_types configured [] = []
configured_types configured ((config_key, type) ∷ rest) =
    let types = configured_types configured rest in
    if configured config_key then type ∷ types else types

abbrev Started :
    (Text → Bool)
    → Dict Text
    → Option ℕ
    → HealthCheckFactory
    → List Checker × HealthCheckFactory
    → Type 0
Started configured entries iterations f r =
    (map (λ (c : Checker). c.health_check_type) r.0 ≡ configured_types configured entries)
    × (r.1.active_plugins
        ≡ f.active_plugins
          ++ map (λ type. new_plugin type iterations) (configured_types configured entries))

start_keys-Started :
    (configured : Text → Bool) (entries : Dict Text) (iterations : Option ℕ)
    (f : HealthCheckFactory)
    → All (λ (e : Text × Text). Known f.loaded_plugins e.1) entries
    → Started configured entries iterations f (start_keys configured entries iterations f)
unfolding start_keys create_plugin
start_keys-Started configured [] iterations f k = (refl, sym (append-nil f.active_plugins))
start_keys-Started configured ((config_key, type) ∷ rest) iterations f k =
    elim (Bool-cases (configured config_key)) [
      | inr e ↦ rw (start_keys, e) (start_keys-Started configured rest iterations f k.1)
      | inl e ↦ elim (Option-cases (lookup type f.loaded_plugins)) [
        | inl d ↦ (let h = rw d at k.0 in ground arith)
        | inr (cls, d) ↦
            let f1 = record f {
              active_plugins = f.active_plugins ++ new_plugin type iterations ∷ [];
            } in
            let (types, active) = start_keys-Started configured rest iterations f1 k.1 in
            rw (start_keys, e, create_plugin, d)
              (
                ap (λ ts. type ∷ ts) types,
                active
                    ∙ append_assoc f.active_plugins (new_plugin type iterations ∷ [])
                        (map (λ t. new_plugin t iterations) (configured_types configured rest)),
              )
      ]
    ]

-- Where each key's type is loaded, `start_all` creates one plugin for each configured section, in the
-- order of the keys, leaves none out, and hands out one checker for each.
pub start_all_lem :
    (configured : Text → Bool) (iterations : Option ℕ) (f : HealthCheckFactory)
    → IsConsistent f
    → (map (λ (c : Checker). c.health_check_type) (start_all configured iterations f).0
        ≡ configured_types configured f.config_key_map)
      × ((start_all configured iterations f).1.active_plugins
          ≡ f.active_plugins
            ++ map
                (λ type. new_plugin type iterations)
                (configured_types configured f.config_key_map))
unfolding start_all
start_all_lem configured iterations f c =
    start_keys-Started configured f.config_key_map iterations f c

-- The calls of `main` at the end of its iterations.
abbrev pub count : ℕ → HealthCheckFactory → HealthCheckFactory
count zero f = f
count (suc n) f = count n (increment_all_iterations f)

-- The active plugin at a place, in the order in which they were created.
abbrev pub active_at : ℕ → List HealthCheckPlugin → Option HealthCheckPlugin
active_at n [] = none
active_at zero (p ∷ ps) = some p
active_at (suc n) (p ∷ ps) = active_at n ps

-- The plugin of a checker is among the active ones, has the type of the checker, and a property.
abbrev pub Active : (HealthCheckPlugin → Type 0) → List HealthCheckPlugin → Checker → Type 0
Active P ps c =
    (p : HealthCheckPlugin) × (active_at c.place ps ≡ some p)
    × (p.health_check_type ≡ c.health_check_type)
    × P p

active_at-append :
    (ps qs : List HealthCheckPlugin) (p : HealthCheckPlugin)
    → active_at (length ps) (ps ++ p ∷ qs) ≡ some p
active_at-append [] qs p = refl
active_at-append (x ∷ ps) qs p = active_at-append ps qs p

active_at-map :
    (g : HealthCheckPlugin → HealthCheckPlugin) (n : ℕ) (ps : List HealthCheckPlugin)
    (p : HealthCheckPlugin)
    → active_at n ps ≡ some p
    → active_at n (map g ps) ≡ some (g p)
active_at-map g n [] p h = absurd (ground arith)
active_at-map g zero (x ∷ ps) p h = ap (λ q. some (g q)) (some-injective x p h)
active_at-map g (suc n) (x ∷ ps) p h = active_at-map g n ps p h

Active-map :
    (P Q : HealthCheckPlugin → Type 0) (g : HealthCheckPlugin → HealthCheckPlugin)
    → ((p : HealthCheckPlugin) → (g p).health_check_type ≡ p.health_check_type)
    → ((p : HealthCheckPlugin) → P p → Q (g p))
    → (ps : List HealthCheckPlugin) (cs : List Checker) → All (Active P ps) cs
    → All (Active Q (map g ps)) cs
Active-map P Q g t h ps [] k = tt
Active-map P Q g t h ps (c ∷ cs) ((p, found, type, has), ks) =
    ((g p, active_at-map g c.place ps p found, t p ∙ type, h p has), Active-map P Q g t h ps cs ks)

-- A plugin of a run that counts to a limit, after some iterations.
abbrev CountedTo : ℕ → ℕ → HealthCheckPlugin → Type 0
CountedTo limit n p = (p.iterations ≡ some limit) × (p.current_iterations ≡ n)

abbrev IsNew : Option ℕ → HealthCheckPlugin → Type 0
IsNew iterations p = (p.iterations ≡ iterations) × (p.current_iterations ≡ 0)

-- Each checker that is handed out has its plugin among the active ones.
start_keys-Active :
    (configured : Text → Bool) (entries : Dict Text) (iterations : Option ℕ)
    (f : HealthCheckFactory)
    → All (λ (e : Text × Text). Known f.loaded_plugins e.1) entries
    → All
        (Active (IsNew iterations) (start_keys configured entries iterations f).1.active_plugins)
        (start_keys configured entries iterations f).0
unfolding start_keys create_plugin
start_keys-Active configured [] iterations f k = tt
start_keys-Active configured ((config_key, type) ∷ rest) iterations f k =
    elim (Bool-cases (configured config_key)) [
      | inr e ↦ rw (start_keys, e) (start_keys-Active configured rest iterations f k.1)
      | inl e ↦ elim (Option-cases (lookup type f.loaded_plugins)) [
        | inl d ↦ (let h = rw d at k.0 in ground arith)
        | inr (cls, d) ↦
            let plugin = new_plugin type iterations in
            let f1 = record f { active_plugins = f.active_plugins ++ plugin ∷ [] } in
            let more = map (λ t. new_plugin t iterations) (configured_types configured rest) in
            let (_, active) = start_keys-Started configured rest iterations f1 k.1 in
            let place : active_at (length f.active_plugins)
                  (start_keys configured rest iterations f1).1.active_plugins
                ≡ some plugin =
              ap (active_at (length f.active_plugins))
                (active ∙ append_assoc f.active_plugins (plugin ∷ []) more)
              ∙ active_at-append f.active_plugins more plugin in
            rw (start_keys, e, create_plugin, d)
              (
                (plugin, place, refl, (refl, refl)),
                start_keys-Active configured rest iterations f1 k.1,
              )
      ]
    ]

count-CountedTo :
    (limit n k : ℕ) (f : HealthCheckFactory) (cs : List Checker)
    → All (Active (CountedTo limit k) f.active_plugins) cs
    → All (Active (CountedTo limit (k + n)) (count n f).active_plugins) cs
unfolding increment_all_iterations increment_iterations
count-CountedTo limit zero k f cs h =
    subst (λ j. All (Active (CountedTo limit j) f.active_plugins) cs) (omega arith) h
count-CountedTo limit (suc n) k f cs h =
    subst
      (λ j.
        All (Active (CountedTo limit j) (count n (increment_all_iterations f)).active_plugins) cs)
      (omega arith)
      (count-CountedTo limit n (suc k) (increment_all_iterations f) cs (
        Active-map (CountedTo limit k) (CountedTo limit (suc k)) increment_iterations (λ p. refl)
          (λ p c. (c.0, ap suc c.1)) f.active_plugins cs h))

abbrev pub HasEnded : HealthCheckPlugin → Type 0
HasEnded p = keeps_polling p ≡ false

CountedTo-HasEnded :
    (limit : ℕ) (p : HealthCheckPlugin) → CountedTo limit (0 + limit) p → HasEnded p
unfolding keeps_polling below_limit
CountedTo-HasEnded limit p (h, k) = ground arith

set_stop-HasEnded : (p : HealthCheckPlugin) → HasEnded (set_stop p)
unfolding keeps_polling set_stop
set_stop-HasEnded p = ground arith

Active-mono :
    (P Q : HealthCheckPlugin → Type 0)
    → ((p : HealthCheckPlugin) → P p → Q p)
    → (ps : List HealthCheckPlugin) (cs : List Checker) → All (Active P ps) cs
    → All (Active Q ps) cs
Active-mono P Q h ps [] k = tt
Active-mono P Q h ps (c ∷ cs) ((p, found, type, has), ks) =
    ((p, found, type, h p has), Active-mono P Q h ps cs ks)

-- Where each key's type is loaded, `start_all` hands out one checker for each configured section, in the
-- order of the keys. The plugin of each checker is among the active ones that main counts and stops:
-- after the iterations that were asked for are counted, it polls no more, and neither does it after
-- `stop_all`, however many iterations were asked for.
pub started_end :
    (configured : Text → Bool) (n : ℕ) (iterations : Option ℕ) (f : HealthCheckFactory)
    → IsConsistent f
    → (map (λ (c : Checker). c.health_check_type) (start_all configured iterations f).0
        ≡ configured_types configured f.config_key_map)
      × All
          (Active HasEnded (count n (start_all configured (some n) f).1).active_plugins)
          (start_all configured (some n) f).0
      × All
          (Active HasEnded (stop_all (start_all configured iterations f).1).active_plugins)
          (start_all configured iterations f).0
unfolding stop_all set_stop start_all
started_end configured n iterations f c = (
  (start_all_lem configured iterations f c).0,
  Active-mono (CountedTo n (0 + n)) HasEnded (CountedTo-HasEnded n) _ _ (
      count-CountedTo n n 0 (start_all configured (some n) f).1 _
        (start_keys-Active configured f.config_key_map (some n) f c)),
  Active-map (IsNew iterations) HasEnded set_stop (λ p. refl) (λ p u. set_stop-HasEnded p) _ _
      (start_keys-Active configured f.config_key_map iterations f c),
)
