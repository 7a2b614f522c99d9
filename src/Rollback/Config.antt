-- ===== src/Rollback/Config.antt =====
-- krkn/rollback/config.py: the singleton `RollbackConfig` and its setters.
use krkn.Base.{◌≡◌, [], Bool, true, false, if◌then◌else◌, arith}
use krkn.Base.Text.{Text}
use krkn.Base.Result.{Result, ok, err, ◌>>=◌}

pub record RollbackConfig : Type 0 where
  pub auto : Bool
  pub versions_directory : Text
  pub registered : Bool

-- `AttributeError`
pub data AttributeError : Type 0 where
  already_registered : AttributeError

unfoldable pub new_config : RollbackConfig
new_config = record { auto = false; versions_directory = []; registered = false }

unfoldable pub set_auto : Bool → RollbackConfig → Result AttributeError RollbackConfig
set_auto value self =
    if self.registered then err already_registered else ok (record self { auto = value })

unfoldable pub set_versions_directory : Text → RollbackConfig → Result AttributeError RollbackConfig
set_versions_directory value self =
    if self.registered
    then err already_registered
    else ok (record self { versions_directory = value })

-- `register`, on the one instance that there is.
unfoldable pub register : Bool → Text → RollbackConfig → Result AttributeError RollbackConfig
unfolding set_auto set_versions_directory
register auto versions_directory self = set_auto auto self >>= λ s.
    set_versions_directory versions_directory s >>= λ t. ok (record t { registered = true })

-- Registration succeeds once, and from then on every setter and every further registration raises:
-- the configuration that a run starts with is the one that it ends with.
pub register_once :
    (auto auto' : Bool) (dir dir' : Text) (self : RollbackConfig) {after : RollbackConfig}
    → register auto dir self ≡ ok after
    → (self.registered ≡ false)
      × (after.auto ≡ auto)
      × (after.versions_directory ≡ dir)
      × (set_auto auto' after ≡ err already_registered)
      × (set_versions_directory dir' after ≡ err already_registered)
      × (register auto' dir' after ≡ err already_registered)
unfolding register
register_once auto auto' dir dir' self e = ground arith
