-- ===== src/Session/Registry.antt =====
-- manager.go, cleanup.go and session.go: what the goroutines of the gateway do to the registry and to the
-- sessions in it, one locked section after the other.
use gopbx.Prelude.{ℕ, List, [], ◌∷◌, Option, Text, get_elem?}
use gopbx.Protocol.Command.{CallOption}
use gopbx.Session.State.{CallType, CloseInfo}
use gopbx.Session.Manager.{Manager, create, kill_session, cleanup, update}
use gopbx.Session.Lifecycle.{Op, step}

-- A call is registered, is killed, ends, or a method of the session at a place is called.
pub data RegistryEvent : Type 0 where
  creates : Text → CallType → Option CallOption → ℕ → RegistryEvent
  kills : Text → RegistryEvent
  cleans : Option ℕ → CloseInfo → ℕ → RegistryEvent
  acts : ℕ → Op → RegistryEvent

unfoldable pub registry_step : Manager → RegistryEvent → Manager
unfolding create kill_session cleanup step
registry_step m (creates id typ option now) = (create m id typ option now).0
registry_step m (kills id) = (kill_session m id).0
registry_step m (cleans place info now) = (cleanup m place info now).0
registry_step m (acts place op) = update m place (λ s. (step s op).0) (get_elem? m.heap place)

unfoldable pub registry_run : Manager → List RegistryEvent → Manager
unfolding registry_step
registry_run m [] = m
registry_run m (event ∷ events) = registry_run (registry_step m event) events
