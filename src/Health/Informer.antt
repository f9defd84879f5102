-- ===== src/Health/Informer.antt =====
-- start of kubernetes_watcher.go, and Start and Stop of kubernetes_informer.go.
use beamlit_controller.Base.{
  Bool, true, Option, none, some, List, [], ◌∷◌, Text, Text_Eq, bytes, Dict, Act, pure, gets,
  modify, crash, ◌>>=◌, ◌>>◌, ◌==◌, ◌||◌, if◌then◌else◌, not,
}
use beamlit_controller.Health.{
  Object, Message, HealthWatcher, Entry, Registry, handle_event, remove_watcher,
}

-- Why a watcher gives up.
pub data StartError : Type 0 where
  unsupported_kind handler_failed not_synced : StartError

abbrev pub is_supported : Text → Bool
is_supported kind =
    kind == bytes "Deployment"
    || kind == bytes "StatefulSet"
    || kind == bytes "DaemonSet"
    || kind == bytes "ReplicaSet"

-- What `start` sends to the channel of errors: `added` says that AddEventHandler returns no error,
-- and `synced` what WaitForCacheSync returns.
unfoldable pub start_error : HealthWatcher → Bool → Bool → Option StartError
start_error w added synced =
    if not (is_supported w.watch_target.kind)
    then some unsupported_kind
    else if not added
    then some handler_failed
    else if not synced
    then some not_synced
    else none

-- What the shared informer calls the handlers with.
pub data Change : Type 0 where
  added deleted : Object → Change
  updated : Object → Object → Change

unfoldable pub handle_change : HealthWatcher → Change → List Message
handle_change w (added o) = handle_event w o
handle_change w (updated before o) = handle_event w o
handle_change w (deleted o) = handle_event w o

-- The informer: whether the channel of statuses is closed.
pub record HealthInformer : Type 0 where
  pub watchers : Registry
  pub is_closed : Bool

abbrev pub on_watchers : {A : Type 0} → Act Registry A → Act HealthInformer A
on_watchers m h = ((m h.watchers).0, record h { watchers = (m h.watchers).1 })

-- The loop of Stop over the watchers; one that has not set `cancel` yet panics.
unfoldable pub cancel_all : Dict Text Entry → Act Registry (Unit {0})
cancel_all [] = pure tt
cancel_all ((n, e) ∷ rest) =
    let others = cancel_all rest in remove_watcher e.watcher.model >> others

unfoldable pub stop : Act HealthInformer (Unit {0})
unfolding cancel_all
stop = do
  watchers ← gets (λ h. h.watchers)
  on_watchers (cancel_all watchers)
  closed ← gets (λ h. h.is_closed)
  if closed then crash else modify (λ h. record h { is_closed = true })

-- What the goroutine of Start receives.
pub data Signal : Type 0 where
  done : Signal
  failed : Text → Signal

unfoldable pub handle_signal : Signal → Act HealthInformer (Unit {0})
unfolding stop
handle_signal done = stop
handle_signal (failed model) = on_watchers (remove_watcher model)
