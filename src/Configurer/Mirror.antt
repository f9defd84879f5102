-- ===== src/Configurer/Mirror.antt =====
-- mirrorEndpointSlices of kubernetes_configurer_helper.go: what one event of the watched slice does.
use beamlit_controller.Base.{
  ℕ, zero, suc, ◌-◌, Bool, Option, none, some, List, [], ◌∷◌, ◌++◌, length, take, drop, get_elem?,
  leb, Text_Eq, bytes, ℤ, Act, Result, ok, err, panic, failure, raise, lift, ◌>>=◌, ◌==◌,
  if◌then◌else◌,
}
use beamlit_controller.Deployment.{ServiceReference}
use beamlit_controller.Configurer.Cluster.{SlicePort, Slice, Kube}
use beamlit_controller.Configurer.State.{Configurer, label, kube}
use beamlit_controller.Configurer.Slices.{is_target}

-- append(ports[:i], ports[i+1:]...), where `cells` is the array that the slice `ports` of length
-- `n` starts at: the elements behind move up by one, and the last one stays where it was.
unfoldable pub close_up : ℕ → ℕ → List SlicePort → List SlicePort
close_up i n cells = take i cells ++ take (n - suc i) (drop (suc i) cells) ++ drop (n - 1) cells

-- What one turn of the loop makes of the port at its index, of what follows its removal and of what
-- follows without one.
abbrev pub turn :
    ℤ
    → Bool
    → Option SlicePort
    → Result (List SlicePort)
    → Result (List SlicePort)
    → Result (List SlicePort)
turn target in_range none removed kept = panic
turn target in_range (some p) removed kept =
    if is_target target p.port then (if in_range then removed else panic) else kept

-- The loop over the ports, with `todo` turns left at the index `i`. It ranges over the array that
-- it moves elements in. ports[i+1:] is out of range once `i` has reached the length.
unfoldable pub remove_target : ℤ → ℕ → ℕ → ℕ → List SlicePort → Result (List SlicePort)
unfolding close_up
remove_target target zero i n cells = ok (take n cells)
remove_target target (suc todo) i n cells =
    let kept = remove_target target todo (suc i) n cells in
    let removed = remove_target target todo (suc i) (n - 1) (close_up i n cells) in
    turn target (leb (suc i) n) (get_elem? cells i) removed kept

-- An event of the watch.
pub data WatchEvent : Type 0 where
  failed unexpected : WatchEvent
  changed : Slice → WatchEvent

-- The slice that is to be updated. One with an empty name counts as none.
unfoldable pub find_to_update : List Slice → Result Slice
find_to_update [] = err (failure "second endpoint slice not found")
find_to_update (s ∷ ss) =
    let rest = find_to_update ss in
    if label (bytes "beamlit.com/to-update") s.labels == bytes "true"
    then (if s.name == [] then err (failure "second endpoint slice not found") else ok s)
    else rest

module _ {W : Type 0} (k : Kube W) where
  unfoldable pub mirror_event : ServiceReference → ℤ → WatchEvent → Act (Configurer W) (Unit {0})
  unfolding remove_target find_to_update
  mirror_event ref target failed = raise (failure "error watching endpoint slice")
  mirror_event ref target unexpected = raise (failure "unexpected object type")
  mirror_event ref target (changed s) = do
    ports ← lift (remove_target target (length s.ports) 0 (length s.ports) s.ports)
    items ← kube (k.list_slices ref.namespace ref.name)
    t ← lift (find_to_update items)
    kube (
        k.update_slice ref.namespace
          (record t { ports = ports; address_type = s.address_type; endpoints = s.endpoints }))
