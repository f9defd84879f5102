-- ===== src/Metric/Replicas.antt =====
-- getReplicasInfo and findRequestedResource of internal/informers/metric/kubernetes_helper.go, and
-- what the watchers ask of the cluster. `W` is the state of the cluster.
use beamlit_controller.Base.{
  Option, List, [], ◌∷◌, Text, Text_Eq, bytes, ℤ, pos, add64, Act, Result, Error, failure, ok, err,
  panic, pure, raise, lift, ◌>>=◌, ◌==◌, if◌then◌else◌,
}
use beamlit_controller.Deployment.{ObjectReference}

-- Status of the scale subresource.
pub record Scale : Type 0 where
  pub replicas : ℤ
  pub selector : Text

-- MilliValue of the requests of a container.
pub record Container : Type 0 where
  pub cpu : ℤ
  pub memory : ℤ
  pub ephemeral_storage : ℤ
  pub storage : ℤ

pub record PodMetric : Type 0 where
  pub timestamp : ℤ
  pub window : ℤ
  pub value : ℤ

pub record Cluster (W : Type 0) : Type 0 where
  -- schema.ParseGroupVersion, RESTMappings, and Get of a scale
  pub parse_group : Text → Result Text
  pub rest_mappings : Text → Text → Act W (List Text)
  pub get_scale : Text → Text → Text → Act W Scale
  -- labels.Parse and LabelSelectorAsSelector
  pub parse_selector : Text → Result Text
  pub as_selector : Option Text → Result Text
  -- the pods of a namespace that a selector picks
  pub list_pods : Text → Text → Act W (List (List Container))
  -- MetricsClient
  pub object_metric : Text → Text → ObjectReference → Text → Act W ℤ
  pub raw_metric : Text → Text → Text → Text → Act W (List PodMetric)
  pub resource_metric : Text → Text → Text → Text → Act W (List PodMetric)
  pub external_metric : Text → Text → Text → Act W (List ℤ)
  -- time.Now
  pub now : W → ℤ

module _ {W : Type 0} (k : Cluster W) where
  unfoldable pub parse_hpa_selector : Text → Result Text
  parse_hpa_selector selector =
      if selector == [] then err (failure "selector is required") else k.parse_selector selector

  -- What a Get of the scale leads to; `rest` goes on with the other mappings.
  abbrev pub on_scale : Result Scale → Act W (ℤ × Text) → Act W (ℤ × Text)
  on_scale (ok s) rest w =
      (do selector ← lift (parse_hpa_selector s.selector); pure (s.replicas, selector)) w
  on_scale (err e) rest w = rest w
  on_scale panic rest w = (panic, w)

  -- The mappings behind the first one, whose error is `first`.
  unfoldable pub other_mappings : ObjectReference → Error → List Text → Act W (ℤ × Text)
  other_mappings target first [] = raise first
  other_mappings target first (m ∷ ms) = λ w.
      let x = k.get_scale target.namespace m target.name w in
      on_scale x.0 (other_mappings target first ms) x.1

  abbrev pub on_first_scale : ObjectReference → List Text → Result Scale → Act W (ℤ × Text)
  on_first_scale target ms (err e) w = other_mappings target e ms w
  on_first_scale target ms (ok s) w = on_scale (ok s) (raise (failure "")) w
  on_first_scale target ms panic w = (panic, w)

  unfoldable pub try_mappings : ObjectReference → List Text → Act W (ℤ × Text)
  unfolding other_mappings parse_hpa_selector
  try_mappings target [] = raise (failure "failed to get replicas info")
  try_mappings target (m ∷ ms) =
      λ w. let x = k.get_scale target.namespace m target.name w in on_first_scale target ms x.0 x.1

  unfoldable pub get_replicas_info : ObjectReference → Act W (ℤ × Text)
  get_replicas_info target = do
    group ← lift (k.parse_group target.api_version)
    mappings ← k.rest_mappings group target.kind
    try_mappings target mappings

-- The request of one container for the resource; other resources count nothing.
unfoldable pub request_of : Text → Container → ℤ
request_of name c =
    if name == bytes "cpu"
    then c.cpu
    else if name == bytes "memory"
    then c.memory
    else if name == bytes "ephemeral-storage"
    then c.ephemeral_storage
    else if name == bytes "storage"
    then c.storage
    else pos 0

unfoldable pub add_requests : Text → ℤ → List Container → ℤ
unfolding request_of
add_requests name acc [] = acc
add_requests name acc (c ∷ cs) = add_requests name (add64 acc (request_of name c)) cs

unfoldable pub add_pods : Text → ℤ → List (List Container) → ℤ
unfolding add_requests
add_pods name acc [] = acc
add_pods name acc (p ∷ ps) = add_pods name (add_requests name acc p) ps

unfoldable pub find_requested_resource : {W : Type 0} → Cluster W → Text → Text → Text → Act W ℤ
unfolding add_pods
find_requested_resource k namespace selector name = do
  pods ← k.list_pods namespace selector
  pure (add_pods name (pos 0) pods)
