-- ===== src/Lib.antt =====
-- A model of the Beamlit controller, a Kubernetes operator that registers the models of a cluster
-- on Beamlit, and that sends part of a model's traffic to a remote backend when its metrics are
-- reached or its pods fail.
--
-- The parts and how they interact. The manager of controller-runtime calls Reconcile for a
-- ModelDeployment; Reconcile registers the model on Beamlit, sets up the local service
-- (Configurer), the routes of the gateway (Offloader), and a watcher each for the metrics and the
-- health of the model. The watchers send their reports to two channels. WatchForInformerUpdates
-- reads both and calls metricCallback or healthCheckCallback, which move the weight between the
-- local and the remote backend, and note it in the maps of the reconciler. The offloader sends the
-- routes to the gateway's API; the gateway's reverse proxy sends a request of a known host to one
-- of the route's backends by their weights, and tries another backend when one fails.
--
-- Files:
--   Base         shared names: texts as lists of bytes, Go's maps as association lists, 64-bit
--                integers over ℤ with their wrap-around, and `Act S A`, the actions on a state `S`
--                that return a value, return an error or panic (Result). Base/Keeps carries the
--                predicates that an action keeps, and their rules
--   Deployment   api/v1alpha1/deployment/modeldeployment_types.go: the types of the resource
--   Controller   internal/controller/modeldeployment_controller.go
--     State      ModelDeploymentReconciler: its four maps, and what it calls, as the record Deps
--     Callbacks  metricCallback, healthCheckCallback, notifyOnBeamlit
--     Watch      WatchForInformerUpdates: watch_step is one turn of the loop
--     Reconcile  Reconcile, createOrUpdate, configureOffloading, finalizeModel
--     Run        requests and reports in the order in which they are handled
--     Sound, Idempotence, Failover, Recovery, Forgetting: theorems
--   Metric       internal/informers/metric: kubernetes_informer.go, kubernetes_helper.go and
--                prometheus_informer.go
--     Spec       IsMetricSpecEqual and the functions that it calls
--     Target     isMetricReached
--     Replicas   getReplicasInfo, parseHPASelector, findRequestedResource
--     Condition  metricConditionStatus: update, isReached
--     Watcher    k8sMetricWatcher: CheckMetric and a round of start
--     Prometheus the queries and the watcher of prometheus_informer.go
--     Registry   Register, Unregister and Stop of both informers
--     Turns, Spec/{Per,Equal,Complete}, Tracking, Rounds and
--                Condition/{Latest,Members,Settled,History,Window,Total}: theorems
--   Gateway      gateway: the reverse proxy of the models and its API
--     Types      gateway/api/v1alpha1
--     InMem      gateway/internal/persistence/inmem.go
--     Proxy      gateway/internal/proxy/proxy.go
--     Pick       weightedRandomBackend of gateway/internal/proxy/utils.go
--     Handler    RewriteV1Alpha1, handleBackend and ErrorHandler of gateway/internal/proxy/handler.go
--     Answer     ModifyResponse of the same file
--     Api        gateway/api/v1alpha1.go
--     ClientSet  gateway/clientset/v1alpha1.go, and the paths of gateway/api/router.go
--     Life       New, and what the process is called for from its start; its Changes is on the API,
--                its Traffic on the requests that are passed on
--     Routing, Retries, Refines, Order, Delivery: theorems
--   Config       internal/config/config.go
--   Configurer   internal/dataplane/configurer: kubernetes_configurer.go and its helper
--     Cluster    the services and endpoint slices of the cluster
--     State      kubernetesConfigurer, GetLocalBeamlitService, stopWatchers
--     Gateway    createBeamlitModelService, and the ports and external IPs of the gateway service
--     Slices     the endpoint slices that Configure takes over, mirrors and empties; Configure
--     Release    Unconfigure and what it calls
--     Mirror     mirrorEndpointSlices: one event of the watch
--     Steps      what the calls keep that only ask the cluster; lemmas of the theorems that follow
--     Fronted, MirrorLoop, Waiting, Running, Watchers, Stuck, Apart, Lifecycle: theorems
--   Beamlit      internal/beamlit and internal/controller/helper
--     Types      the resources of Beamlit, and its SDK as the record Sdk
--     Client     model.go and policies.go
--     Token      auth_utils.go: the credentials from the environment; theorems in Credentials
--     Login      NewBeamlitToken and GetToken of auth_utils.go, and NewClient of client.go
--     Conversion model_conversion.go and kubernetes_resource.go
--   Policy       internal/controller/policy_controller.go and helper/policy_conversion.go; what a
--                failure leaves in Policy/Retry
--   Health       internal/informers/health: handleEvent of kubernetes_watcher.go, and Register and
--                Unregister of kubernetes_informer.go
--     Informer   start of the watcher, and Start and Stop of the informer
--   Pipeline     from the messages of the health channel to the reconciler
--   Traffic      from a report of an informer over the offloader and the gateway's routes to the
--                backend that is drawn
--   Teardown     finalizeModel of the reconciler over Unconfigure of the configurer
--   Start        cmd/main.go: the start of the operator
--     Platform   what the process stands on, the components that it makes and the tasks that it runs
--     Factories  NewMetricInformer, NewHealthInformer, NewConfigurer and NewOffloader
--     Options    reading the configuration, and the options of the manager
--     Main       main
--     Plan, Steps, Pieces, Loaded, Ends, Serving: theorems
--   Offloader    internal/dataplane/offloader/beamlit_gateway_offloader.go: Configure and Cleanup
--     Replace    what it uses of the packages strings and fmt
--     Share      theorems
--
-- How the code is read. A function of the source is an action with the same name in the spelling
-- of this library. Reading through a nil pointer, dividing by zero and an explicit panic are the
-- result `panic`, which no handler catches. Calls that only log are left out. Two `select` loops
-- that share a map are taken to run one step at a time, in any order (Run); the accesses to the
-- plain maps of the reconciler are not synchronised in the source, and torn accesses are not
-- modelled. Time is the number of nanoseconds, and stands still within one call.
--
-- Parameters. The cluster, Beamlit, the Kubernetes quantities, the metrics client, the codecs and
-- the network are records of functions (Deps, Cluster, Quantities, Management, Codec, Net, Kube,
-- Sdk, Objects, Policies, Prometheus, HttpClient, Platform), since their code is not part of the
-- repository, or since it is a component with an interface of its own. Deps and Management are such
-- interfaces: Traffic puts the offloader in the place of the first, and Teardown puts Unconfigure
-- there; what Traffic supposes of the second (Reaches) is that its calls arrive at the maps of the
-- proxy. A theorem names what it supposes of them.
--
-- Loops are structural recursion, over a list of metrics, of mappings, of pods or of events; the
-- endless loop of a watcher is a number of rounds, for every number. The four retries of the gateway
-- are written out. The only fuel is that of the decimal digits, one more than the number, which is
-- more than its digits.
-- Waiting for a slice to be filled again is recursion on the turns that are left, four after the
-- first.
--
-- Not modelled: the tool controller, whose Reconcile does nothing; the flags and the logger of
-- cmd/main.go; the process of the gateway (gateway/main.go and gateway/cmd), which only calls cobra,
-- viper and net/http; the goroutines of the configurer, of which one event at a time is modelled;
-- generated code and mocks.
pub mod Base
pub mod Deployment
pub mod Config
pub mod Configurer
pub mod Beamlit
pub mod Policy
pub mod Controller
pub mod Gateway
pub mod Health
pub mod Metric
pub mod Offloader
pub mod Pipeline
pub mod Traffic
pub mod Start
pub mod Teardown
