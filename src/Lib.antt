-- ===== src/Lib.antt =====
-- Nautes: the rules by which the platform admits the runtimes of its users, and the snapshot of a
-- product from which its operator deploys them.
--
-- A product has projects, code repositories, environments (each on a cluster), deployment runtimes
-- and pipeline runtimes; all are custom resources. Admission webhooks accept or reject a runtime
-- when it is written. The runtime operator then loads the resources of the product into a snapshot
-- and asks it for the namespaces and the repositories that the runtimes of a cluster use.
--
-- Common: Go's results, maps and sets. `(value, error)` is `Result`; an error keeps its format and
-- some of its arguments as data, `%w` nests, and a nil dereference is an error of its own that no
-- wrapper changes. A map is an association list: the list is one order in which `range` may visit
-- it, and the theorems hold for every such order. Logging is left out.
--
-- Resource (api/kubernetes/v1alpha1/*_types.go, *_functions.go, global.go): one record per resource
-- with its specification and the parts of metadata and status that the code reads; `Runtime` is the
-- sum of the two types that implement the Go interface, its methods are by clauses. Dates are
-- seconds. Type metadata, status conditions and list types are left out. The metadata record has
-- the fields of the library's ObjectMeta that the code uses.
--
-- Webhook (api/kubernetes/v1alpha1/global_webhook.go, projectpipelineruntime_webhook.go,
-- deploymentruntime_webhook.go): `ValidateClient` is the record of what the webhooks ask of the API
-- server and `validate_client_from_k8s` its implementation over the calls of the library's client,
-- which are parameters.
--   Client, Permission, Namespaces: the client, hasCodeRepoPermission, GetUsedNamespaces
--   Pipeline.Static, Pipeline.Hooks, Pipeline.Validate, Pipeline.Compare: StaticCheck with
--     checkUserPipelineInputSourceIsLegal, validateHooks, Validate with ValidateCreate,
--     ValidateUpdate and GetPipelineHooksMetaData, and Compare
--   Deployment.Used, Deployment.Validate: checkNamespacesIsUsed with getUsedNamespacesInCluster,
--     and Validate with its other checks, ValidateProjectRef, Compare, ValidateCreate and
--     ValidateUpdate
--   Cluster, Config, Dependents: ValidateCluster (cluster_webhook.go) with the configuration of its
--     components (pkg/config/cluster), and what keeps a cluster, an environment or a repository from
--     being deleted (GetDependencies and IsDeletable of environment_webhook.go, coderepo_webhook.go)
-- Parameters: the API server's answers, the configuration of components as read from its files,
-- whether a value matches a pattern of it, the configuration file's namespace, the JSON of the hook
-- rules (`WebhookEnv`), reflect.DeepEqual on specifications, and whether USEREALNAME is set. The
-- hypothesis `HasKeys` says of the answers that pairs of product and environment with one key
-- `product|environment` are one environment; it holds since Kubernetes names have no bar.
--
-- Snapshot (app/runtime-operator/pkg/database/database.go, interface.go): `RuntimeDataBase` is the
-- loaded state, `SnapshotClient` the calls of the load (url.JoinPath among them, as a parameter).
--   Load: newRuntimeDataSource and the functions that cache resources and convert repositories
--   Matrix, Legal: permissionMatrix and removeIllegalReposInPipelineRuntime
--   Query, Options, Namespaces, Repos: the getters, ListOptions, ListUsedNamespaces and
--     ListUsedCodeRepos
-- The loop that removes illegal repositories writes the map that it visits; the model visits the
-- entries that the map had before. A name that Go visits again after its deletion would get the
-- same runtime again, since the rewriting changes nothing the second time.
--
-- Usage (app/runtime-operator/internal/syncer/v2/cache/*.go, ../task/usageController.go): what the
-- deployed runtimes of a cluster use, for maps that are not nil.
--   Spaces: `SpaceUsage`, the spaces of each runtime
--   Secret, Accounts: `AccountUsage`, for each machine account the runtimes that use it with their
--     spaces and permissions, and AccountIsRemovable (task/syncer.go)
--   Products, Controller: `ClusterUsage` and the `UsageController`, which keeps the usages of all
--     clusters as YAML texts in one config map
-- Parameters: the hash of a permission (fnv of its JSON), the YAML functions (`Yaml`), and the config
-- map's read and `CreateOrPatch` (`ConfigMapClient`). `IsStore` states what their documentation says;
-- `ReadsBack` that a text reads back as the usage that it was made of, with its lists in their order.
--
-- Task (app/runtime-operator/internal/syncer/v2/task/deploymentRuntime.go, syncer.go,
-- ../../../../pkg/component, pkg/utils/compare.go): the deployment and the deletion of a deployment
-- runtime. An `Action` takes a `Run`, which is the product's usage, the history that will be returned and
-- the calls of the components made so far, to a result and the run after it; what was done before an
-- error stays done. `World` says what each call returns and may depend on all calls before it.
--   Component, Action: arguments and errors of the components, the actions and their composition
--   Products, Permissions: CreateProduct, DeleteProduct, DeleteProductAccount, the synchronisation and
--     the revocation of permissions with GetHashMap
--   Deployer, Load, Deploy: the deployer of a runtime and how it is made from the snapshot and the stored
--     history, its steps, deploy, delete, Deploy and Delete
--   Invariants, Others, Hashes, Safe, Careful: the rules for invariants of actions, the part of a usage
--     that concerns the other runtimes, and which calls leave them what they use. A `Scope` says which
--     spaces and applications a task may touch; the modules Outcome give those of both kinds of tasks.
--   Listener, Pipeline (task/pipelineRuntime.go, pipelineRuntimeHookSpace.go, ../../../../pkg/component/
--     eventListener.go, pipeline.go): the same for pipeline runtimes. Deployer has the small conversions
--     and the application, Load makes the deployer, Sources the event sources, Consumers the consumers
--     with their hooks, HookSpace the resources that hooks need, Steps and Deploy the steps, deploy,
--     delete, Deploy and Delete; Requests, Hooked, Careful, Scopes, Outcome and Created
--     what they do. The history of a task is a parameter of the actions.
-- Sets and maps that the tasks range over are visited in the order of their lists. The deployer starts
-- with the old history twice, as `cache` and as `newCache`; how JSON is read is a parameter. Setup is
-- initComponents, which chooses the components of a task; NewTask around it and the clean-up of a task are
-- not modelled.
--
-- Queue (pkg/queue/nautesqueue/nautesqueue.go): the work queue of the management server.
--   RateLimiting: what the code uses of client-go's rate limited queue, as a record of operations and a
--     record of documented laws, which are hypotheses; Examples has an instance that meets them
--   Worker: clientGoWorkQueue, Send, GetByKey, handleErr and the two parts of processNextItem, before and
--     after the handler
--   System: `Step` lets senders, workers and handlers act in any order, and a `Trace` is any sequence of
--     steps; what a handler returns is up to the environment. `Get` is a relation that holds the delays.
--     `Send` is one step, and that each worker runs one handler is the guard of the step that takes a key.
--   Kept, Delivery, Budget: the invariant, what happens to an entry, and how often a handler is called
-- Left out: the shutdown of the queue, and the handler that AddHandler sets.
--
-- Every loop runs over a finite list and is structural recursion, so the models are total and no
-- fuel is used. Resource.Samples and the modules named Examples hold concrete resources and runs.
--
-- Not modelled: the validation of repository URLs, the webhook of product providers, NewTask and the
-- clean-up of a task, the drivers of the runtime operator, the other operators and the management
-- server, whose code is for the most part calls of other services; generated code and start-up.
pub mod Common
pub mod Queue
pub mod Resource
pub mod Webhook
pub mod Snapshot
pub mod Task
pub mod Usage
