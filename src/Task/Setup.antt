-- ===== src/Task/Setup.antt =====
-- `initComponents` and `GetRawStatus` of app/runtime-operator/internal/syncer/v2/task/syncer.go: the
-- components of a task, by what the cluster lists. How each kind is made (the maps `NewFunctionMap…`,
-- which the start of the program fills) is a parameter, and so is what a component is.
pub mod Examples
use Prim.Native.String.{String}
use mathlib.Core.Path.{◌≡◌, refl, ap, subst}
use mathlib.Core.Option.{Option, none, some}
use mathlib.Core.List.{[], ◌∷◌}
use nautes.Common.Result.{Result, ok, err, errorf, wrap, deref, >>=-eq-ok, ◌>>=◌}
use nautes.Common.Maps.{Map, lookup, lookup_or, assign}
use nautes.Resource.Cluster.{Component, ComponentsList}

unfoldable get_raw_status : (component_type : String) → Option (Map String) → String
unfolding lookup_or
get_raw_status component_type none = ""
get_raw_status component_type (some statuses) = lookup_or "" component_type statuses

module _ (Driver Status : Type 0) where
  pub record ComponentList : Type 0 where
    pub deployment : Option Driver
    pub multi_tenant : Option Driver
    pub secret_management : Option Driver
    pub secret_sync : Option Driver
    pub event_listener : Option Driver
    pub pipeline : Option Driver

  -- A function of one of the maps; it sees the components made so far.
  abbrev pub NewComponent : Type 0
  NewComponent = (option : Component) → ComponentList → Result Driver

  pub record PipelineFactory : Type 0 where
    pub new_status : (raw : String) → Result Status
    pub new_component : Component → ComponentList → Status → Result Driver

  pub record NewFunctions : Type 0 where
    pub secret_sync : Map NewComponent
    pub deployment : Map NewComponent
    pub multi_tenant : Map NewComponent
    pub event_listener : Map NewComponent
    pub pipeline : Map PipelineFactory

  -- `option` is the pointer that is dereferenced.
  unfoldable pub make_component :
      (unknown name : String)
      → (option : Option Component) → ComponentList
      → (found : Option NewComponent) → Result (Option Driver)
  make_component unknown name option list none = err (errorf unknown (name ∷ []))
  make_component unknown name option list (some new_fn) = do
    opt ← deref option
    driver ← new_fn opt list
    ok (some driver)

  -- One kind: nothing where the cluster lists none.
  unfoldable pub init_component :
      (unknown : String)
      → Map NewComponent
      → (listed option : Option Component) → ComponentList
      → Result (Option Driver)
  unfolding make_component lookup
  init_component unknown functions none option list = ok none
  init_component unknown functions (some component) option list =
      make_component unknown component.name option list (lookup component.name functions)

  unfoldable pub init_pipeline :
      Map PipelineFactory
      → (listed : Option Component) → (raw_statuses : Option (Map String)) → ComponentList
      → Result (Option Driver × Map Status)
  unfolding lookup get_raw_status assign
  init_pipeline factories none raw_statuses list = ok (none, [])
  init_pipeline factories (some component) raw_statuses list =
      elim (lookup component.name factories) [
        | none ↦ err (errorf "unknown pipeline type %s" (component.name ∷ []))
        | some factory ↦
            (wrap "get pipeline status failed: %w"
                (factory.new_status (get_raw_status "pipeline" raw_statuses))
              >>= λ status. factory.new_component component list status >>= λ driver.
                  ok (some driver, assign "pipeline" status []))
      ]

  abbrev first_list : Driver → ComponentList
  first_list sec_mgr = record {
    deployment = none;
    multi_tenant = none;
    secret_management = some sec_mgr;
    secret_sync = none;
    event_listener = none;
    pipeline = none;
  }

  unfoldable pub init_components :
      NewFunctions
      → (components : ComponentsList) → (raw_statuses : Option (Map String)) → (sec_mgr : Driver)
      → Result (ComponentList × Map Status)
  unfolding init_component init_pipeline
  init_components functions components raw_statuses sec_mgr = do
    let list = first_list sec_mgr
    secret_sync ←
        init_component "unknown secret sync type %s" functions.secret_sync components.secret_sync
          components.secret_management list
    let list = record list { secret_sync = secret_sync }
    deployment ←
        init_component "unknown deployment type %s" functions.deployment components.deployment
          components.deployment list
    let list = record list { deployment = deployment }
    multi_tenant ←
        init_component "unknown multi tenant type %s" functions.multi_tenant components.multi_tenant
          components.multi_tenant list
    let list = record list { multi_tenant = multi_tenant }
    event_listener ←
        init_component "unknown event listener type %s" functions.event_listener
          components.event_listener components.event_listener list
    let list = record list { event_listener = event_listener }
    made ← init_pipeline functions.pipeline components.pipeline raw_statuses list
    ok (record list { pipeline = made.0 }, made.1)

  -- A component is made exactly if the cluster lists one of the kind, by the function of its name, of the
  -- option.
  abbrev pub IsMade :
      Map NewComponent → (listed option : Option Component) → (made : Option Driver) → Type 0
  IsMade functions none option made = made ≡ none
  IsMade functions (some component) option made =
      (new_fn : NewComponent) × (opt : Component) × (before : ComponentList) × (driver : Driver)
      × (lookup component.name functions ≡ some new_fn)
      × (option ≡ some opt)
      × (new_fn opt before ≡ ok driver)
      × (made ≡ some driver)

  deref-eq-ok :
      (option : Option Component) {opt : Component} → deref option ≡ ok opt → option ≡ some opt
  deref-eq-ok none h = cc
  deref-eq-ok (some component) h = cc

  make_component-IsMade :
      (unknown : String) (functions : Map NewComponent) (component : Component)
      (option : Option Component) (list : ComponentList) (found : Option NewComponent)
      {made : Option Driver}
      → lookup component.name functions ≡ found
      → make_component unknown component.name option list found ≡ ok made
      → IsMade functions (some component) option made
  unfolding make_component
  make_component-IsMade unknown functions component option list none found h = cc
  make_component-IsMade unknown functions component option list (some new_fn) found h =
      let (opt, held, rest) = >>=-eq-ok (deref option) _ h in
      let (driver, returned, done) = >>=-eq-ok (new_fn opt list) _ rest in
      (new_fn, opt, list, driver, found, deref-eq-ok option held, returned, cc)

  init_component-IsMade :
      (unknown : String) (functions : Map NewComponent) (listed option : Option Component)
      (list : ComponentList) {made : Option Driver}
      → init_component unknown functions listed option list ≡ ok made
      → IsMade functions listed option made
  unfolding init_component
  init_component-IsMade unknown functions none option list h = cc
  init_component-IsMade unknown functions (some component) option list h =
      make_component-IsMade unknown functions component option list _ refl h

  abbrev pub IsSetUp : NewFunctions → ComponentsList → (sec_mgr : Driver) → ComponentList → Type 0
  IsSetUp functions components sec_mgr list =
      IsMade functions.deployment components.deployment components.deployment list.deployment
      × IsMade functions.multi_tenant components.multi_tenant components.multi_tenant
          list.multi_tenant
      × IsMade functions.event_listener components.event_listener components.event_listener
          list.event_listener
      × IsMade functions.secret_sync components.secret_sync components.secret_management
          list.secret_sync
      × (list.secret_management ≡ some sec_mgr)

  abbrev list_of : ComponentList → Result (ComponentList × Map Status) → ComponentList
  list_of other (ok out) = out.0
  list_of other (err e) = other

  -- If `initComponents` succeeds, the deployment, multi tenant and event listener components are made
  -- exactly if the cluster lists them, each by the function of its name and of its own options; the
  -- secret sync component is made of the options of the secret management component instead.
  pub init_components-IsMade :
      (functions : NewFunctions) (components : ComponentsList) (raw_statuses : Option (Map String))
      (sec_mgr : Driver) {list : ComponentList} {statuses : Map Status}
      → init_components functions components raw_statuses sec_mgr ≡ ok (list, statuses)
      → IsSetUp functions components sec_mgr list
  unfolding init_components
  init_components-IsMade functions components raw_statuses sec_mgr {list} h =
      let step1 =
        init_component "unknown secret sync type %s" functions.secret_sync components.secret_sync
          components.secret_management (first_list sec_mgr) in
      let (secret_sync, sync_made, rest) = >>=-eq-ok step1 _ h in
      let list1 : ComponentList = record (first_list sec_mgr) { secret_sync = secret_sync } in
      let step2 =
        init_component "unknown deployment type %s" functions.deployment components.deployment
          components.deployment list1 in
      let (deployment, deployment_made, rest') = >>=-eq-ok step2 _ rest in
      let list2 : ComponentList = record list1 { deployment = deployment } in
      let step3 =
        init_component "unknown multi tenant type %s" functions.multi_tenant components.multi_tenant
          components.multi_tenant list2 in
      let (multi_tenant, tenant_made, rest'') = >>=-eq-ok step3 _ rest' in
      let list3 : ComponentList = record list2 { multi_tenant = multi_tenant } in
      let step4 =
        init_component "unknown event listener type %s" functions.event_listener
          components.event_listener components.event_listener list3 in
      let (event_listener, listener_made, rest3) = >>=-eq-ok step4 _ rest'' in
      let list4 : ComponentList = record list3 { event_listener = event_listener } in
      let step5 = init_pipeline functions.pipeline components.pipeline raw_statuses list4 in
      let (made, pipeline_made, done) = >>=-eq-ok step5 _ rest3 in
      let same : record list4 { pipeline = made.0 } ≡ list = ap (list_of list) done in
      subst (IsSetUp functions components sec_mgr) same (
        init_component-IsMade _ _ components.deployment components.deployment list1 deployment_made,
        init_component-IsMade _ _ components.multi_tenant components.multi_tenant list2 tenant_made,
        init_component-IsMade _ _ components.event_listener components.event_listener list3
            listener_made,
        init_component-IsMade _ _ components.secret_sync components.secret_management
            (first_list sec_mgr) sync_made,
        refl,
      )
