-- ===== src/Task/Listener.antt =====
-- The arguments of the event listener, of the pipeline component and of the handler of requested
-- resources (app/runtime-operator/pkg/component/eventListener.go, pipeline.go, public.go). What a task
-- runs (`interface{}`) is kept as text.
use Prim.Native.String.{String}
use mathlib.Core.Option.{Option}
use mathlib.Core.List.{List}
use nautes.Common.Maps.{Map}
use nautes.Resource.Pipeline.{UserPipelineInput}
use nautes.Resource.Pipeline
use nautes.Usage.Secret.{SecretInfo}
use nautes.Task.Component.{ResourceMetaData, MachineAccount, Space}

abbrev pub event_source_type_calendar : String
event_source_type_calendar = "calendar"

abbrev pub event_source_type_gitlab : String
event_source_type_gitlab = "gitlab"

pub record EventSourceGitlab : Type 0 where
  pub api_server : String
  pub events : List String
  pub code_repo : String
  pub repo_id : String

pub record EventSourceCalendar : Type 0 where
  pub schedule : String
  pub interval : String
  pub exclusion_dates : List String
  pub timezone : String

pub record EventSource : Type 0 where
  pub name : String
  pub gitlab : Option EventSourceGitlab
  pub calendar : Option EventSourceCalendar

pub record EventSourceSet : Type 0 where
  pub meta : ResourceMetaData
  pub unique_id : String
  pub event_sources : List EventSource

pub record Filter : Type 0 where
  pub key : String
  pub value : List String
  pub comparator : String

abbrev pub equal_to : String
equal_to = "="

abbrev pub match : String
match = "match"

pub record InputOverWrite : Type 0 where
  pub request_var : String
  pub dest : String

abbrev pub event_task_type_raw : String
event_task_type_raw = "raw"

pub record EventTask : Type 0 where
  pub task_type : String
  pub vars : List InputOverWrite
  pub raw : Option String

pub record Consumer : Type 0 where
  pub unique_id : String
  pub event_source_name : String
  pub event_source_type : String
  pub event_types : List String
  pub filters : List Filter
  pub task : EventTask

pub record ConsumerSet : Type 0 where
  pub meta : ResourceMetaData
  pub account : MachineAccount
  pub consumers : List Consumer

pub record RequestResource : Type 0 where
  pub resource_type : String
  pub resource_name : String
  pub ssh_key : Option SecretInfo
  pub access_token : Option SecretInfo
  pub ca_file : Option String

pub record HooksInitInfo : Type 0 where
  pub builtin_vars : Map String
  pub user_request_inputs : List UserPipelineInput
  pub hooks : Pipeline.Hooks
  pub event_source : EventSource
  pub event_source_type : String
  pub event_types : List String

-- `Hooks`
pub record PipelineHooks : Type 0 where
  pub request_vars : List InputOverWrite
  pub resource : String

pub record HookSpace : Type 0 where
  pub base_space : Space
  pub deploy_resources : List RequestResource

pub record AuthInfoServiceAccount : Type 0 where
  pub service_account : String
  pub namespace : String

pub record AuthInfo : Type 0 where
  pub origin_name : String
  pub account_name : String
  pub auth_type : String
  pub service_accounts : List AuthInfoServiceAccount
