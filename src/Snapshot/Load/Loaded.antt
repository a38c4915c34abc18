-- ===== src/Snapshot/Load/Loaded.antt =====
-- Lemmas on `newRuntimeDataSource` of app/runtime-operator/pkg/database/database.go.
use Prim.Native.String.{String}
use mathlib.Core.List.{List}
use nautes.Common.Result.{Result, ok, ◌>>=◌}
use nautes.Resource.CodeRepo.{CodeRepo}
use nautes.Snapshot.State.{RuntimeDataBase, SnapshotClient}
use nautes.Snapshot.Legal.{remove_illegal_repos_in_runtime}
use nautes.Snapshot.Load.{convert_code_repos_to_runtime_format, cache_permission_matrix}

module _ (client : SnapshotClient) where
  -- The steps of the load after the resources are read.
  abbrev finish : RuntimeDataBase → Result RuntimeDataBase
  finish loaded = do
    converted ← convert_code_repos_to_runtime_format client loaded
    permitted ← cache_permission_matrix client converted
    ok (remove_illegal_repos_in_runtime permitted)
