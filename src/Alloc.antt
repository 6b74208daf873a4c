-- ===== src/Alloc.antt =====
-- libensemble/tools/alloc_support.py, class AllocSupport: what the allocation functions know of the
-- workers and of the history.
-- A column of the history is a list that is as long as it, or `none` if H has no field of that name.
pub mod Workers
pub mod Support
pub mod Work
pub mod GiveSims
pub mod Given
pub mod Choice
pub mod InOrder
pub mod Persistent
pub mod Sequence
mod Tests
mod PersistentTests
use libensemble.Base.{ℕ, Bool, List, Option}

-- A row of `Manager.worker_dtype`.
pub record Worker : Type 0 where
  pub worker_id : ℕ
  pub gen_worker : Bool
  pub active : ℕ
  pub persis_state : ℕ
  pub active_recv : Bool
  pub gen_started_time : ℕ
  pub zero_resource_worker : Bool

-- `_WorkerIndexer`: without an additional worker, worker 1 is the first of the table.
pub record WorkerIndexer : Type 0 where
  pub iterable : List Worker
  pub additional_worker : Bool

-- The fields of a row of H that are always there.
pub record Point : Type 0 where
  pub sim_started : Bool
  pub sim_ended : Bool
  pub gen_informed : Bool
  pub cancel_requested : Bool
  pub sim_started_time : ℕ

-- The fields of H that are read; a priority is a natural number.
pub record Columns : Type 0 where
  pub resource_sets : Option (List ℕ)
  pub num_procs : Option (List ℕ)
  pub use_gpus : Option (List Bool)
  pub num_gpus : Option (List ℕ)
  pub priority : Option (List ℕ)
  pub points : List Point

-- The entries of persis_info that ask for resources of a generator.
pub record GenRequest : Type 0 where
  pub gen_resources : Option ℕ
  pub gen_use_gpus : Option Bool
  pub gen_num_procs : Option ℕ
  pub gen_num_gpus : Option ℕ

-- libE_info of a work record, with no value for a key that is not there.
pub record LibeInfo : Type 0 where
  pub rset_team : Option (List ℕ)
  pub num_procs : Option ℕ
  pub num_gpus : Option ℕ
  pub gen_count : Option ℕ
  pub H_rows : List ℕ

-- A work record; the user's field names and persis_info are passed on unread.
pub record WorkRecord : Type 0 where
  pub tag : ℕ
  pub libe_info : LibeInfo
