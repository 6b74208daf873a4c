-- ===== src/Lib.antt =====
-- libEnsemble: a manager hands out rows of a history array to workers, which run simulations and
-- generators; resource sets are assigned to the workers. Python code is modelled as functions on
-- explicit state: a method returns the new object, and a method that may raise an `Outcome`.
--
-- Resources/RSets follows libensemble/resources/rset_resources.py: `init_rsets` is
-- RSetResources.__init__, and the static methods keep their names. Resources/Assignment follows
-- class ResourceManager of libensemble/resources/worker_resources.py, and Resources/Local class
-- WorkerResources of that file. Resources/Scheduler follows libensemble/resources/scheduler.py: the
-- dictionaries by group (Avail), the numbers of groups (Fit), matching slots (Matching), any slots
-- (AnySlots), and the object itself.
--
-- History follows libensemble/history.py: the data and the constructor in History, the other methods
-- under their own names in History/Updates, over the fields of a row in History/Entries; a run is a
-- sequence of calls in any order (History/Runs). The names and values of the users' fields are only
-- copied; names are numbers, and 0 is resource_sets. A simulation's output may have a sim_id, a
-- generator's has it as a column. `last_started` and `last_ended`, which begin at -1, are kept one
-- higher. The time is an argument.
--
-- Alloc follows libensemble/tools/alloc_support.py, which asks the scheduler for resource sets: the
-- tests of workers and points (Alloc/Workers), requests (Alloc/Support) and work records
-- (Alloc/Work). Alloc/GiveSims follows libensemble/alloc_funcs/give_sim_work_first.py. H is read as
-- columns. Alloc/InOrder follows fast_alloc.py, give_pregenerated_work.py and only_one_gen_alloc.py
-- of the same directory, which give rows out in order. Alloc/Persistent follows
-- start_only_persistent.py there.
--
-- Manager follows class Manager of libensemble/manager.py: work orders (Manager), worker messages
-- (Manager/Messages), exit criteria (Manager/Exit), kill signals (Manager/Kill), the main loop
-- (Manager/Loop) and the last receive (Manager/Final), over the history, the workers and the
-- resources. A round of the loop takes the messages that have arrived, the readings of the clock and
-- the allocation function, which is a parameter, with persis_info and libE_info as they stand then; a
-- run is over the rounds that the environment gives.
--
-- Comms follows class QComm of libensemble/comms/comms.py. Worker follows class Worker of
-- libensemble/worker.py: the loop over work orders, which reads and writes a communicator. The
-- user's function is a parameter that may do so too; what it is to do is a named hypothesis.
--
-- Executors follows libensemble/executors/executor.py with utils/launcher.py and utils/timer.py of
-- the same package: tasks (Executors), the polling loop (Executors/Polling), applications and
-- submission (Executors/Apps). Processes are a parameter, with what is used of subprocess.Popen.
-- Polls and messages come in rounds from the environment.
--
-- Conventions. Worker IDs, resource set IDs, rows and counts are natural numbers, and a counter that
-- the source may take below zero is an integer. The -1 of `assigned` is `none`. numpy arrays are
-- lists; numpy's element-wise reads, writes and reductions are written out as list functions.
-- Logging, warnings and profiling are left out.
--
-- Bounds. Loops over collections are recursions on lists. The `while` loop of
-- `calc_even_split_uneven_groups` recurs on the groups that may still be added and on the resource
-- sets per group. The `while not found_split` loop takes one more round than resource sets are
-- split, and running out is the outcome `exhausted`, which is shown never to come up. The loop of a
-- worker takes a bound on its rounds; running out of it is the outcome `exhausted`, which does not
-- come up with more rounds than unread messages. The loops of the manager and of the executor run
-- over the rounds that are given. The order in which Python iterates over a set is a parameter
-- (`SetOrder`).
--
-- Not modelled: checkpoint files, directories, logs and dates; threads, MPI and TCP connections; MPI
-- and Balsam executors with their command lines; environment, node and GPU detection; the remaining
-- allocation functions; the user functions, which are numerical; option checking and the calling
-- scripts. Most of it is input and output, or calls of packages.
mod Base
pub mod Alloc
pub mod Comms
pub mod Executors
pub mod History
pub mod Manager
pub mod Resources
pub mod Worker
