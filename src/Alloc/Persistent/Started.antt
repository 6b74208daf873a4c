-- ===== src/Alloc/Persistent/Started.antt =====
-- libensemble/alloc_funcs/start_only_persistent.py: how many generators are started, and that all that were
-- started still run.
use libensemble.Base.{
  ℕ, suc, ◌+◌, ◌-◌, ◌≤◌, ◌≡◌, Bool, true, false, ◌&&◌, List, [], ◌∷◌, none, some, ok, ltb, leb,
  length, any, count, max, arith, Outcome-cases, Bool-cases, inl, inr,
}
use libensemble.Resources.Scheduler.Matching.{SetOrder}
use libensemble.Alloc.{Columns, GenRequest}
use libensemble.Alloc.Workers.{count_persis_gens, avail_worker_ids, eval_gen_tag}
use libensemble.Alloc.Support.{AllocSupport}
use libensemble.Alloc.Work.{gen_work}
use libensemble.Alloc.GiveSims.{no_info, is_free_shortage, to_evaluate}
use libensemble.History.Updates.{range_from}
use libensemble.Alloc.Persistent.{
  Entries, PersistentOptions, ids_of, sim_worker_ids, give_back, persis_sims, start_gens,
  persistent_work, only_persistent_gens,
}

-- How many generators may be active.

abbrev pub limit_of : PersistentOptions → ℕ
limit_of user = elim user.num_active_gens as (λ _. ℕ) [ none ↦ 1 | some n ↦ n ]

module _ (sets : SetOrder) (procs_per_rset gpus_per_rset : ℕ) where
  start_gens-le :
      (s : AllocSupport) (limit : ℕ) (active_recv : Bool) (persis_info : ℕ → GenRequest)
      (rows : List ℕ) (gen_count : ℕ) (wids : List ℕ) (entries : Entries)
      → start_gens sets procs_per_rset gpus_per_rset s limit active_recv persis_info rows gen_count
          wids
        ≡ ok entries
      → gen_count + length entries ≤ max gen_count limit
  unfolding start_gens
  start_gens-le s limit active_recv persis_info rows gen_count [] entries e =
      let none_started : entries ≡ [] = ground arith in rw none_started (ground arith)
  start_gens-le s limit active_recv persis_info rows gen_count (wid ∷ wids) entries e =
      elim (Bool-cases (ltb gen_count limit)) [
        | inr enough ↦
            start_gens-le s limit active_recv persis_info rows gen_count wids entries (ground arith)
        | inl fewer ↦
            let given =
              gen_work sets procs_per_rset gpus_per_rset s wid (persis_info wid) rows no_info in
            elim (Outcome-cases given.0) [
              | inr (x, failed) ↦ elim (Bool-cases (is_free_shortage x)) [
                | inr other ↦ absurd (ground arith)
                | inl shortage ↦
                    let none_started : entries ≡ [] = ground arith in rw none_started (ground arith)
              ]
              | inl (work, made) ↦
                  elim (Outcome-cases (
                    start_gens sets procs_per_rset gpus_per_rset given.1 limit active_recv
                      persis_info rows (gen_count + 1) wids)) [
                        | inr (x, failed) ↦ absurd (ground arith)
                        | inl (more, went) ↦
                            let rest : gen_count + 1 + length more ≤ max (gen_count + 1) limit =
                              start_gens-le given.1 limit active_recv persis_info rows
                                (gen_count + 1) wids more went in
                            let longer : length entries ≡ suc (length more) = ground arith in
                            ground (arith, rest, longer)
                      ]
            ]
      ]

  -- A call of only_persistent_gens that returns flag 0: not fewer generators run than were started before,
  -- num_gens_started does not fall, and it grows by no more than the generators that may still be started.
  pub only_persistent_gens-bounds :
      (s : AllocSupport) (H : Columns) (gen_worker : List ℕ) (user : PersistentOptions)
      (persis_info : ℕ → GenRequest) (any_idle_workers : Bool) (started later : ℕ) (Work : Entries)
      → only_persistent_gens sets procs_per_rset gpus_per_rset s H gen_worker user persis_info false
          any_idle_workers started
        ≡ ok (Work, later, some 0)
      → (started ≤ count_persis_gens s.W.iterable)
        × (started ≤ later)
        × (count_persis_gens s.W.iterable + (later - started)
            ≤ max (count_persis_gens s.W.iterable) (limit_of user))
  unfolding only_persistent_gens persistent_work
  only_persistent_gens-bounds s H gen_worker user persis_info any_idle_workers started later Work
        e =
      let W = s.W.iterable in
      let async =
        user.async_return && leb user.init_sample_size (count (λ p. p.sim_ended) H.points) in
      let running =
        ids_of (avail_worker_ids W (some eval_gen_tag) user.active_recv_gen none none) in
      elim (Bool-cases any_idle_workers) [
        | inr busy ↦ absurd (ground arith)
        | inl idle ↦ elim (Bool-cases (ltb (count_persis_gens W) started)) [
          | inl ended ↦ absurd (ground arith)
          | inr all_run ↦
              elim (Outcome-cases (
                give_back sets procs_per_rset gpus_per_rset s H gen_worker async
                  user.active_recv_gen persis_info running)) [
                    | inr (x, failed) ↦ absurd (ground arith)
                    | inl (back, given) ↦
                        elim (Outcome-cases (
                          persis_sims sets procs_per_rset gpus_per_rset back.1 H
                            user.give_all_with_same_priority user.alt_type (to_evaluate H.points)
                            (sim_worker_ids sets W user.alt_type))) [
                              | inr (x, failed) ↦ absurd (ground arith)
                              | inl (sims, went) ↦ elim (Bool-cases (any (λ b. b) sims.1)) [
                                | inl more ↦
                                    let same : later ≡ started = ground arith in
                                    (ground arith, ground arith, ground arith)
                                | inr all_given ↦
                                    elim (Outcome-cases (
                                      start_gens sets procs_per_rset gpus_per_rset sims.2
                                        (limit_of user) user.active_recv_gen persis_info
                                        (range_from 0 (length H.points)) (count_persis_gens W)
                                        (ids_of (
                                          avail_worker_ids W (some 0) false (some true)
                                            (some true))))) [
                                              | inr (x, failed) ↦ absurd (ground arith)
                                              | inl (gens, began) ↦
                                                  let most =
                                                    start_gens-le sims.2 (limit_of user)
                                                      user.active_recv_gen persis_info
                                                      (range_from 0 (length H.points))
                                                      (count_persis_gens W)
                                                      (ids_of (
                                                        avail_worker_ids W (some 0) false
                                                          (some true) (some true)))
                                                      gens began in
                                                  let grown : later ≡ started + length gens =
                                                    ground arith in
                                                  (
                                                    ground arith,
                                                    ground (arith, grown),
                                                    ground (arith, grown, most),
                                                  )
                                            ]
                              ]
                            ]
                  ]
        ]
      ]
