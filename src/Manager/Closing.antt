-- ===== src/Manager/Closing.antt =====
-- libensemble/manager.py, class Manager: after the last receive nothing is held.
use libensemble.Base.{
  ℕ, zero, suc, ◌-◌, ◌≡◌, ◌≢◌, refl, Bool, false, ◌&&◌, ◌||◌, not, List, [], ◌∷◌, Option, some, ok,
  Outcome-cases, Option-cases, Bool-cases, inl, inr, ◌==◌, if◌then◌else◌, any, get_elem?, arith,
  All,
}
use libensemble.Alloc.{Worker}
use libensemble.Manager.{Manager, FieldName}
use libensemble.Manager.Exit.{ExitCriteria, term_test}
use libensemble.Manager.Loop.{receive_from_workers}
use libensemble.Manager.Final.{
  stop_workers, persistent_ids, any_active, any_persistent, Turn, exit_flag, final_loop,
  final_receive_and_kill,
}
use libensemble.Manager.Owners.{IsOwned, is_holder}
use libensemble.Manager.Sound.{IsSound, AreMessages, receive-IsSound}
use libensemble.Manager.Handshakes.{AreNumbered, stop_workers-IsSound, persistent_ids-AreWorkers}

any-get_elem? :
    (p : Worker → Bool) (ws : List Worker) (i : ℕ) (wrk : Worker)
    → any p ws ≡ false
    → get_elem? ws i ≡ some wrk
    → p wrk ≡ false
any-get_elem? p [] i wrk h there = absurd (ground arith)
any-get_elem? p (x ∷ ws) zero wrk h there = ground arith
any-get_elem? p (x ∷ ws) (suc i) wrk h there = any-get_elem? p ws i wrk (ground arith) there

-- With all workers idle and none in persistent state, no worker holds a resource set.
released :
    (m : Manager)
    → IsOwned m
    → (any_active m || any_persistent m) ≡ false
    → (w : ℕ) → is_holder m w ≡ false
unfolding IsOwned
released m owned quiet w = elim (Bool-cases (is_holder m w)) [
  | inr free ↦ free
  | inl holds ↦
      elim (Option-cases (get_elem? m.W.iterable (if m.W.additional_worker then w else w - 1))) [
        | inl gone ↦ absurd (ground (arith, owned w holds))
        | inr (wrk, there) ↦
            let at = if m.W.additional_worker then w else w - 1 in
            let idle : not (wrk.active == 0) ≡ false =
              any-get_elem? (λ v. not (v.active == 0)) m.W.iterable at wrk (ground arith) there in
            let plain : not (wrk.persis_state == 0) ≡ false =
              any-get_elem? (λ v. not (v.persis_state == 0)) m.W.iterable at wrk (ground arith)
                there in
            absurd (ground (arith, owned w holds))
      ]
]

-- How a run closes.
abbrev pub IsClosed : Bool → Manager → ℕ → Type 0
IsClosed additional g flag =
    IsSound additional g
    × (flag ≡ 0 → (w : ℕ) → is_holder g w ≡ false)
    × (flag ≢ 0 → (flag ≡ 2) × (any_persistent g ≡ false))

quiet-IsClosed :
    (additional : Bool) (m : Manager)
    → IsSound additional m
    → (any_active m || any_persistent m) ≡ false
    → IsClosed additional m 0
quiet-IsClosed additional m s quiet =
    (s, (λ h. released m s.owned quiet), λ h. absurd (ground (arith, h)))

final_loop-IsClosed :
    (additional : Bool) (exit : ExitCriteria) (turns : List Turn) (m g : Manager) (flag : ℕ)
    → All (λ t. AreMessages additional t.incoming) turns
    → IsSound additional m
    → final_loop exit turns m ≡ ok (some (g, flag))
    → IsClosed additional g flag
unfolding final_loop exit_flag
final_loop-IsClosed additional exit [] m g flag typed s e =
    elim (Bool-cases (any_active m || any_persistent m)) [
      | inl waits ↦ absurd (ground arith)
      | inr quiet ↦
          let same : g ≡ m = ground arith in
          let ended : flag ≡ 0 = ground arith in
          rw (same, ended) (quiet-IsClosed additional m s quiet)
    ]
final_loop-IsClosed additional exit (t ∷ turns) m g flag typed s e =
    elim (Bool-cases (any_active m || any_persistent m)) [
      | inr quiet ↦
          let same : g ≡ m = ground arith in
          let ended : flag ≡ 0 = ground arith in
          rw (same, ended) (quiet-IsClosed additional m s quiet)
      | inl waits ↦ elim (Outcome-cases (receive_from_workers t.clock t.incoming m)) [
        | inr (x, failed) ↦ absurd (ground arith)
        | inl (k, received) ↦
            let sound : IsSound additional k =
              receive-IsSound additional t.clock t.incoming m k typed.0 s received in
            let over = term_test exit t.elapsed k.hist == 2 && not (any_persistent k) in
            elim (Bool-cases over) [
              | inr goes_on ↦
                  final_loop-IsClosed additional exit turns k g flag typed.1 sound
                    (ground (arith, sound.calm))
              | inl timed_out ↦
                  let same : g ≡ k = ground (arith, sound.calm) in
                  let ended : flag ≡ 2 = ground (arith, sound.calm) in
                  rw (same, ended)
                    (sound, (λ h. absurd (ground (arith, h))), λ h. (refl, ground arith))
            ]
      ]
    ]

-- A last receive, from a sound state with workers numbered by position and no worker exception so far, over
-- any turns of messages from workers of the table, which name the kind of work done and of which no
-- simulation returns a sim_id: if it returns, the state is sound; with flag 0 no worker holds a resource
-- set; any other flag is 2, for the wall clock, and then no worker is in persistent state.
pub final_receive_and_kill-IsClosed :
    (additional : Bool) (exit : ExitCriteria) (clock : ℕ) (persis_in : Option (List FieldName))
    (turns : List Turn) (m g : Manager) (flag : ℕ)
    → AreNumbered m.W
    → All (λ t. AreMessages additional t.incoming) turns
    → IsSound additional m
    → final_receive_and_kill exit clock persis_in turns m ≡ ok (some (g, flag))
    → IsClosed additional g flag
unfolding final_receive_and_kill
final_receive_and_kill-IsClosed additional exit clock persis_in turns m g flag numbered typed s e =
    elim (Outcome-cases (stop_workers clock persis_in (persistent_ids m.W.iterable) m)) [
      | inr (x, failed) ↦ absurd (ground arith)
      | inl (k, stopped) ↦
          final_loop-IsClosed additional exit turns k g flag typed
            (stop_workers-IsSound additional clock persis_in (persistent_ids m.W.iterable) m k
              (persistent_ids-AreWorkers additional m.W s.table numbered) s stopped)
            (ground arith)
    ]
