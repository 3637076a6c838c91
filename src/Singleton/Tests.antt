-- ===== src/Singleton/Tests.antt =====
-- Two threads that find no instance of include/instance.h at the same time.
use aim_to_v.Base.{ℕ, ◌≡◌, ◌≤◌, refl, none, some, length}
use aim_to_v.Singleton.{
  holds, Shared, start, Reachable, at_start, then_step, misses_it, locks_to_create, tests_to_create,
  makes, stores, unlocks_created, returns, move, new_object, to_create, creating, making, storing,
  created, to_return,
}
use aim_to_v.Singleton.Exclusion.{only, Reachable-one_instance}
use aim_to_v.Singleton.References.{Reachable-same_reference}

abbrev both_miss : Shared
both_miss = move 2 to_create (move 1 to_create start)

abbrev first_locks : Shared
first_locks = move 1 creating (record both_miss { lock = some 1 })

abbrev first_makes : Shared
first_makes = move 1 (storing 0) (new_object (move 1 making first_locks))

abbrev first_unlocks : Shared
first_unlocks =
    move 1 to_return
      (record (move 1 created (record first_makes { instance = some 0 })) { lock = none })

abbrev second_unlocks : Shared
second_unlocks =
    let locked : Shared = move 2 creating (record first_unlocks { lock = some 2 }) in
    move 2 to_return (record (move 2 created locked) { lock = none })

abbrev both_hold : Shared
both_hold = move 2 (holds 0) (move 1 (holds 0) second_unlocks)

first_makes-Reachable : Reachable first_makes
unfolding start new_object
first_makes-Reachable =
    then_step
      (then_step
        (then_step
          (then_step (then_step at_start (misses_it 1 _ refl refl)) (misses_it 2 _ refl refl))
          (locks_to_create 1 _ refl refl))
        (tests_to_create 1 _ refl))
      (makes 1 _ refl)

both_hold-Reachable : Reachable both_hold
unfolding start new_object
both_hold-Reachable =
    then_step
      (then_step
        (then_step
          (then_step
            (then_step
              (then_step (then_step first_makes-Reachable (stores 1 0 _ refl))
                (unlocks_created 1 _ refl))
              (locks_to_create 2 _ refl refl))
            (tests_to_create 2 _ refl))
          (unlocks_created 2 _ refl))
        (returns 1 _ refl))
      (returns 2 _ refl)

Reachable-one_instance_example :
    (length both_hold.live ≤ 1) × (both_hold.lock ≡ none → both_hold.live ≡ only both_hold.instance)
Reachable-one_instance_example = Reachable-one_instance both_hold both_hold-Reachable

Reachable-same_reference_example : (◌≡◌ {A = ℕ} 0 0) × (both_hold.instance ≡ some 0)
unfolding start new_object
Reachable-same_reference_example =
    Reachable-same_reference both_hold 1 2 0 0 both_hold-Reachable refl refl refl
