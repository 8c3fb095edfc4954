-- ===== src/Thread/Interleave/Examples.antt =====
-- Two threads at one lock: 1 has taken it twice while 2 waits.
use winux_os.Base.{ℕ, ◌+◌, ◌-◌, ◌≡◌, refl, inl, inr, some, u32, arith}
use winux_os.Thread.Interleave.{
  testing, got_value, owner, inside, repeating, LockSystem, move, call, again, repeat, wait, take,
  own, first, ◌⟶*◌, here, more, fresh, mutual_exclusion,
}

abbrev called : LockSystem
called = record fresh { place = move fresh 1 testing }

abbrev taken_one : LockSystem
taken_one = record called { value = called.value - 1; place = move called 1 got_value }

abbrev second : LockSystem
second = record taken_one { place = move taken_one 2 testing }

abbrev owned : LockSystem
owned = record second { holder = some 1; place = move second 1 owner }

abbrev entered : LockSystem
entered = record owned { holder_repeat_nr = 1; place = move owned 1 inside }

abbrev nested : LockSystem
nested = record entered { place = move entered 1 repeating }

abbrev twice : LockSystem
twice = record nested { holder_repeat_nr = u32 (1 + 1); place = move nested 1 inside }

run : fresh ⟶* twice
run = more _ _ _ (call fresh 1 (inl refl) (λ e. cc)) (
    more _ _ _ (take called 1 refl (λ e. absurd (omega arith)) refl) (
      more _ _ _ (call taken_one 2 (inl refl) (λ e. cc)) (
        more _ _ _ (wait second 2 refl refl) (
          more _ _ _ (own second 1 refl) (
            more _ _ _ (first owned 1 refl) (
              more _ _ _ (again entered 1 (inr refl) refl)
                (more _ _ _ (repeat nested 1 refl) (here twice))))))))

mutual_exclusion_example : ◌≡◌ {A = ℕ} 1 1
mutual_exclusion_example = mutual_exclusion twice 1 1 run refl refl
