-- ===== src/SonFirst/Tests.antt =====
-- Runs of the three programs, and the theorems there.
use linux_application_layer.Common.{ℕ, refl, [], ◌∷◌}
use linux_application_layer.Counter.Lock.{sem_wait, sem_post}
use linux_application_layer.Pair.Resources.{sem_name}
use linux_application_layer.SonFirst.{
  father_line, son_line, Pair, ending, father_at, son_at, by_father, by_son, Reach, start, next,
  named_sem_no_unlink,
}
use linux_application_layer.SonFirst.Ends.{no_unlink, Ends, son_first-Ends}
use linux_application_layer.SonFirst.Reruns.{History, fresh, again}

abbrev last : Pair
last = record {
  sem = 0;
  father = ending [];
  son = ending [];
  output = father_line ∷ son_line ∷ [];
  names = sem_name ∷ [];
  father_held = [];
  son_held = [];
}

complete : Reach named_sem_no_unlink 0 7 last
unfolding father_at son_at sem_wait sem_post
complete =
    next
      (next
        (next
          (next (next (next (next start (by_son refl)) (by_son refl)) (by_father refl))
            (by_father refl))
          (by_son refl))
        (by_father refl))
      (by_father refl)

abbrev one_start : ℕ
one_start = 1

son_first-Ends_example : Ends named_sem_no_unlink 0 7 (sem_name ∷ []) 7 last
son_first-Ends_example = son_first-Ends no_unlink complete

abbrev twice : History 2 0 ((father_line ∷ son_line ∷ []) ∷ (father_line ∷ son_line ∷ []) ∷ [])
twice = again (again fresh complete (refl, refl)) complete (refl, refl)
