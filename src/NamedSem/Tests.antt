-- ===== src/NamedSem/Tests.antt =====
-- named_sem_no_unlink run once, after which named_sem_bin blocks.
use linux_application_layer.Common.{◌≡◌, refl, ◌↔◌, some, [], ◌∷◌}
use linux_application_layer.Counter.Lock.{sem_wait, sem_post}
use linux_application_layer.SonFirst.{
  father_line, son_line, ending, Pair, father_at, son_at, by_father, by_son, Reach, start, next,
  named_sem_no_unlink,
}
use linux_application_layer.Pair.Resources.{sem_name}
use linux_application_layer.NamedSem.{no_unlink, Session, fresh, ran_no_unlink}
use linux_application_layer.NamedSem.Sessions.{value_after, Blocks, EndsUnremoved, latest_decides}

abbrev last : Pair
last = record {
  sem = 0;
  father = ending [];
  son = ending [];
  output = father_line ∷ son_line ∷ [];
  names = sem_name ∷ [];
  father_held = [];
  son_held = [];
}

once : Reach named_sem_no_unlink 0 7 last
unfolding father_at son_at sem_wait sem_post
once =
    let posted = next (next start (by_son refl)) (by_son refl) in
    let closed = next (next (next posted (by_father refl)) (by_father refl)) (by_son refl) in
    next (next closed (by_father refl)) (by_father refl)

session : Session (some 0) (no_unlink ∷ [])
session = ran_no_unlink fresh once (refl, refl)

latest_decides_example :
    (some 0 ≡ value_after (no_unlink ∷ [])) × (Blocks (some 0) ↔ EndsUnremoved (no_unlink ∷ []))
latest_decides_example = latest_decides session
