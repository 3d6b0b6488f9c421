-- ===== src/FatherSonMq/Tests.antt =====
-- A run of the father and the son, and the theorem there.
use linux_application_layer.Common.{◌≡◌, refl, true, none, some, [], ◌∷◌, ◌++◌, length}
use linux_application_layer.FatherSonMq.{
  System, round, ended, father_at, son_at, son_times_out, send, take, take_fails, Reach, start,
  next,
}
use linux_application_layer.FatherSonMq.Order.{behind, shown, up_to, ten_in_order}

-- The son gives up once, then the father sends two messages and the son takes one.
abbrev early : System
early = record {
  queue = 2 ∷ [];
  linked = true;
  father = round 2;
  son = round 2;
  printed = none ∷ some 1 ∷ [];
  failed_sends = 0;
}

early_reached : Reach 4 early
unfolding father_at son_at son_times_out
early_reached =
    next (next (next (next start (take_fails refl)) (send refl)) (send refl)) (take refl)

ten_in_order_example :
    (early.failed_sends ≡ 0)
    × (father_at early.father early ≡ none → early.father ≡ ended)
    × (length early.printed ≡ behind early.son)
    × (shown early.printed ++ early.queue ≡ up_to (behind early.father))
ten_in_order_example = ten_in_order early_reached
