-- ===== src/Detached/Tests.antt =====
-- The thread is cut off after its first line.
use linux_application_layer.Common.{◌≡◌, refl, some, List, [], ◌∷◌, false}
use linux_application_layer.Detached.{
  started, continues, ending, create_failed, exited, main_at, begun, Line,
}

abbrev cut_off : List Line
cut_off = continues ∷ started ∷ ending ∷ []

not_created :
    main_at false begun.main begun
    ≡ some (record begun { main = exited 1; log = create_failed ∷ [] })
unfolding main_at
not_created = refl
