-- ===== src/Streams/Tests.antt =====
-- The stream programs on small files, and the theorems there.
use linux_application_layer.Common.{ℕ, ◌≡◌, refl, ◌↔◌, true, some, none, [], ◌∷◌}
use linux_application_layer.MessageQueue.{Bytes}
use linux_application_layer.Streams.{
  ends, fputc_main, fgetc_loop, fgetc_main, fgets_line, fgets_left, fgets_loop, fgets_main,
  append_main, fopen_main, stdin_out_err_main,
}
use linux_application_layer.Streams.Reading.{Avoids, fgetc_shows_iff}

abbrev file : Bytes
file = 104 ∷ 105 ∷ 10 ∷ 255 ∷ 104 ∷ []

-- The byte 255 ends the loop.
cut_short : fgetc_main (some file) true ≡ ends 0 (104 ∷ 105 ∷ 10 ∷ []) (some file)
unfolding fgetc_main fgetc_loop
cut_short = refl

fgets_shows_it : fgets_main 6 (some file) true ≡ some (ends 0 file (some file))
unfolding fgets_main fgets_loop fgets_line fgets_left
fgets_shows_it = refl

fgetc_shows_iff_example :
    ((status : ℕ) × (fgetc_main (some file) true ≡ ends status file (some file))) ↔ Avoids 255 file
fgetc_shows_iff_example = fgetc_shows_iff file true

abbrev status : ℕ
status = 0

abbrev after : Bytes
after = 104 ∷ 97 ∷ []

fputc_runs : fputc_main true 4096 (some (104 ∷ [])) ≡ ends status [] (some after)
unfolding append_main
fputc_runs = refl

makes_file : fopen_main true none ≡ ends 0 [] (some [])
unfolding fopen_main
makes_file = refl

one_line :
    stdin_out_err_main [] (104 ∷ 10 ∷ 105 ∷ [])
    ≡ record { to_stdout = 104 ∷ 10 ∷ 104 ∷ 10 ∷ []; to_stderr = 104 ∷ 10 ∷ [] }
unfolding stdin_out_err_main fgets_line
one_line = refl
