-- ===== src/CreateTest/Tests.antt =====
-- A short run of create_test.c, and its theorems there.
use linux_application_layer.Common.{
  ◌%◌, ℕ, ◌≤◌, ◌≡◌, refl, List, [], ◌∷◌, arith, length, replicate, length-replicate, get_or, drop,
}
use linux_application_layer.CreateTest.{
  buf_len, Ring, started, main, zero_loop, input_thread, output_thread, begin, next, input, output,
}
use linux_application_layer.CreateTest.Bounds.{InBounds, Reach-InBounds}
use linux_application_layer.CreateTest.Fifo
use linux_application_layer.CreateTest.Fifo.{put_in, InRing, CalmReach, shows_typed}
use linux_application_layer.CreateTest.Queued.{spread}
use linux_application_layer.CreateTest.EndOfInput.{rounds, end_floods}

-- "hi", a line end, "!"
abbrev line : List ℕ
line = b'h' ∷ b'i' ∷ 10 ∷ b'!' ∷ []

-- What `malloc` may have left.
garbage : List ℕ
garbage = replicate buf_len 7

length-garbage : length garbage ≡ buf_len
unfolding garbage
length-garbage = length-replicate {A = ℕ} buf_len 7

abbrev first : Ring
first = started (zero_loop buf_len 0 garbage)

abbrev second : Ring
second = input_thread line first

abbrev third : Ring
third = output_thread (output_thread second)

calm_run : CalmReach line garbage third
unfolding main input_thread zero_loop garbage
calm_run =
    Fifo.next (Fifo.next (Fifo.next (Fifo.begin refl) (Fifo.type (λ k. refl))) Fifo.show) Fifo.show

third_shows : third.stdout ≡ 10 ∷ b'h' ∷ []
unfolding input_thread output_thread zero_loop garbage
third_shows = refl

Reach-InBounds_example : InBounds third
unfolding main
Reach-InBounds_example =
    Reach-InBounds line garbage length-garbage (next (next (next (begin refl) input) output) output)

shows_typed_example :
    (waiting : ℕ) × ((waiting ≤ buf_len)
      × (third.stdout ≡ spread (drop waiting (put_in line third.reads)))
      × (third.in_i ≡ length (put_in line third.reads) % buf_len)
      × InRing line waiting (put_in line third.reads) third)
shows_typed_example = shows_typed line garbage length-garbage calm_run

-- After "hi!" the end of the input follows.
put_in_lem : put_in line 6 ≡ 255 ∷ 255 ∷ b'!' ∷ b'i' ∷ b'h' ∷ []
put_in_lem = refl

empty-InBounds : InBounds (started (zero_loop buf_len 0 garbage))
unfolding main
empty-InBounds = Reach-InBounds [] garbage length-garbage (begin refl)

end_floods_example : get_or (rounds [] buf_len first).buf 1023 0 ≡ 255
end_floods_example = end_floods [] 1023 empty-InBounds (omega arith) (omega arith)
