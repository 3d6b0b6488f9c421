-- ===== src/Streams/Appending.antt =====
-- The appending programs keep what the file held, and say whether all was written.
use linux_application_layer.Common.{
  length-append, ℕ, zero, suc, ◌≤◌, ◌≡◌, refl, ap, ◌∙◌, ◌↔◌, true, Option, none, some, [], ◌∷◌,
  ◌++◌, arith, length, take,
}
use linux_application_layer.MessageQueue.{Bytes}
use linux_application_layer.Streams.{ends, append_main}

-- A file that is not there is made, and is empty.
abbrev pub contents : Option Bytes → Bytes
contents none = []
contents (some old) = old

take_whole : (n : ℕ) (xs : Bytes) → length xs ≤ n → take n xs ≡ xs
take_whole zero [] h = refl
take_whole zero (x ∷ xs) h = absurd (omega arith)
take_whole (suc n) [] h = refl
take_whole (suc n) (x ∷ xs) h = ap (λ v. x ∷ v) (take_whole n xs (omega arith))

take_part : (n : ℕ) (xs : Bytes) → length (take n xs) ≤ n
take_part zero xs = omega arith
take_part (suc n) [] = omega arith
take_part (suc n) (x ∷ xs) = omega (arith, take_part n xs)

-- A run of fputc_test, fputs_test or fprintf_test that has opened the file leaves its old contents
-- with as much of the text behind them as the device takes, and ends with status 0 exactly if that is
-- the whole text.
pub appends :
    (text : Bytes) (room status : ℕ) (file : Option Bytes) (shown after : Bytes)
    → append_main text true room file ≡ ends status shown (some after)
    → (after ≡ contents file ++ take room text) × ((status ≡ 0) ↔ (after ≡ contents file ++ text))
unfolding append_main
appends text room status file shown after e = (left file e, (to file e, from file e))
  where
    left :
        (file : Option Bytes)
        → append_main text true room file ≡ ends status shown (some after)
        → after ≡ contents file ++ take room text
    left none e = ground arith
    left (some old) e = ground arith

    whole :
        (file : Option Bytes)
        → append_main text true room file ≡ ends status shown (some after)
        → status ≡ 0
        → length text ≤ room
    whole none e z = ground arith
    whole (some old) e z = ground arith

    to :
        (file : Option Bytes)
        → append_main text true room file ≡ ends status shown (some after)
        → status ≡ 0
        → after ≡ contents file ++ text
    to file e z = left file e ∙ ap (λ v. contents file ++ v) (take_whole room text (whole file e z))

    fits :
        (file : Option Bytes)
        → contents file ++ take room text ≡ contents file ++ text
        → length text ≤ room
    fits file same = omega (
      arith,
      ap length same,
      length-append (contents file) (take room text),
      length-append (contents file) text,
      take_part room text,
    )

    from :
        (file : Option Bytes)
        → append_main text true room file ≡ ends status shown (some after)
        → after ≡ contents file ++ text
        → status ≡ 0
    from none e same = ground (arith, fits none)
    from (some old) e same = ground (arith, fits (some old))
