-- ===== src/Common/Decimal.antt =====
-- Numbers as `printf` writes them and `atoi` or `scanf` reads them.
use Prim.Native.Nat.{ℕ, zero, suc, ◌+◌, ◌-◌, ◌*◌, ◌/◌, ◌%◌, ◌<◌, ◌≤◌}
use mathlib.Core.Path.{◌≡◌, refl}
use mathlib.Core.List.{List, [], ◌∷◌, ◌++◌}
use native.Mathlib.Omega.{arith}
use linux_application_layer.Common.Tests.{ltb, if◌then◌else◌}
use linux_application_layer.Common.Lists.{length, length-append}

-- `%d` of a number that is not negative and has at most `f` digits: the bytes of its digits.
abbrev pub decimal : (f : ℕ) → ℕ → List ℕ
decimal zero n = []
decimal (suc f) n =
    let rest = decimal f (n / 10) in
    if ltb n 10 then (48 + n) ∷ [] else rest ++ ((48 + n % 10) ∷ [])

-- The number that digits stand for, as `atoi` reads them.
abbrev pub read_from : ℕ → List ℕ → ℕ
read_from acc [] = acc
read_from acc (c ∷ cs) = read_from (acc * 10 + (c - 48)) cs

pub read_from-append :
    (acc : ℕ) (xs ys : List ℕ) → read_from acc (xs ++ ys) ≡ read_from (read_from acc xs) ys
read_from-append acc [] ys = refl
read_from-append acc (x ∷ xs) ys = read_from-append (acc * 10 + (x - 48)) xs ys

abbrev pub tens : ℕ → ℕ
tens zero = 1
tens (suc f) = 10 * tens f

pub read_from-decimal : (f n : ℕ) → n < tens f → read_from 0 (decimal f n) ≡ n
read_from-decimal zero n h = omega arith
read_from-decimal (suc f) n h =
    let rest = read_from-decimal f (n / 10) (omega arith) in
    let back = read_from-append 0 (decimal f (n / 10)) ((48 + n % 10) ∷ []) in
    ground (arith, rest, back)

pub length-decimal : (f n : ℕ) → length (decimal f n) ≤ f
length-decimal zero n = omega arith
length-decimal (suc f) n =
    let rest = length-decimal f (n / 10) in
    let sum = length-append (decimal f (n / 10)) ((48 + n % 10) ∷ []) in ground (arith, rest, sum)
