-- ===== src/Dispatch/Run/Sums.antt =====
-- Sums over the workers of internal/dispatch/dispatch.go.
use rc_wnzzer.Base.{ℕ, zero, suc, ◌+◌, ◌≡◌, List, [], ◌∷◌, set, length, get_elem?, some, arith}
use rc_wnzzer.Dispatch.Run.{Flight, without}

unfoldable pub sum : (Flight → ℕ) → List Flight → ℕ
sum g [] = 0
sum g (f ∷ fs) = g f + sum g fs

pub sum-set :
    (g : Flight → ℕ) (fs : List Flight) (i : ℕ) (f f' : Flight)
    → get_elem? fs i ≡ some f
    → sum g (set fs i f') + g f ≡ sum g fs + g f'
unfolding sum
sum-set g [] i f f' e = ground arith
sum-set g (h ∷ fs) zero f f' e = ground arith
sum-set g (h ∷ fs) (suc i) f f' e = omega (arith, sum-set g fs i f f' e)

pub sum-without :
    (g : Flight → ℕ) (fs : List Flight) (i : ℕ) (f : Flight)
    → get_elem? fs i ≡ some f
    → sum g (without i fs) + g f ≡ sum g fs
unfolding sum
sum-without g [] i f e = ground arith
sum-without g (h ∷ fs) zero f e = ground arith
sum-without g (h ∷ fs) (suc i) f e = omega (arith, sum-without g fs i f e)

pub length-without :
    (fs : List Flight) (i : ℕ) (f : Flight)
    → get_elem? fs i ≡ some f
    → length (without i fs) + 1 ≡ length fs
length-without [] i f e = ground arith
length-without (h ∷ fs) zero f e = omega arith
length-without (h ∷ fs) (suc i) f e = omega (arith, length-without fs i f e)
