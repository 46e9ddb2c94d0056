-- ===== src/Key/Recommander/Answers.antt =====
-- What `GetString` and `Print` answer with, and what they leave in the queue.
use serach_engine.Base.{ℕ, suc, ◌+◌, ◌-◌, ◌/◌, min, ◌≡◌, refl, List, [], ◌∷◌, nat_eq, arith}
use serach_engine.Key.Recommander.{
  CandidateResult, KeyRecommander, take_top, get_string, print_top, print,
}

-- Half of a number, rounded up.
abbrev pub half_up : ℕ → ℕ
half_up n = (n + 1) / 2

-- How many candidates `GetString` answers with, of `n` in the queue.
abbrev pub answered : ℕ → ℕ
answered n = min 5 (half_up n)

-- How many stay in the queue.
abbrev pub left_over : ℕ → ℕ
left_over n = (n - answered n) / 2

abbrev nothing : List CandidateResult
nothing = []

-- The rounds of the first loop that are left at round `i`.
abbrev rounds : ℕ → ℕ → ℕ
rounds i n = min (5 - i) ((n + 1 - i) / 2)

print_top-take_top : (i : ℕ) (q : List CandidateResult) → print_top (suc i) i q ≡ take_top i q
unfolding print_top take_top
print_top-take_top i [] = refl
print_top-take_top i (c ∷ q) = ground (arith, print_top-take_top (suc i) q)

-- Print writes what GetString answers, and leaves the same queue.
pub print-get_string :
    (k : KeyRecommander)
    → ((print k).0 ≡ (get_string k).0) × ((print k).1.prique ≡ (get_string k).1.prique)
unfolding print get_string
print-get_string k = rw (print_top-take_top 0 k.prique) (refl, refl)
