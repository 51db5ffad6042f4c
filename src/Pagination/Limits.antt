-- ===== src/Pagination/Limits.antt =====
-- The page sizes that pkg/pagination/helpers.go lets through.
use moab.Base.{ℕ, ◌≤◌, ◌<◌, arith}
use moab.Base.Word.{mod64, slt, sle, bias64}
use moab.Pagination.{get_limit_with_defaults}

-- For every requested limit, a 64-bit word, negative ones included, the page size is positive
-- and at most 250.
get_limit_with_defaults_lem :
    (requested : ℕ)
    → requested < mod64
    → (0 < get_limit_with_defaults requested) × (get_limit_with_defaults requested ≤ 250)
unfolding get_limit_with_defaults slt sle bias64
get_limit_with_defaults_lem requested word = ground arith
