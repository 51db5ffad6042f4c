-- ===== src/Pagination.antt =====
-- pkg/pagination/helpers.go: the page size that a listing uses, and the order of a page.
pub mod Limits
use moab.Base.{ℕ, Bool, false, List, Option, none, some, ◌&&◌, if◌then◌else◌, reverse}
use moab.Honey.{Token}
use moab.Base.Word.{slt, sle}

abbrev pub default_pagination_limit : ℕ
default_pagination_limit = 100

abbrev pub max_pagination_limit : ℕ
max_pagination_limit = 250

unfoldable pub get_limit_with_defaults : ℕ → ℕ
get_limit_with_defaults requested =
    if slt 0 requested && slt requested max_pagination_limit
    then requested
    else if sle requested 0
    then default_pagination_limit
    else max_pagination_limit

-- A page walked backward comes in descending order, and is turned round.
abbrev pub is_reverse : Option Token → Bool
is_reverse none = false
is_reverse (some t) = t.reverse

abbrev pub in_order : {V : Type 0} → Option Token → List V → List V
in_order t vs = if is_reverse t then reverse vs else vs
