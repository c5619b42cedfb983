-- ===== src/Controller/Query.antt =====
-- The query parameters of a list request, of pkg/common/base_controller.go.
pub mod Bounds
use msa_core.Prelude.{String, Option, none, some, ◌==◌, ◌||◌, if◌then◌else◌}
use msa_core.Prelude.Int.{ℤ, pos, ltb_ℤ}
use msa_core.Prelude.Text.{atoi}
use msa_core.Controller.Reply.{Request}

-- `if p, err := strconv.Atoi(s); err == nil && p > 0 { page = p }`
abbrev pub positive_or : ℤ → Option ℤ → ℤ
positive_or d none = d
positive_or d (some p) = if ltb_ℤ (pos 0) p then p else d

unfoldable pub get_page_from_query : Request → ℤ
get_page_from_query c =
    if c.query "page" == "" then pos 1 else positive_or (pos 1) (atoi (c.query "page"))

-- the inline reading of `size` in ResponsePage and ResponseListWithPagination, with no upper limit
unfoldable pub get_size_unlimited : Request → ℤ
get_size_unlimited c =
    if c.query "size" == "" then pos 10 else positive_or (pos 10) (atoi (c.query "size"))

abbrev pub limited : ℤ → Option ℤ → ℤ
limited d none = d
limited d (some s) = if ltb_ℤ (pos 0) s then (if ltb_ℤ (pos 100) s then pos 100 else s) else d

unfoldable pub get_page_size_from_query_with_default : Request → ℤ → ℤ
get_page_size_from_query_with_default c default_size =
    if c.query "size" == "" then default_size else limited default_size (atoi (c.query "size"))

unfoldable pub get_page_size_from_query : Request → ℤ
get_page_size_from_query c =
    if c.query "size" == "" then pos 10 else limited (pos 10) (atoi (c.query "size"))

abbrev pub from_desc : String → String → String
from_desc order desc =
    if order == ""
    then (if desc == "true" then "desc" else if desc == "false" then "asc" else order)
    else order

abbrev pub checked_order : String → String
checked_order order = if order == "asc" || order == "desc" then order else "desc"

unfoldable pub get_sorting_from_query : Request → String × String
get_sorting_from_query c = (
  if c.query "sort_by" == "" then "created_at" else c.query "sort_by",
  checked_order (from_desc (c.query "sort_order") (c.query "desc")),
)
