-- ===== src/Core/Pagination.antt =====
-- packages/core/src/pagination: the page of a list that a command prints. A number of a request
-- that is no whole number, or a negative one, is known by its text.
pub mod Pages
use symnav.Prelude.{
  ◌≡◌, ℕ, zero, suc, ◌+◌, ◌-◌, ◌*◌, ◌/◌, ◌≤◌, max, Bool, true, false, not, ◌&&◌, ◌||◌, Option, none,
  some, List, [], ◌∷◌, Text, ltb, take, drop, length, get_or, is_some, Result, ok, err, ◌>>=◌, ◌>>◌,
  throw_if, if◌then◌else◌,
}

abbrev pub default_page_size : ℕ
default_page_size = 100

pub data Number : Type 0 where
  whole : ℕ → Number
  other : Text → Number

pub record PageRequest : Type 0 where
  pub page : Option Number
  pub page_size : Option Number
  pub all : Bool

pub data PageError : Type 0 where
  all_with_page : PageError
  page_not_positive page_size_not_positive : Number → PageError
  page_out_of_range : ℕ → ℕ → PageError

pub record Page {ℓ} (A : Type ℓ) : Type ℓ where
  pub items : List A
  pub page : ℕ
  pub page_count : ℕ

unfoldable pub is_positive_integer : Number → Bool
is_positive_integer (whole n) = ltb 0 n
is_positive_integer (other s) = false

-- `value !== undefined && !isPositiveInteger(value)`
unfoldable pub refuse_number : Option Number → (Number → PageError) → Result PageError (Unit {0})
unfolding is_positive_integer
refuse_number none error = ok tt
refuse_number (some n) error = throw_if (not (is_positive_integer n)) (error n)

unfoldable pub validate_page_request : PageRequest → Result PageError (Unit {0})
unfolding refuse_number
validate_page_request request =
    throw_if (request.all && is_some request.page) all_with_page
    >> refuse_number request.page page_not_positive
    >> refuse_number request.page_size page_size_not_positive

-- The value of a number that was validated.
abbrev pub value_of : Number → ℕ
value_of (whole n) = n
value_of (other s) = 0

unfoldable pub number_or : Option Number → ℕ → ℕ
number_or none d = d
number_or (some n) d = value_of n

-- `Math.max(1, Math.ceil(length / pageSize))`
unfoldable pub page_count_of : ℕ → ℕ → ℕ
page_count_of n page_size = max 1 ((n + (page_size - 1)) / page_size)

module _ {ℓ} {A : Type ℓ} where
  -- `items.slice(start, start + pageSize)`
  unfoldable pub page_items : ℕ → ℕ → List A → List A
  page_items page page_size items = take page_size (drop ((page - 1) * page_size) items)

  unfoldable pub page_of : ℕ → ℕ → List A → Result PageError (Page A)
  unfolding page_count_of page_items
  page_of page page_size items =
      let count = page_count_of (length items) page_size in
      if ltb count page
      then err (page_out_of_range page count)
      else ok (record { items = page_items page page_size items; page = page; page_count = count })

  -- The constructor's check, and then `paginate`.
  unfoldable pub paginate : PageRequest → List A → Result PageError (Page A)
  unfolding validate_page_request number_or page_of
  paginate request items =
      validate_page_request request
      >> (if request.all
          then ok (record { items = items; page = 1; page_count = 1 })
          else page_of (number_or request.page 1) (number_or request.page_size default_page_size)
              items)
