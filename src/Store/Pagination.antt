-- ===== src/Store/Pagination.antt =====
-- `Pagination` of relayer/store/messageStore.go. A method sets fields and returns the receiver.
use native.Mathlib.Nat.{div-add-mod', mod-lt, le_of_mul-le-mul_right, lt_of_mul-lt-mul_right}
use centralized_relay.Common.{
  ℕ, zero, suc, ◌+◌, ◌^◌, ◌-◌, ◌*◌, ◌/◌, ◌%◌, ◌≤◌, ◌<◌, ◌≡◌, Bool, true, false, Option, none, some,
  leb, ◌==◌, if◌then◌else◌, arith, Bool-cases, inl, inr,
}

pub record Pagination : Type 0 where
  pub limit : ℕ
  pub offset : ℕ
  pub is_all : Bool

unfoldable pub new_pagination : Pagination
new_pagination = record { limit = 0; offset = 0; is_all = false }

unfoldable pub get_all : Pagination → Pagination
get_all p = record p { is_all = true }

unfoldable pub with_limit : ℕ → Pagination → Pagination
with_limit l p = record p { limit = l }

unfoldable pub with_offset : ℕ → Pagination → Pagination
with_offset o p = record p { offset = o }

unfoldable pub calculate_offset : ℕ → Pagination → ℕ
calculate_offset page p = if leb page 1 then 0 else (page * p.limit) % 2 ^ 64

unfoldable pub with_page : ℕ → ℕ → Pagination → Pagination
unfolding calculate_offset
with_page page limit p =
    let q = record p { limit = limit } in record q { offset = calculate_offset page q }

-- A limit of 0 makes the division panic; `none` is that panic.
unfoldable pub calculate_total_pages : ℕ → Pagination → Option ℕ
calculate_total_pages total p =
    if p.limit == 0
    then none
    else some (if total % p.limit == 0 then total / p.limit else total / p.limit + 1)

mul_pred : (a l : ℕ) → 1 ≤ a → a * l ≡ (a - 1) * l + l
mul_pred zero l h = absurd (omega arith)
mul_pred (suc n) l h = let e : suc n - 1 ≡ n = omega arith in rw e (omega arith)

-- A page number past the first has the offset of the page after it: `page * limit` entries are
-- skipped, where the pages before it hold `(page - 1) * limit`.
pub calculate_offset_skips :
    (page : ℕ) (p : Pagination)
    → 2 ≤ page
    → page * p.limit < 2 ^ 64
    → calculate_offset page p ≡ (page - 1) * p.limit + p.limit
unfolding calculate_offset
calculate_offset_skips page p h k = ground (arith, mul_pred page p.limit (omega arith))

pages_bound :
    (total limit pages : ℕ)
    → 0 < limit
    → pages ≡ (if total % limit == 0 then total / limit else total / limit + 1)
    → (total ≤ pages * limit) × ((k : ℕ) → total ≤ k * limit → pages ≤ k)
pages_bound total limit pages pos e = (
  grind (arith, div-add-mod' total limit, mod-lt total pos),
  λ k h. elim (Bool-cases (total % limit == 0)) [
    | inl z ↦
        let full : total / limit ≤ k =
          le_of_mul-le-mul_right {k = limit} (ground (arith, div-add-mod' total limit)) pos in
        ground arith
    | inr z ↦
        let part : total / limit < k =
          lt_of_mul-lt-mul_right limit (ground (arith, div-add-mod' total limit)) in
        ground arith
  ],
)

-- Whenever the limit is not 0 the total of pages is the least number of pages of `limit` entries
-- that holds `total` entries.
pub calculate_total_pages_least :
    (total pages : ℕ) (p : Pagination)
    → calculate_total_pages total p ≡ some pages
    → (total ≤ pages * p.limit) × ((k : ℕ) → total ≤ k * p.limit → pages ≤ k)
unfolding calculate_total_pages
calculate_total_pages_least total pages p h =
    pages_bound total p.limit pages (ground arith) (ground arith)
