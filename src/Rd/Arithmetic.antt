-- ===== src/Rd/Arithmetic.antt =====
-- backend/src/cache/rd/exact_csrd_arithmetic.hpp: additions and sizes within checked bounds.
use yet_another_reuse_distan.Prelude.{
  ℕ, ◌+◌, ◌-◌, ◌^◌, ◌≤◌, ◌≡◌, ◌||◌, arith, ltb, if◌then◌else◌, Result, ok, throw, overflow_error,
}

-- `std::numeric_limits<std::uint64_t>::max()`
abbrev pub u64_max : ℕ
u64_max = 2 ^ 64 - 1

unfoldable pub csrd_checked_add_within : ℕ → ℕ → ℕ → Result ℕ
csrd_checked_add_within left right limit =
    if ltb limit left || ltb (limit - left) right then throw overflow_error else ok (left + right)

-- The default limit of `csrd_checked_add`.
unfoldable pub csrd_checked_add : ℕ → ℕ → Result ℕ
unfolding csrd_checked_add_within
csrd_checked_add left right = csrd_checked_add_within left right u64_max

-- With a 64-bit `size_t` the conversion keeps every count.
unfoldable pub csrd_storage_size : ℕ → ℕ → Result ℕ
csrd_storage_size count max_size = if ltb max_size count then throw overflow_error else ok count

pub csrd_checked_add_fits : (a b : ℕ) → a + b ≤ u64_max → csrd_checked_add a b ≡ ok (a + b)
unfolding csrd_checked_add
csrd_checked_add_fits a b h = ground arith

pub csrd_checked_add_within_fits :
    (a b limit : ℕ) → a + b ≤ limit → csrd_checked_add_within a b limit ≡ ok (a + b)
unfolding csrd_checked_add_within
csrd_checked_add_within_fits a b limit h = ground arith

pub csrd_storage_size_fits : (n m : ℕ) → n ≤ m → csrd_storage_size n m ≡ ok n
unfolding csrd_storage_size
csrd_storage_size_fits n m h = ground arith

-- A checked sum is exact, and it is refused exactly when the exact sum exceeds the limit.
pub csrd_checked_add_within_exact :
    (left right limit : ℕ)
    → csrd_checked_add_within left right limit
      ≡ (if ltb limit (left + right) then throw overflow_error else ok (left + right))
unfolding csrd_checked_add_within
csrd_checked_add_within_exact left right limit = ground arith
