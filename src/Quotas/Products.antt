-- ===== src/Quotas/Products.antt =====
-- The products of MultiplyBy in pkg/common/utils/resources.go are exact while they are int64 numbers.
use appcat.Common.{ℕ, suc, ◌*◌, ◌%◌, ◌^◌, ◌<◌, ◌≡◌, refl, arith}
use appcat.Common.Int.{pos, negsuc}
use appcat.Webhooks.Disk.{Resources}
use appcat.Quotas.{Amounts, times, multiply, multiply_by}

-- Set and SetMilli store a number, which Value and MilliValue give back.
pub record Stores {Q : Type 0} (a : Amounts Q) : Type 0 where
  pub value-set : (q : Q) (n : ℕ) → n < 2 ^ 63 → a.value (a.set q n) ≡ n
  pub milli_value-set_milli : (q : Q) (n : ℕ) → n < 2 ^ 63 → a.milli_value (a.set_milli q n) ≡ n

small_mod : (n : ℕ) → n < 2 ^ 63 → n % 2 ^ 64 ≡ n
small_mod n small = omega arith

times_exact : (a b : ℕ) → a * b < 2 ^ 63 → times a b ≡ a * b
unfolding times
times_exact a b small = small_mod (a * b) small

module _ {Q : Type 0} (a : Amounts Q) where
  -- Each product with the number of instances is a positive int64.
  pub record InRange (i : ℕ) (r : Resources Q) : Type 0 where
    pub cpu_requests : a.milli_value r.cpu_requests * i < 2 ^ 63
    pub cpu_limits : a.milli_value r.cpu_limits * i < 2 ^ 63
    pub memory_requests : a.value r.memory_requests * i < 2 ^ 63
    pub memory_limits : a.value r.memory_limits * i < 2 ^ 63
    pub disk : a.value r.disk * i < 2 ^ 63

  -- The second resources are `i` times the first ones.
  abbrev pub IsMultiple : ℕ → Resources Q → Resources Q → Type 0
  IsMultiple i r s =
      (a.milli_value s.cpu_requests ≡ a.milli_value r.cpu_requests * i)
      × (a.milli_value s.cpu_limits ≡ a.milli_value r.cpu_limits * i)
      × (a.value s.memory_requests ≡ a.value r.memory_requests * i)
      × (a.value s.memory_limits ≡ a.value r.memory_limits * i)
      × (a.value s.disk ≡ a.value r.disk * i)

  value-set_times :
      (stores : Stores a) (q : Q) (i : ℕ)
      → a.value q * i < 2 ^ 63
      → a.value (a.set q (times (a.value q) i)) ≡ a.value q * i
  value-set_times stores q i small =
      rw (times_exact (a.value q) i small) (stores.value-set q _ small)

  milli_value-set_times :
      (stores : Stores a) (q : Q) (i : ℕ)
      → a.milli_value q * i < 2 ^ 63
      → a.milli_value (a.set_milli q (times (a.milli_value q) i)) ≡ a.milli_value q * i
  milli_value-set_times stores q i small =
      rw (times_exact (a.milli_value q) i small) (stores.milli_value-set_milli q _ small)

  -- MultiplyBy with a positive number of instances multiplies all five amounts, if the products are int64
  -- numbers. With zero or a negative number the resources stay as they are.
  pub multiply_by_lem :
      (stores : Stores a) (r : Resources Q) (n : ℕ)
      → InRange (suc n) r
      → IsMultiple (suc n) r (multiply_by a (pos (suc n)) r)
        × (multiply_by a (pos 0) r ≡ r)
        × (multiply_by a (negsuc n) r ≡ r)
  unfolding multiply_by multiply
  multiply_by_lem stores r n range = (
    (
      milli_value-set_times stores r.cpu_requests (suc n) range.cpu_requests,
      milli_value-set_times stores r.cpu_limits (suc n) range.cpu_limits,
      value-set_times stores r.memory_requests (suc n) range.memory_requests,
      value-set_times stores r.memory_limits (suc n) range.memory_limits,
      value-set_times stores r.disk (suc n) range.disk,
    ),
    refl,
    refl,
  )
