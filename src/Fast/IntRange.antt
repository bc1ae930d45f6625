-- ===== src/Fast/IntRange.antt =====
-- validateFastInt64Range of fastpath.go, compared with the bounds of the descriptor.
use schemix.Prelude.{ℤ, ◌≤ℤ◌, ◌<ℤ◌, ◌≡◌, ◌↔◌, true, false, ◌⊎◌, arith}
use schemix.Errors.{range_violation}
use schemix.Fast.{Descriptor}
use schemix.Fast.Number.{validate_fast_int64_range}

-- The bounds that the descriptor holds, inclusive or exclusive.
abbrev pub InIntRange : Descriptor → ℤ → Type 0
InIntRange fc n =
    (fc.has_min ≡ true → fc.min_excl ≡ true → fc.min_int64 <ℤ n)
    × (fc.has_min ≡ true → fc.min_excl ≡ false → fc.min_int64 ≤ℤ n)
    × (fc.has_max ≡ true → fc.max_excl ≡ true → n <ℤ fc.max_int64)
    × (fc.has_max ≡ true → fc.max_excl ≡ false → n ≤ℤ fc.max_int64)

valid→InIntRange :
    (fc : Descriptor) (n : ℤ) → (validate_fast_int64_range fc n).valid ≡ true → InIntRange fc n
unfolding validate_fast_int64_range
valid→InIntRange fc n h = (ground arith, ground arith, ground arith, ground arith)

InIntRange→valid :
    (fc : Descriptor) (n : ℤ)
    → fc.use_int64 ≡ true
    → InIntRange fc n
    → (validate_fast_int64_range fc n).valid ≡ true
unfolding validate_fast_int64_range
InIntRange→valid fc n u h = ground arith

decided :
    (fc : Descriptor) (n : ℤ)
    → fc.use_int64 ≡ true
    → (validate_fast_int64_range fc n).handled ≡ true
unfolding validate_fast_int64_range
decided fc n u = ground arith

violation :
    (fc : Descriptor) (n : ℤ)
    → fc.use_int64 ≡ true
    → ((validate_fast_int64_range fc n).valid ≡ true)
      ⊎ ((validate_fast_int64_range fc n).code ≡ range_violation)
unfolding validate_fast_int64_range
violation fc n u = ground arith

-- With exact arithmetic on, every integer is decided; it passes exactly when it lies within every
-- bound that the descriptor holds, and one that does not pass is a range violation.
pub int64_range_exact :
    (fc : Descriptor) (n : ℤ)
    → fc.use_int64 ≡ true
    → (((validate_fast_int64_range fc n).valid ≡ true) ↔ InIntRange fc n)
      × ((validate_fast_int64_range fc n).handled ≡ true)
      × (((validate_fast_int64_range fc n).valid ≡ true)
          ⊎ ((validate_fast_int64_range fc n).code ≡ range_violation))
int64_range_exact fc n u =
    ((valid→InIntRange fc n, InIntRange→valid fc n u), decided fc n u, violation fc n u)
