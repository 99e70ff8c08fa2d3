-- ===== src/Util/Stack/Takes.antt =====
-- What it is for a call of src/util/stack.c to take a step of the specification.
use ce.Base.{ℕ, Bool, Option, List}
use ce.Util.Stack.{Stack}
use ce.Util.Stack.Table.{ArrayOk, items}
use ce.Util.Stack.Spec.{Call, Step}

-- The result `r` of the call `k` on the list `q` is valid and a step, with memory refused if `m`.
abbrev pub Takes {ℓ} : {A : Type ℓ} → Bool → List A → Call A → Bool × Option A × Stack A → Type ℓ
Takes m q k r = ArrayOk r.2 × Step m q k (r.0, r.1) (items r.2)

abbrev pub stack_of {ℓ} : {A : Type ℓ} → ℕ → ℕ → ℕ → Bool → (ℕ → A) → Stack A
stack_of n size m b t = record {
  number_of_items_in_table = n;
  array_size = size;
  min_array_size = m;
  allow_shrink = b;
  table = t;
}
