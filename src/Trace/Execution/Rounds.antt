-- ===== src/Trace/Execution/Rounds.antt =====
-- The rounds of a loop take exactly its values, and none overflows.
use yet_another_reuse_distan.Prelude.{
  ℕ, zero, suc, ◌+◌, ◌*◌, ◌^◌, ◌<◌, ◌≡◌, ◌↔◌, refl, List, [], ◌∷◌, some, arith, set, Result, ok,
  ◌>>=◌, >>=_cong,
}
use native.Mathlib.Nat.{add-mul}
use yet_another_reuse_distan.Trace.Loop.{
  ℤ, pos, negsuc, InRange, place, loop_iteration_count, loop_iteration_count_up,
}
use yet_another_reuse_distan.Trace.Signed.{◌+ℤ◌, checked, add_overflow}
use yet_another_reuse_distan.Trace.Execution.{next_value, rounds}

-- The sum of a number and a step, where it stays within 64 bits.
record Stepped (v : ℤ) (k : ℕ) : Type 0 where
  sum : add_overflow v (pos k) ≡ some (v +ℤ pos k)
  range : InRange (v +ℤ pos k)
  place_of : place (v +ℤ pos k) ≡ place v + k

add_overflow-Stepped : (v : ℤ) (k : ℕ) → InRange v → place v + k < 2 ^ 64 → Stepped v k
unfolding add_overflow ◌+ℤ◌ checked InRange place
add_overflow-Stepped (pos n) k r small = record {
  sum = ground (arith, r, small);
  range = ground (arith, r, small);
  place_of = ground (arith, r, small);
}
add_overflow-Stepped (negsuc n) k r small = record {
  sum = ground (arith, r, small);
  range = ground (arith, r, small);
  place_of = ground (arith, r, small);
}

place_small : (v : ℤ) → InRange v → place v < 2 ^ 64
unfolding InRange place
place_small (pos n) r = omega (arith, r)
place_small (negsuc n) r = omega (arith, r)

-- So many values, from one on by a step.
pub progression : ℕ → ℤ → ℕ → List ℤ
progression zero start step = []
progression (suc n) start step = start ∷ progression n (start +ℤ pos step) step

-- The body runs with each of the values in the slot.
pub run_values :
    {S : Type 0}
    → (List ℤ × S → Result (List ℤ × S))
    → ℕ
    → List ℤ
    → List ℤ × S
    → Result (List ℤ × S)
run_values body slot [] s = ok s
run_values body slot (value ∷ rest) (values, s) =
    body (set values slot value, s) >>= run_values body slot rest

next_value_sum : (m k : ℕ) (v : ℤ) → Stepped v k → next_value (suc m) (pos k) v ≡ ok (v +ℤ pos k)
unfolding next_value
next_value_sum m k v t = ground (arith, t.sum)

rounds-progression :
    {S : Type 0} (n : ℕ) (body : List ℤ × S → Result (List ℤ × S)) (k slot : ℕ) (start : ℤ)
    (s : List ℤ × S)
    → InRange start
    → ((i : ℕ) → i < n → place start + i * k < 2 ^ 64)
    → rounds n body (pos k) slot start s ≡ run_values body slot (progression n start k) s
unfolding rounds run_values progression
rounds-progression zero body k slot start s r small = refl
rounds-progression (suc zero) body k slot start (values, s) r small =
    >>=_cong (body (set values slot start, s)) _ _ (λ t. unfold next_value in refl)
rounds-progression (suc (suc n)) body k slot start (values, s) r small =
    let v = add_overflow-Stepped start k r (omega (arith, small 1 (omega arith))) in
    >>=_cong (body (set values slot start, s)) _ _ (λ t. rw (next_value_sum n k start v) (
      rounds-progression (suc n) body k slot (start +ℤ pos k) t v.range
        (λ i lt. omega (arith, small (i + 1) (omega (arith, lt)), v.place_of, add-mul i 1 k))))

-- Between 64-bit numbers, a loop that counts up by a positive step runs its body once for each of
-- its values, in order, with the value in its slot: as many as the iteration count says, the start
-- and then one step more each time, all below the bound. Neither the count nor the next value
-- overflows.
pub rounds_up :
    {S : Type 0} (start bound : ℤ) (k slot : ℕ) (body : List ℤ × S → Result (List ℤ × S))
    (s : List ℤ × S)
    → InRange start
    → InRange bound
    → (n : ℕ) × (loop_iteration_count start bound (pos (suc k)) ≡ ok n)
      × ((i : ℕ) → (i < n) ↔ (place start + i * suc k < place bound))
      × (rounds n body (pos (suc k)) slot start s
          ≡ run_values body slot (progression n start (suc k)) s)
rounds_up start bound k slot body s r r' =
    let (n, counted, those) = loop_iteration_count_up start bound k r r' in
    (
      n,
      counted,
      those,
      rounds-progression n body (suc k) slot start s r
          (λ i lt. omega (arith, (those i).0 lt, place_small bound r')),
    )
