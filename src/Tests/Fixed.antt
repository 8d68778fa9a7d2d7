-- ===== src/Tests/Fixed.antt =====
-- Numbers in billionths, which stand for float64 where a law of its order is needed.
use native.Mathlib.Nat.{mul_assoc, mul_comm}
use high_performance_llm_gat.Prelude.{ℕ, ◌+◌, ◌*◌, ◌/◌, ◌≡◌, sym, ap, ◌∙◌, ◌&&◌, arith}
use high_performance_llm_gat.Prelude.Int.{ℤ, pos, negsuc, pos_part, ltb_ℤ, leb_ℤ, add_exact}
use high_performance_llm_gat.Prelude.Float.{Float}
use high_performance_llm_gat.RateLimit.{seconds}
use high_performance_llm_gat.RateLimit.Bucket.{IsRounded}

abbrev billionths : ℤ → ℤ
billionths (pos n) = pos (1_000_000_000 * n)
billionths (negsuc n) = negsuc (1_000_000_000 * n + 999_999_999)

abbrev pub fixed : Float ℤ
fixed = record {
  zero = pos 0;
  of_nat = λ n. pos (n * 1_000_000_000);
  of_int = billionths;
  add = add_exact;
  mul = λ a b. pos (pos_part a * pos_part b / 1_000_000_000);
  div = λ a b. pos (pos_part a * 1_000_000_000 / pos_part b);
  sqrt = λ a. a;
  lt = ltb_ℤ;
  le = leb_ℤ;
  eq = λ a b. leb_ℤ a b && leb_ℤ b a;
}

seconds-fixed : (d : ℕ) → seconds fixed d ≡ pos d
unfolding seconds add_exact
seconds-fixed d = ground arith

gain_fixed : (d n : ℕ) → d * (1_000_000_000 * n) / 1_000_000_000 ≡ d * n
gain_fixed d n =
    let e : d * (1_000_000_000 * n) ≡ 1_000_000_000 * (d * n) =
      sym (mul_assoc d 1_000_000_000 n)
      ∙ ap (λ k. k * n) (mul_comm d 1_000_000_000)
      ∙ mul_assoc 1_000_000_000 d n in
    rw e (omega arith)

pub fixed-IsRounded : IsRounded fixed
unfolding add_exact
fixed-IsRounded = record {
  int_nonneg = λ n. ground arith;
  add_nonneg = λ a b h k. ground arith;
  add_one = λ a b h k. ground arith;
  less_one = λ a h. ground arith;
  gain_nonneg = λ d n a b. ground arith;
  gain_one = λ d n a b h. rw (seconds-fixed d) (let e = gain_fixed d n in ground (arith, e));
}
