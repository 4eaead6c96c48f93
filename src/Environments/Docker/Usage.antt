-- ===== src/Environments/Docker/Usage.antt =====
-- The numbers of a container's statistics in docker.go. A floating-point quotient is the pair of its two
-- whole numbers.
use pufferd.Common.{
  ℕ, ◌+◌, ◌-◌, ◌/◌, ◌%◌, ◌*◌, ◌≤◌, ◌<◌, if◌then◌else◌, ltb, ◌≡◌, arith, ap, sym, subst, ◌∙◌, lt→ltb,
  Bool-cases, ltb→lt, ◌⊎◌, inl, inr,
}

-- What the engine says of a container, in 64 bits: the nanoseconds between two readings as the conversion
-- to `uint64` gives them, the processor time at both, and the memory in bytes.
pub record StatsJson : Type 0 where
  pub nanoseconds : ℕ
  pub total_usage : ℕ
  pub pre_total_usage : ℕ
  pub usage : ℕ

-- A subtraction of `uint64`.
abbrev pub sub64 : ℕ → ℕ → ℕ
sub64 a b = (a + 18446744073709551616 - b) % 18446744073709551616

unfoldable pub calculate_cpu_percent : StatsJson → ℕ × ℕ
calculate_cpu_percent v =
    let poss_intervals = v.nanoseconds / 100 in
    let intervals_used = sub64 v.total_usage v.pre_total_usage in
    if ltb 0 poss_intervals then (intervals_used, poss_intervals) else (0, 1)

unfoldable pub calculate_memory_percent : StatsJson → ℕ × ℕ
calculate_memory_percent v = (v.usage, 1024 * 1024)

sub64-grown : (a b : ℕ) → a < 18446744073709551616 → b ≤ a → sub64 a b ≡ a - b
sub64-grown a b h k = omega arith

sub64-shrunk :
    (a b : ℕ) → b < 18446744073709551616 → a < b → sub64 a b + (b - a) ≡ 18446744073709551616
sub64-shrunk a b h k = omega arith

calculate_cpu_percent-pair :
    (v : StatsJson)
    → 100 ≤ v.nanoseconds
    → calculate_cpu_percent v ≡ (sub64 v.total_usage v.pre_total_usage, v.nanoseconds / 100)
unfolding calculate_cpu_percent
calculate_cpu_percent-pair v h =
    ap (λ b. if b then (sub64 v.total_usage v.pre_total_usage, v.nanoseconds / 100) else (0, 1))
      (lt→ltb 0 (v.nanoseconds / 100) (omega arith))

calculate_cpu_percent-short :
    (v : StatsJson) → v.nanoseconds < 100 → calculate_cpu_percent v ≡ (0, 1)
unfolding calculate_cpu_percent
calculate_cpu_percent-short v h = ground arith

-- The share of the processor never divides by zero, whatever the engine says. Where less than 100
-- nanoseconds have passed between the readings it is 0. Else the divisor is the number of intervals of 100
-- nanoseconds, and the share is exact where the counter has not shrunk; where the container has started
-- again between the readings, so that its counter is lower, the difference wraps around: it is the missing
-- time below 2^64.
pub calculate_cpu_percent-wraps :
    (v : StatsJson)
    → v.total_usage < 18446744073709551616
    → v.pre_total_usage < 18446744073709551616
    → (0 < (calculate_cpu_percent v).1)
      × (((v.nanoseconds < 100) × (calculate_cpu_percent v ≡ (0, 1)))
          ⊎ ((100 ≤ v.nanoseconds)
              × ((calculate_cpu_percent v).1 ≡ v.nanoseconds / 100)
              × (v.pre_total_usage ≤ v.total_usage
                  → (calculate_cpu_percent v).0 ≡ v.total_usage - v.pre_total_usage)
              × (v.total_usage < v.pre_total_usage
                  → (calculate_cpu_percent v).0 + (v.pre_total_usage - v.total_usage)
                    ≡ 18446744073709551616)))
calculate_cpu_percent-wraps v a b = elim (Bool-cases (ltb v.nanoseconds 100)) [
  | inl below ↦
      let h = ltb→lt v.nanoseconds 100 below in
      let e = calculate_cpu_percent-short v h in
      (subst (λ p. 0 < p.1) (sym e) (omega arith), inl (h, e))
  | inr above ↦
      let c : 100 ≤ v.nanoseconds = ground arith in
      let e = calculate_cpu_percent-pair v c in
      (
        subst (λ p. 0 < p.1) (sym e) (omega arith),
        inr (
          c,
          ap (λ p. p.1) e,
          λ h. ap (λ p. p.0) e ∙ sub64-grown v.total_usage v.pre_total_usage a h,
          λ h.
              ap (λ p. p.0 + (v.pre_total_usage - v.total_usage)) e
              ∙ sub64-shrunk v.total_usage v.pre_total_usage b h,
        ),
      )
]
