-- ===== src/Time/Durations.antt =====
-- Adding and subtracting a duration.
use ros2_rust.Prelude.{
  ℕ, ◌≡◌, returns, arith, Option, some, none, subst, unwrap, ◌>>=◌, >>=-eq-returns, returns-eq,
}
use ros2_rust.Prelude.Int.{ℤ, IsI64, +ℤ_cancel, checked_add, checked_sub}
use ros2_rust.Time.{Time, add_duration, sub_duration, duration_ns}

cancels : (z w n : ℤ) → IsI64 z → checked_add z n ≡ some w → checked_sub w n ≡ some z
cancels z w n i h = ground (arith, +ℤ_cancel z n)

unwrapped : (o : Option ℤ) (z : ℤ) → unwrap {E = ⊥} o ≡ returns z → o ≡ some z
unwrapped none z h = cc
unwrapped (some y) z h = cc

subtracted :
    (later : Time) (other : ℕ) (d z : ℤ)
    → duration_ns other ≡ returns d
    → checked_sub later.nsec d ≡ some z
    → sub_duration later other ≡ returns (record later { nsec = z })
unfolding sub_duration
subtracted later other d z a b = rw (sub_duration, a, b)

-- Where adding a duration returns, subtracting it again from the result gives the time back, if
-- the time was an `i64`.
pub sub_duration-add_duration :
    (t later : Time) (other : ℕ)
    → IsI64 t.nsec
    → add_duration t other ≡ returns later
    → sub_duration later other ≡ returns t
unfolding add_duration
sub_duration-add_duration t later other i h =
    let (d, a, rest) =
      >>=-eq-returns (duration_ns other)
        (λ d. unwrap (checked_add t.nsec d) >>= λ n. returns (record t { nsec = n })) h in
    let (n, b, done) =
      >>=-eq-returns (unwrap (checked_add t.nsec d)) (λ n. returns (record t { nsec = n })) rest in
    let e = returns-eq done in
    subst (λ k. sub_duration k other ≡ returns t) e
      (subtracted (record t { nsec = n }) other d t.nsec a
        (cancels t.nsec n d i (unwrapped (checked_add t.nsec d) n b)))
