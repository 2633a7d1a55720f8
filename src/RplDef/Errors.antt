-- ===== src/RplDef/Errors.antt =====
-- `rpl_errors_delta` and `rpl_errors_compare`. The counters are `int`: 32-bit patterns.
use foren6_analyzer.Prelude.{
  ℕ, ◌+◌, ◌-◌, ◌^◌, ◌≤◌, ◌<◌, Bool, false, Option, none, some, ◌≡◌, ◌↔◌, ◌!=◌, !=_iff, arith,
}
use foren6_analyzer.Prelude.Words.{sub32, add32, sub32-grown}
use foren6_analyzer.RplDef.Types.{RplErrors, RplErrorsDelta}

unfoldable pub errors_unchanged : RplErrorsDelta
errors_unchanged = record {
  has_changed = 0;
  rank_errors = 0;
  forward_errors = 0;
  upward_rank_errors = 0;
  downward_rank_errors = 0;
  route_loop_errors = 0;
  ip_mismatch_errors = 0;
  dodag_version_decrease_errors = 0;
  dodag_mismatch_errors = 0;
  dodag_config_mismatch_errors = 0;
}

-- One of the pointers is `NULL`, and the other points to the counters.
unfoldable pub errors_one_sided : RplErrors → RplErrorsDelta
errors_one_sided e = record {
  has_changed = 0;
  rank_errors = e.rank_errors;
  forward_errors = e.forward_errors;
  upward_rank_errors = e.upward_rank_errors;
  downward_rank_errors = e.downward_rank_errors;
  route_loop_errors = e.route_loop_errors;
  ip_mismatch_errors = e.ip_mismatch_errors;
  dodag_version_decrease_errors = e.dodag_version_decrease_errors;
  dodag_mismatch_errors = e.dodag_mismatch_errors;
  dodag_config_mismatch_errors = e.dodag_config_mismatch_errors;
}

unfoldable pub errors_two_sided : RplErrors → RplErrors → RplErrorsDelta
errors_two_sided left right = record {
  has_changed = 0;
  rank_errors = sub32 right.rank_errors left.rank_errors;
  forward_errors = sub32 right.forward_errors left.forward_errors;
  upward_rank_errors = sub32 right.upward_rank_errors left.upward_rank_errors;
  downward_rank_errors = sub32 right.downward_rank_errors left.downward_rank_errors;
  route_loop_errors = sub32 right.route_loop_errors left.route_loop_errors;
  ip_mismatch_errors = sub32 right.ip_mismatch_errors left.ip_mismatch_errors;
  dodag_version_decrease_errors =
      sub32 right.dodag_version_decrease_errors left.dodag_version_decrease_errors;
  dodag_mismatch_errors = sub32 right.dodag_mismatch_errors left.dodag_mismatch_errors;
  dodag_config_mismatch_errors =
      sub32 right.dodag_config_mismatch_errors left.dodag_config_mismatch_errors;
}

-- The statements before the last one.
unfoldable pub errors_fields : Option RplErrors → Option RplErrors → RplErrorsDelta
errors_fields none none = errors_unchanged
errors_fields none (some right) = errors_one_sided right
errors_fields (some left) none = errors_one_sided left
errors_fields (some left) (some right) = errors_two_sided left right

-- The last statement, a sum of eight of the nine differences.
unfoldable pub errors_has_changed : RplErrorsDelta → ℕ
errors_has_changed d =
    add32
      (add32
        (add32
          (add32
            (add32 (add32 (add32 d.rank_errors d.forward_errors) d.upward_rank_errors)
              d.downward_rank_errors)
            d.route_loop_errors)
          d.ip_mismatch_errors)
        d.dodag_mismatch_errors)
      d.dodag_config_mismatch_errors

unfoldable pub rpl_errors_delta : Option RplErrors → Option RplErrors → RplErrorsDelta
rpl_errors_delta left right =
    let delta = errors_fields left right in record delta { has_changed = errors_has_changed delta }

unfoldable pub rpl_errors_compare : Option RplErrors → Option RplErrors → Bool
rpl_errors_compare left right = (rpl_errors_delta left right).has_changed != 0

-- The counters of `r` are those of `l` or larger, and have grown by less than 2 ^ 32 in all.
pub record HasGrown (l r : RplErrors) : Type 0 where
  pub rank_errors : l.rank_errors ≤ r.rank_errors
  pub forward_errors : l.forward_errors ≤ r.forward_errors
  pub upward_rank_errors : l.upward_rank_errors ≤ r.upward_rank_errors
  pub downward_rank_errors : l.downward_rank_errors ≤ r.downward_rank_errors
  pub route_loop_errors : l.route_loop_errors ≤ r.route_loop_errors
  pub ip_mismatch_errors : l.ip_mismatch_errors ≤ r.ip_mismatch_errors
  pub dodag_mismatch_errors : l.dodag_mismatch_errors ≤ r.dodag_mismatch_errors
  pub dodag_config_mismatch_errors : l.dodag_config_mismatch_errors ≤ r.dodag_config_mismatch_errors
  pub bound :
      r.rank_errors + r.forward_errors + r.upward_rank_errors + r.downward_rank_errors
        + r.route_loop_errors + r.ip_mismatch_errors + r.dodag_mismatch_errors
        + r.dodag_config_mismatch_errors
      < 2 ^ 32

-- The eight counters that the sum adds up are equal.
pub record SameCounters (l r : RplErrors) : Type 0 where
  pub rank_errors : r.rank_errors ≡ l.rank_errors
  pub forward_errors : r.forward_errors ≡ l.forward_errors
  pub upward_rank_errors : r.upward_rank_errors ≡ l.upward_rank_errors
  pub downward_rank_errors : r.downward_rank_errors ≡ l.downward_rank_errors
  pub route_loop_errors : r.route_loop_errors ≡ l.route_loop_errors
  pub ip_mismatch_errors : r.ip_mismatch_errors ≡ l.ip_mismatch_errors
  pub dodag_mismatch_errors : r.dodag_mismatch_errors ≡ l.dodag_mismatch_errors
  pub dodag_config_mismatch_errors : r.dodag_config_mismatch_errors ≡ l.dodag_config_mismatch_errors

-- Differences that add up without wrapping.
sum_no_wrap :
    (a b c d e f g h : ℕ)
    → a + b + c + d + e + f + g + h < 2 ^ 32
    → add32 (add32 (add32 (add32 (add32 (add32 (add32 a b) c) d) e) f) g) h
      ≡ a + b + c + d + e + f + g + h
unfolding add32
sum_no_wrap a b c d e f g h p = omega arith

growth :
    (l r : RplErrors)
    → HasGrown l r
    → errors_has_changed (errors_two_sided l r)
      ≡ (r.rank_errors - l.rank_errors)
        + (r.forward_errors - l.forward_errors)
        + (r.upward_rank_errors - l.upward_rank_errors)
        + (r.downward_rank_errors - l.downward_rank_errors)
        + (r.route_loop_errors - l.route_loop_errors)
        + (r.ip_mismatch_errors - l.ip_mismatch_errors)
        + (r.dodag_mismatch_errors - l.dodag_mismatch_errors)
        + (r.dodag_config_mismatch_errors - l.dodag_config_mismatch_errors)
unfolding errors_has_changed errors_two_sided
growth l r g =
    rw
      (
        sub32-grown r.rank_errors l.rank_errors g.rank_errors (omega arith),
        sub32-grown r.forward_errors l.forward_errors g.forward_errors (omega arith),
        sub32-grown r.upward_rank_errors l.upward_rank_errors g.upward_rank_errors (omega arith),
        sub32-grown r.downward_rank_errors l.downward_rank_errors g.downward_rank_errors
            (omega arith),
        sub32-grown r.route_loop_errors l.route_loop_errors g.route_loop_errors (omega arith),
        sub32-grown r.ip_mismatch_errors l.ip_mismatch_errors g.ip_mismatch_errors (omega arith),
        sub32-grown r.dodag_mismatch_errors l.dodag_mismatch_errors g.dodag_mismatch_errors
            (omega arith),
        sub32-grown r.dodag_config_mismatch_errors l.dodag_config_mismatch_errors
            g.dodag_config_mismatch_errors (omega arith),
      )
      (sum_no_wrap _ _ _ _ _ _ _ _ (omega arith))

-- Where the eight error counters other than `dodag_version_decrease_errors` have not decreased
-- since the last version and stay below 2 ^ 32 in all, a change is reported exactly when one of
-- these eight has changed.
pub rpl_errors_compare-eq-false_iff :
    (l r : RplErrors)
    → HasGrown l r
    → (rpl_errors_compare (some l) (some r) ≡ false) ↔ SameCounters l r
unfolding rpl_errors_compare rpl_errors_delta errors_fields
rpl_errors_compare-eq-false_iff l r g =
    rw (growth l r g)
      ((λ e. let none_left = (!=_iff _ _).0 e in omega arith), (λ e. (!=_iff _ _).1 (omega arith)))
