-- ===== src/RplDef/Statistics.antt =====
-- `rpl_statistics_delta` and `rpl_statistics_compare`. A `double` is of the type `D`.
use foren6_analyzer.Prelude.{
  ◌^◌, ◌<◌, Bool, true, false, not, ◌||◌, Option, none, some, ◌≡◌, ◌↔◌, ◌!=◌, arith,
}
use foren6_analyzer.Prelude.Words.{sub32, sub32-eq-zero_iff}
use foren6_analyzer.Prelude.Double.{Double}
use foren6_analyzer.RplDef.Types.{RplStatistics, RplStatisticsDelta}

module _ {D : Type 0} ⦃f : Double D⦄ where
  -- The two timestamps of the delta are not assigned.
  unfoldable pub statistics_one_sided :
      RplStatistics D → RplStatisticsDelta D → RplStatisticsDelta D
  statistics_one_sided s delta = record delta {
    max_dao_interval = s.max_dao_interval;
    max_dio_interval = s.max_dio_interval;
    dis = s.dis;
    dio = s.dio;
    dao = s.dao;
  }

  unfoldable pub statistics_two_sided :
      RplStatistics D → RplStatistics D → RplStatisticsDelta D → RplStatisticsDelta D
  statistics_two_sided left right delta = record delta {
    max_dao_interval = f.sub_d right.max_dao_interval left.max_dao_interval;
    max_dio_interval = f.sub_d right.max_dio_interval left.max_dio_interval;
    dis = sub32 right.dis left.dis;
    dio = sub32 right.dio left.dio;
    dao = sub32 right.dao left.dao;
  }

  -- The statements before the last one.
  unfoldable pub statistics_fields :
      Option (RplStatistics D)
      → Option (RplStatistics D)
      → RplStatisticsDelta D
      → RplStatisticsDelta D
  statistics_fields none none delta = record delta {
    max_dao_interval = f.zero_d;
    max_dio_interval = f.zero_d;
    dis = 0;
    dio = 0;
    dao = 0;
  }
  statistics_fields none (some right) delta = statistics_one_sided right delta
  statistics_fields (some left) none delta = statistics_one_sided left delta
  statistics_fields (some left) (some right) delta = statistics_two_sided left right delta

  unfoldable pub statistics_has_changed : RplStatisticsDelta D → Bool
  statistics_has_changed d =
      not (f.is_zero_d d.max_dao_interval)
      || not (f.is_zero_d d.max_dio_interval)
      || d.dis != 0
      || d.dio != 0
      || d.dao != 0

  unfoldable pub rpl_statistics_delta :
      Option (RplStatistics D)
      → Option (RplStatistics D)
      → RplStatisticsDelta D
      → RplStatisticsDelta D
  rpl_statistics_delta left right delta =
      let delta' = statistics_fields left right delta in
      record delta' { has_changed = statistics_has_changed delta' }

  -- The local `delta` is not initialised: its content is the last argument.
  unfoldable pub rpl_statistics_compare :
      Option (RplStatistics D) → Option (RplStatistics D) → RplStatisticsDelta D → Bool
  rpl_statistics_compare left right delta = (rpl_statistics_delta left right delta).has_changed

  -- Statistics with 32-bit counts compare as unchanged exactly when the three counts are equal and
  -- the differences of the two longest intervals are 0.
  pub rpl_statistics_compare-eq-false_iff :
      (l r : RplStatistics D) (delta : RplStatisticsDelta D)
      → r.dis < 2 ^ 32
      → l.dis < 2 ^ 32
      → r.dio < 2 ^ 32
      → l.dio < 2 ^ 32
      → r.dao < 2 ^ 32
      → l.dao < 2 ^ 32
      → (rpl_statistics_compare (some l) (some r) delta ≡ false) ↔ (
          (f.is_zero_d (f.sub_d r.max_dao_interval l.max_dao_interval) ≡ true)
          × (f.is_zero_d (f.sub_d r.max_dio_interval l.max_dio_interval) ≡ true)
          × (r.dis ≡ l.dis)
          × (r.dio ≡ l.dio)
          × (r.dao ≡ l.dao))
  unfolding rpl_statistics_compare rpl_statistics_delta statistics_fields statistics_two_sided
      statistics_has_changed
  rpl_statistics_compare-eq-false_iff l r delta a b c d e g =
      let dis = sub32-eq-zero_iff r.dis l.dis a b in
      let dio = sub32-eq-zero_iff r.dio l.dio c d in
      let dao = sub32-eq-zero_iff r.dao l.dao e g in ground arith
