-- ===== src/Metric.antt =====
-- src/data_info/metric.c: the metrics of links and of nodes. A name is of the type `N`, which
-- `strcmp` compares; a `double` is of the type `D` and a string that is returned of the type `S`.
use foren6_analyzer.Prelude.{ℕ, List, [], ◌∷◌, Option, none, some, if◌then◌else◌}
use foren6_analyzer.Utlist.{Utlist}
use foren6_analyzer.Refs.{Key}

pub record DiMetricType (N S D : Type 0) : Type 0 where
  pub name : N
  pub to_string : Option (ℕ → S)
  pub to_display_value : Option (ℕ → D)

-- `type` points to a member of the list of types.
pub record DiMetric : Type 0 where
  pub type : Option ℕ
  pub value : ℕ

-- The metric with its type, where it has one.
pub record TypedMetric (N S D : Type 0) : Type 0 where
  pub type : Option (DiMetricType N S D)
  pub value : ℕ

abbrev pub apply : {A : Type 0} → Option (ℕ → A) → ℕ → Option A
apply none value = none
apply (some f) value = some (f value)

abbrev pub apply_or : {A : Type 0} → (ℕ → A) → Option (ℕ → A) → ℕ → A
apply_or cast none value = cast value
apply_or cast (some f) value = f value

module _ {N S D : Type 0} where
  unfoldable pub metric_add_type :
      ⦃ll : Utlist (DiMetricType N S D)⦄
      → List (DiMetricType N S D)
      → DiMetricType N S D
      → List (DiMetricType N S D)
  metric_add_type ⦃ll = ll⦄ metrics metric_model = ll.ll_prepend metrics metric_model

  abbrev pub metric_get_type :
      ⦃names : Key N⦄ → List (DiMetricType N S D) → N → Option (DiMetricType N S D)
  metric_get_type [] name = none
  metric_get_type ⦃names = names⦄ (metric_type ∷ metrics) name =
      if names.same metric_type.name name then some metric_type else metric_get_type metrics name

  unfoldable pub metric_to_string : TypedMetric N S D → Option S
  metric_to_string metric = elim metric.type [
    | none ↦ none
    | some type ↦ apply type.to_string metric.value
  ]

  -- `cast` is the conversion of a `uint64_t` to `double`.
  unfoldable pub metric_get_display_value : (ℕ → D) → TypedMetric N S D → D
  metric_get_display_value cast metric = elim metric.type [
    | none ↦ cast metric.value
    | some type ↦ apply_or cast type.to_display_value metric.value
  ]
