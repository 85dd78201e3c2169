-- ===== src/Lifecycle/Render.antt =====
-- render and _escape of src/solution_arista_avd/service_lifecycle.py. A line of the answer is its
-- parts; the text of a number is left to the reader.
use infrahub_network_field_d.Base.{
  distinct, ℕ, String, Bool, true, false, ◌||◌, Option, none, some, List, [], ◌∷◌, ◌++◌, map,
  if◌then◌else◌, ◌==◌, string_eq, pair_eq, nat_eq, list_eq, nat_beq, str_leb, contains, keep_if,
  is_empty, sort,
}
use infrahub_network_field_d.Base.Dict.{get}
use infrahub_network_field_d.Base.Text.{Text, codes}
use infrahub_network_field_d.Base.Members.{each}
use infrahub_network_field_d.Lifecycle.Schema.{Labels, Sample}
use infrahub_network_field_d.Lifecycle.Exporter.{Exporter}

-- text.replace(c, by), for one character
abbrev pub replace : ℕ → Text → Text → Text
replace c by = each (λ d. if nat_beq d c then by else d ∷ [])

-- _escape: the backslash, the quote and the end of a line
unfoldable pub escape : Text → Text
escape value =
    replace 10 (92 ∷ 110 ∷ []) (replace 34 (92 ∷ 34 ∷ []) (replace 92 (92 ∷ 92 ∷ []) value))

abbrev pub label_text : String × String → Text
unfolding escape
label_text (k, v) = codes k ++ 61 ∷ 34 ∷ (escape (codes v) ++ 34 ∷ [])

-- ",".join(texts)
abbrev join_commas : List Text → Text
join_commas [] = []
join_commas (t ∷ []) = t
join_commas (t ∷ u ∷ ts) = t ++ 44 ∷ join_commas (u ∷ ts)

pub data Line : Type 0 where
  help_line : (metric text : String) → Line
  type_line : (metric kind : String) → Line
  row_line : (metric : String) (body : Text) (value : ℕ) → Line

-- HELP, with the type of each metric
abbrev help : List ((String × String) × String)
help =
    (
      (
        "otternet_service_stage",
        "1 for each service at each stage of the request pipeline it is in.",
      ),
      "gauge",
    )
    ∷ (
      ("otternet_service_stage_since_timestamp_seconds", "When the service entered the stage."),
      "gauge",
    )
    ∷ (
      (
        "otternet_service_deploy_pending_devices",
        "Devices not yet confirmed in sync since the service last changed.",
      ),
      "gauge",
    )
    ∷ (
      (
        "otternet_service_event_timestamp_seconds",
        "When a service was created, changed status or was deleted on main.",
      ),
      "gauge",
    )
    ∷ (
      (
        "otternet_proposed_change_merged_timestamp_seconds",
        "When a proposed change merged into main.",
      ),
      "gauge",
    )
    ∷ (("otternet_service_lifecycle_kinds", "The service kinds this scrape asked for."), "gauge")
    ∷ (("otternet_service_lifecycle_up", "1 when the last poll of Infrahub succeeded."), "gauge")
    ∷ (
      (
        "otternet_service_lifecycle_poll_timestamp_seconds",
        "When the last successful poll finished.",
      ),
      "gauge",
    )
    ∷ (
      (
        "otternet_service_lifecycle_poll_errors_total",
        "Polls of Infrahub that failed since the exporter started.",
      ),
      "counter",
    )
    ∷ []

-- kinds is none where the scrape asks for none; `not kinds` holds of an empty set as well
abbrev pub is_wanted : List String → Option String → Bool
is_wanted kinds none = true
is_wanted kinds (some kind) =
    is_empty kinds || contains kinds "ServiceGeneric" || contains kinds kind

abbrev kind_sample : String → Sample
kind_sample k = record {
  metric = "otternet_service_lifecycle_kinds";
  labels = ("service_kind", k) ∷ [];
  value = 1;
}

abbrev plain_sample : String → ℕ → Sample
plain_sample metric value = record { metric = metric; labels = []; value = value }

-- kinds or {ALL_KINDS}
abbrev asked_kinds : List String → List String
asked_kinds [] = "ServiceGeneric" ∷ []
asked_kinds (k ∷ ks) = k ∷ ks

unfoldable pub selected : List Sample → List String → Bool → (polled_at errors : ℕ) → List Sample
unfolding sort
selected samples kinds up polled_at errors =
    keep_if (λ s. is_wanted kinds (get s.labels "service_kind")) samples
    ++ (map kind_sample (sort str_leb (asked_kinds kinds))
        ++ plain_sample "otternet_service_lifecycle_up" (if up then 1 else 0)
          ∷ plain_sample "otternet_service_lifecycle_poll_timestamp_seconds" polled_at
          ∷ plain_sample "otternet_service_lifecycle_poll_errors_total" errors
          ∷ [])

-- The order of two tuples of labels.
abbrev labels_leb : Labels → Labels → Bool
labels_leb [] ms = true
labels_leb (l ∷ ls) [] = false
labels_leb (l ∷ ls) (m ∷ ms) =
    let rest = labels_leb ls ms in
    if l.0 == m.0 then (if l.1 == m.1 then rest else str_leb l.1 m.1) else str_leb l.0 m.0

abbrev Row : Type 0
Row = Labels × ℕ

abbrev row_of : Sample → Row
row_of s = (s.labels, s.value)

unfoldable pub metric_lines : List Sample → (String × String) × String → List Line
unfolding label_text sort distinct
metric_lines samples ((metric, text), kind) =
    let rows = map row_of (keep_if (λ (s : Sample). s.metric == metric) samples) in
    help_line metric text
    ∷ type_line metric kind
    ∷ map (λ (r : Row). row_line metric (join_commas (map label_text r.0)) r.1)
        (sort (λ (a b : Row). labels_leb a.0 b.0) (distinct rows))

unfoldable pub render : List Sample → List String → Bool → (polled_at errors : ℕ) → List Line
unfolding selected metric_lines
render samples kinds up polled_at errors =
    each (metric_lines (selected samples kinds up polled_at errors)) help

-- Exporter.metrics
unfoldable pub metrics : Exporter → List String → List Line
unfolding render
metrics e kinds = render e.samples kinds e.up e.polled_at e.errors
