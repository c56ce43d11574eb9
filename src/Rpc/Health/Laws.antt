-- ===== src/Rpc/Health/Laws.antt =====
-- Which reports `unmarshalHealthResponse` accepts.
use shiroclient_sdk_go.Prelude.{
  String, Option, none, some, List, [], ◌∷◌, Bytes, ◌≡◌, ◌↔◌, refl, arith,
}
use shiroclient_sdk_go.Prelude.Dict.{Dict}
use shiroclient_sdk_go.Errors.{Result, ok, err, panic}
use shiroclient_sdk_go.Json.{Value, as_object}
use shiroclient_sdk_go.Platform.{Platform, HealthBody}
use shiroclient_sdk_go.Rpc.Health.{
  HealthReport, HealthCheck, text_at, string_field, convert_health_report, convert_reports,
  unmarshal_health_response, reports_or_exception,
}

-- `v` is an object with the four texts of `r`.
pub record IsReport (v : Value) (r : HealthReport) : Type 0 where
  pub fields : Dict Value
  pub is_object : as_object v ≡ some fields
  pub timestamp : text_at "timestamp" fields ≡ some r.timestamp
  pub status : text_at "status" fields ≡ some r.status
  pub service_name : text_at "service_name" fields ≡ some r.service_name
  pub service_version : text_at "service_version" fields ≡ some r.service_version

-- One report for each value, in the same order.
abbrev pub AreReports : List Value → List HealthReport → Type 0
AreReports [] [] = Unit
AreReports (v ∷ vs) (r ∷ rs) = IsReport v r × AreReports vs rs
AreReports _ _ = ⊥

or_empty : Option (Dict Value) → Dict Value
or_empty none = []
or_empty (some m) = m

field_text : (m : Dict Value) (key s : String) → text_at key m ≡ some s → string_field m key ≡ ok s
unfolding string_field text_at
field_text m key s h = ground (arith, h)

convert_health_report-IsReport :
    (v : Value) (r : HealthReport) → convert_health_report v ≡ ok r → IsReport v r
unfolding convert_health_report or_empty string_field
convert_health_report-IsReport v r h = record {
  fields = or_empty (as_object v);
  is_object = ground arith;
  timestamp = ground arith;
  status = ground arith;
  service_name = ground arith;
  service_version = ground arith;
}

IsReport-convert_health_report :
    (v : Value) (r : HealthReport) → IsReport v r → convert_health_report v ≡ ok r
unfolding convert_health_report
IsReport-convert_health_report v r h =
    rw
      (
        h.is_object,
        field_text h.fields "timestamp" r.timestamp h.timestamp,
        field_text h.fields "status" r.status h.status,
        field_text h.fields "service_name" r.service_name h.service_name,
        field_text h.fields "service_version" r.service_version h.service_version,
      )
      refl

reports-cons :
    (v : Value) (vs : List Value) (x : Result HealthReport) (xs : Result HealthCheck)
    {rs : List HealthReport}
    → convert_health_report v ≡ x
    → convert_reports vs ≡ xs
    → convert_reports (v ∷ vs) ≡ ok rs
    → (r : HealthReport) × (rest : List HealthReport) × (convert_health_report v ≡ ok r)
      × (convert_reports vs ≡ ok rest)
      × (rs ≡ r ∷ rest)
unfolding convert_reports
reports-cons v vs (ok r) (ok rest) e f h = (r, rest, e, f, ground arith)
reports-cons v vs (ok r) (err x) e f h = ground arith
reports-cons v vs (ok r) (panic x) e f h = ground arith
reports-cons v vs (err x) xs e f h = ground arith
reports-cons v vs (panic x) xs e f h = ground arith

reports-AreReports :
    (vs : List Value) (rs : List HealthReport) → convert_reports vs ≡ ok rs → AreReports vs rs
unfolding convert_reports
reports-AreReports [] [] h = tt
reports-AreReports [] (r ∷ rs) h = ground arith
reports-AreReports (v ∷ vs) rs h =
    let (r, rest, e, f, g) = reports-cons v vs _ _ refl refl h in
    rw g (convert_health_report-IsReport v r e, reports-AreReports vs rest f)

AreReports-reports :
    (vs : List Value) (rs : List HealthReport) → AreReports vs rs → convert_reports vs ≡ ok rs
unfolding convert_reports
AreReports-reports [] [] h = refl
AreReports-reports (v ∷ vs) (r ∷ rs) (first, rest) =
    rw (IsReport-convert_health_report v r first, AreReports-reports vs rs rest) refl
AreReports-reports [] (r ∷ rs) h = elim h [ ]
AreReports-reports (v ∷ vs) [] h = elim h [ ]

module _ (p : Platform) (bytes : Bytes) (rs : List HealthReport) where
  -- The text of a health check result decodes, without an exception, to the values of the reports.
  abbrev pub Healthy : Type 0
  Healthy =
      (body : HealthBody) × (p.json_unmarshal_health bytes ≡ ok body)
      × (body.exception ≡ none)
      × AreReports body.reports rs

  body_reports :
      (body : HealthBody) (e : Option Bytes)
      → body.exception ≡ e
      → reports_or_exception e body.reports ≡ ok rs
      → (body.exception ≡ none) × AreReports body.reports rs
  unfolding reports_or_exception
  body_reports body none e h = (e, reports-AreReports body.reports rs h)
  body_reports body (some x) e h = cc

  health-Healthy :
      (r : Result HealthBody)
      → p.json_unmarshal_health bytes ≡ r
      → unmarshal_health_response p bytes ≡ ok rs
      → Healthy
  unfolding unmarshal_health_response
  health-Healthy (ok body) e h =
      let (f, g) = body_reports body body.exception refl (rw e at h) in (body, e, f, g)
  health-Healthy (err x) e h = ground arith
  health-Healthy (panic x) e h = ground arith

  Healthy-health : Healthy → unmarshal_health_response p bytes ≡ ok rs
  unfolding unmarshal_health_response reports_or_exception
  Healthy-health (body, e, f, h) = rw (e, f) (AreReports-reports body.reports rs h)

  -- The result of a health check decodes to reports exactly if its text decodes, without an
  -- exception, to as many objects, each with the four texts of its report, in the same order.
  pub health_iff : (unmarshal_health_response p bytes ≡ ok rs) ↔ Healthy
  health_iff = (health-Healthy (p.json_unmarshal_health bytes) refl, Healthy-health)
