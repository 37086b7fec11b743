-- ===== src/Web/Report/Limits.antt =====
-- Which reports reach the store, and how long they may be.
use voxellink_monitor.Common.{
  ℕ, ◌≤◌, String, ◌≡◌, refl, ◌↔◌, ◌⊎◌, inl, inr, not, ◌||◌, Option, none, some, List, [], ◌∷◌,
  arith, str_eq, Result, ok, err, ltb, Bool-cases, is_empty, trim_prefix, trim_space, split_on,
}
use voxellink_monitor.Domain.{UserReportType, CrowdSignal}
use Prim.Native.String.{len}
use voxellink_monitor.Web.Request.{
  Request, Config, Response, failure, redirect, Repository, on_result,
}
use voxellink_monitor.Web.Report.{
  report_type_of, report_from, on_detail, on_kind, on_form, on_path, report,
}

module _ (sha256_hex : String → String) (format_day : ℕ → String) (config : Config) {E S : Type 0}
    (w : Repository E S) (now : ℕ) (r : Request) (s : S) where
  -- The state is as it was, or one report was recorded, whose result is what the client is told.
  abbrev pub AtMostOne : Response × S → Type 0
  AtMostOne (response, s') =
      (s' ≡ s)
      ⊎ ((id : String) × (kind : UserReportType) × (detail : String) × (len detail ≤ 280)
          × (let given =
                w.record_user_report (report_from sha256_hex format_day config now r id kind detail)
                  s in
              (s' ≡ given.1)
              × ((response ≡ redirect 303 "/") ↔ ((signal : CrowdSignal) × (given.0 ≡ ok signal)))))

  told :
      (given : Result E CrowdSignal × S)
      → let (response, s') =
          on_result given
            (λ signal s'. (redirect 303 "/", s'))
            (λ e s'. (failure 500 "could not save report", s')) in
        (s' ≡ given.1)
        × ((response ≡ redirect 303 "/") ↔ ((signal : CrowdSignal) × (given.0 ≡ ok signal)))
  told (ok signal, s') = (refl, (λ _. (signal, refl), λ _. refl))
  told (err e, s') = (refl, (λ h. cc, λ h. cc (h.1)))

  detail_once :
      (id detail : String) (kind : UserReportType)
      → AtMostOne (on_detail sha256_hex format_day config w now r id kind detail s)
  detail_once id detail kind = elim (Bool-cases (ltb 280 (len detail))) [
    | inl long ↦ rw long (inl refl)
    | inr short ↦ rw short (
        inr (
          id,
          kind,
          detail,
          ground arith,
          told (
              w.record_user_report (report_from sha256_hex format_day config now r id kind detail)
                s),
        ))
  ]

  kind_once :
      (id : String) (form : String → String) (kind : Option UserReportType)
      → AtMostOne (on_kind sha256_hex format_day config w now r id form kind s)
  kind_once id form none = inl refl
  kind_once id form (some kind) = detail_once id (trim_space (form "detail")) kind

  form_once :
      (id : String) (form : Option (String → String))
      → AtMostOne (on_form sha256_hex format_day config w now r id form s)
  form_once id none = inl refl
  form_once id (some form) = kind_once id form (report_type_of (form "report_type"))

  path_once :
      (parts : List String) → AtMostOne (on_path sha256_hex format_day config w now r parts s)
  path_once [] = inl refl
  path_once (a ∷ []) = inl refl
  path_once (a ∷ b ∷ []) = elim (Bool-cases (is_empty a || not (str_eq b "reports"))) [
    | inl e ↦ rw e (inl refl)
    | inr e ↦ elim (Bool-cases (not (str_eq r.method "POST"))) [
      | inl f ↦ rw (e, f) (inl refl)
      | inr f ↦ rw (e, f) (form_once a r.form)
    ]
  ]
  path_once (a ∷ b ∷ c ∷ rest) = inl refl

  -- A request to report leaves the state as it is or records one report, whose detail has at most
  -- 280 bytes; the client is sent back to the page exactly when that was recorded.
  pub report-AtMostOne : AtMostOne (report sha256_hex format_day config w now r s)
  unfolding report
  report-AtMostOne = path_once (split_on b'/' (trim_prefix "/servers/" r.path))
