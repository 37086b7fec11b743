-- ===== src/Discord/Bot/Counts.antt =====
-- What a command of a player does to the database.
use voxellink_monitor.Common.{
  ℕ, String, ◌≡◌, refl, sym, ap, ◌∙◌, subst, ◌⊎◌, inl, inr, false, not, Option, none, some, [], ◌∷◌,
  str_eq, eq_iff, Result, ok, err, Bool-cases, is_empty,
}
use voxellink_monitor.Domain.{UserReport, UserReportType, ServerSnapshot}
use voxellink_monitor.Store.Tables.{Db}
use voxellink_monitor.Store.Session.{Error, Session}
use voxellink_monitor.Store.Reports.{record_user_report}
use voxellink_monitor.Store.Snapshots.{recent_incidents}
use voxellink_monitor.Store.Uptime.{uptime_24h}
use voxellink_monitor.Discord.Messages.{concat, Printer, uptime_message, incidents_message}
use voxellink_monitor.Discord.Bot.{
  Interaction, Reply, message, discord_reporter_hash, option_value, valid_report_type, after_query,
  command_report, file_report, on_report, on_command, on_snapshot, find_server, handle_interaction,
}
use voxellink_monitor.Discord.Backend.{queries}
use voxellink_monitor.Store.Reports.Once.{CountsOnce, record_user_report-CountsOnce}
use voxellink_monitor.Discord.Bot.Reads.{
  uptime_reads, incidents_read, external_reads, channel_reads,
}

module _ (sha256_hex : String → String) (p : Printer) (console_url : String) (now : ℕ)
    (i : Interaction) (s : Session) where
  -- The report of a member, under a digest of the user and the server.
  abbrev pub member_report : String → String → UserReportType → UserReport
  member_report user id kind = record {
    server_id = id;
    reporter_hash = sha256_hex (concat ("discord|" ∷ user ∷ "|" ∷ id ∷ []));
    detail = "";
    kind = kind;
    at = now;
  }

  -- The server that the command is about.
  abbrev pub Found : ServerSnapshot → Type 0
  Found v =
      (find_server sha256_hex p (queries now) console_url now (option_value "server" "" i.options) i
        s).0
      ≡ ok v

  abbrev pub Counts : Reply × Session → Type 0
  Counts given =
      (given.1.stored ≡ s.stored)
      ⊎ ((user : String) × (v : ServerSnapshot) × (kind : UserReportType) × Found v
          × (i.name ≡ "report")
          × (i.member ≡ some user)
          × (valid_report_type (option_value "type" "" i.options) ≡ some kind)
          × CountsOnce s.stored.reports (member_report user v.server.id kind)
              given.1.stored.reports)

  reply_keeps :
      {A : Type 0} (given : Result Error A × Session) (good : A → Reply) (bad : String)
      → (after_query given good bad).1 ≡ given.1
  reply_keeps (ok a, t) good bad = refl
  reply_keeps (err e, t) good bad = refl

  module _ (t : Session) (same : t.stored ≡ s.stored) where
    read-Counts :
        {A : Type 0} (given : Result Error A × Session) (good : A → Reply) (bad : String)
        → given.1.stored ≡ t.stored
        → Counts (after_query given good bad)
    read-Counts given good bad h =
        inl (ap (λ (x : Session). x.stored) (reply_keeps given good bad) ∙ h ∙ same)

    filed-Counts :
        (user : String) (v : ServerSnapshot) (kind : Option UserReportType)
        → Found v
        → i.name ≡ "report"
        → i.member ≡ some user
        → valid_report_type (option_value "type" "" i.options) ≡ kind
        → Counts (file_report sha256_hex p (queries now) console_url now user v.server.id kind t)
    unfolding queries discord_reporter_hash
    filed-Counts user v none found named who chosen = inl same
    filed-Counts user v (some kind) found named who chosen =
        let k = command_report sha256_hex now user v.server.id kind in
        let added : CountsOnce s.stored.reports k (record_user_report now k t).1.stored.reports =
          record_user_report-CountsOnce s.stored.reports now k t
            (ap (λ (d : Db). d.reports) same) in
        inr (
          user,
          v,
          kind,
          found,
          named,
          who,
          chosen,
          subst (λ (x : Session). CountsOnce s.stored.reports k x.stored.reports)
              (sym (reply_keeps (record_user_report now k t) _ _)) added,
        )

    reported-Counts :
        (member : Option String) (v : ServerSnapshot)
        → Found v
        → i.name ≡ "report"
        → i.member ≡ member
        → Counts (
            on_report sha256_hex p
              (queries now)
              console_url
              now
              member
              v.server.id
              (option_value "type" "" i.options)
              t)
    reported-Counts none v found named who = inl same
    reported-Counts (some user) v found named who = filed-Counts user v _ found named who refl

    command-Counts :
        (v : ServerSnapshot)
        → Found v
        → Counts (on_command sha256_hex p (queries now) console_url now i v t)
    unfolding queries
    command-Counts v found = elim (Bool-cases (str_eq i.name "report")) [
      | inl e ↦ rw e (reported-Counts i.member v found ((eq_iff i.name "report").0 e) refl)
      | inr e ↦ elim (Bool-cases (str_eq i.name "status")) [
        | inl f ↦ rw (e, f) (inl same)
        | inr f ↦ elim (Bool-cases (str_eq i.name "uptime")) [
          | inl g ↦
              rw (e, f, g)
                (read-Counts (uptime_24h now v.server.id t)
                  (λ uptime. message false (uptime_message p v.server.name uptime))
                  "稼働率を取得できませんでした。" (uptime_reads now v.server.id t))
          | inr g ↦ elim (Bool-cases (str_eq i.name "incidents")) [
            | inl h ↦
                rw (e, f, g, h)
                  (read-Counts (recent_incidents v.server.id 5 t)
                    (λ incidents. message false (incidents_message p v.server.name incidents))
                    "Incident履歴を取得できませんでした。" (incidents_read v.server.id t))
            | inr h ↦ rw (e, f, g, h) (inl same)
          ]
        ]
      ]
    ]

  Found-Counts :
      (given : Result Error ServerSnapshot × Session)
      → given.1.stored ≡ s.stored
      → ((v : ServerSnapshot) → given.0 ≡ ok v → Found v)
      → Counts (on_snapshot sha256_hex p (queries now) console_url now i given)
  Found-Counts (err e, t) h found = inl h
  Found-Counts (ok v, t) h found = command-Counts t h v (found v refl)

  found_reads :
      (id : String)
      → (find_server sha256_hex p (queries now) console_url now id i s).1.stored ≡ s.stored
  unfolding queries
  found_reads id = elim (Bool-cases (is_empty id)) [
    | inl e ↦ rw e (channel_reads now i.channel_id s)
    | inr e ↦ rw e (external_reads now id s)
  ]

  -- A command of a player changes nothing in the database, unless it is a report of a member that
  -- names a type; and then, whichever calls fail, at most one row of reports is added, under the
  -- digest of that member and of the server found, and only if the member has not reported the
  -- server on that day.
  pub handle_interaction-Counts :
      Counts (handle_interaction sha256_hex p (queries now) console_url now i s)
  unfolding handle_interaction
  handle_interaction-Counts = elim (Bool-cases (not i.is_command)) [
    | inl e ↦ rw e (inl refl)
    | inr e ↦ elim (Bool-cases (str_eq i.name "monitor")) [
      | inl f ↦ rw (e, f) (inl refl)
      | inr f ↦
          rw (e, f) (Found-Counts _ (found_reads (option_value "server" "" i.options)) (λ v e. e))
    ]
  ]
