-- ===== src/Discord/Bot/Answers.antt =====
-- handleInteraction of discord.go: the answers to the commands that are registered.
use voxellink_monitor.Common.{
  ℕ, String, ◌≡◌, refl, inl, inr, Bool, true, false, not, ◌&&◌, Option, none, some, [], arith,
  str_eq, Result, ok, err, Bool-cases, Option-cases, any, is_empty,
}
use voxellink_monitor.Domain.{ServerSnapshot}
use voxellink_monitor.Discord.Messages.{Printer, uptime_message, incidents_message}
use voxellink_monitor.Discord.Bot.{
  Interaction, Reply, message, Queries, option_value, valid_report_type, monitor_link, after_query,
  thanks, on_report, on_command, on_snapshot, find_server, handle_interaction,
}
use voxellink_monitor.Discord.Gateway.{Command, commands, ResponseData, respond}

-- A response is sent that is a text alone.
abbrev pub IsAnswered : {S : Type 0} → Reply × S → Type 0
IsAnswered given = (d : ResponseData) × (respond given.0 ≡ some d) × (d.components ≡ [])

told :
    (ephemeral : Bool) (content : String)
    → (d : ResponseData) × (respond (message ephemeral content) ≡ some d) × (d.components ≡ [])
unfolding respond
told ephemeral content = (_, refl, refl)

query-IsAnswered :
    {E A S : Type 0} (given : Result E A × S) (private_reply : Bool) (text : A → String)
    (bad : String)
    → IsAnswered (after_query given (λ a. message private_reply (text a)) bad)
query-IsAnswered (ok a, s) private_reply text bad = told private_reply (text a)
query-IsAnswered (err e, s) private_reply text bad = told true bad

abbrev pub is_registered : String → Bool
is_registered name = any (λ (c : Command). str_eq name c.name) commands

module _ {E S : Type 0} (sha256_hex : String → String) (p : Printer) (w : Queries E S)
    (console_url : String) (now : ℕ) where
  report-IsAnswered :
      (member : Option String) (id kind : String) (s : S)
      → IsAnswered (on_report sha256_hex p w console_url now member id kind s)
  report-IsAnswered none id kind s = told true _
  report-IsAnswered (some user) id kind s = elim (Option-cases (valid_report_type kind)) [
    | inl e ↦ rw e (told true _)
    | inr (k, e) ↦ rw e (query-IsAnswered _ true thanks _)
  ]

  command-IsAnswered :
      (i : Interaction) (v : ServerSnapshot) (s : S)
      → is_registered i.name ≡ true
      → str_eq i.name "monitor" ≡ false
      → IsAnswered (on_command sha256_hex p w console_url now i v s)
  command-IsAnswered i v s known not_link = elim (Bool-cases (str_eq i.name "report")) [
    | inl e ↦ rw e (report-IsAnswered i.member v.server.id (option_value "type" "" i.options) s)
    | inr e ↦ elim (Bool-cases (str_eq i.name "status")) [
      | inl f ↦ rw (e, f) (told false _)
      | inr f ↦ elim (Bool-cases (str_eq i.name "uptime")) [
        | inl g ↦
            rw (e, f, g)
              (query-IsAnswered (w.uptime_24h v.server.id s) false (uptime_message p v.server.name)
                "稼働率を取得できませんでした。")
        | inr g ↦ elim (Bool-cases (str_eq i.name "incidents")) [
          | inl h ↦
              rw (e, f, g, h)
                (query-IsAnswered (w.recent_incidents v.server.id 5 s) false
                  (incidents_message p v.server.name) "Incident履歴を取得できませんでした。")
          | inr h ↦ absurd (ground arith)
        ]
      ]
    ]
  ]

  snapshot-IsAnswered :
      (i : Interaction) (given : Result E ServerSnapshot × S)
      → is_registered i.name ≡ true
      → str_eq i.name "monitor" ≡ false
      → IsAnswered (on_snapshot sha256_hex p w console_url now i given)
  snapshot-IsAnswered i (err e, s) known not_link = told true _
  snapshot-IsAnswered i (ok v, s) known not_link = command-IsAnswered i v s known not_link

  link-IsAnswered : is_empty console_url ≡ true → (s : S) → IsAnswered (monitor_link console_url, s)
  unfolding respond monitor_link
  link-IsAnswered unset s = rw unset (_, refl, refl)

  -- Whatever its calls give, the bot sends a response of a text alone, without components, to each
  -- command that it registers, but for `monitor` where the URL of the console is set.
  pub handle_interaction-IsAnswered :
      (i : Interaction) (s : S)
      → i.is_command ≡ true
      → is_registered i.name ≡ true
      → (str_eq i.name "monitor" && not (is_empty console_url)) ≡ false
      → IsAnswered (handle_interaction sha256_hex p w console_url now i s)
  unfolding handle_interaction
  handle_interaction-IsAnswered i s command known no_link =
      elim (Bool-cases (str_eq i.name "monitor")) [
        | inl e ↦ rw (command, e) (link-IsAnswered (ground arith) s)
        | inr e ↦
            rw (command, e)
              (snapshot-IsAnswered i
                (find_server sha256_hex p w console_url now (option_value "server" "" i.options) i
                  s)
                known e)
      ]
