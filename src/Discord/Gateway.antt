-- ===== src/Discord/Gateway.antt =====
-- NewNotifier, NewBot, Bot.Run, commands and respond of discord.go: the session with Discord.
use voxellink_monitor.Common.{
  ℕ, String, Bool, true, false, Option, none, some, List, [], ◌∷◌, Result, ok, err, if◌then◌else◌,
  str_append,
}
use voxellink_monitor.Discord.Bot.{Reply, silence, message, console_link}

pub record CommandOption : Type 0 where
  pub name : String
  pub description : String
  pub required : Bool
  -- the label and the value of each choice
  pub choices : List (String × String)

pub record Command : Type 0 where
  pub name : String
  pub description : String
  pub options : List CommandOption

abbrev server_option : CommandOption
server_option = record {
  name = "server";
  description = "VoxelLink server ID（ステータスチャンネル内では不要）";
  required = false;
  choices = [];
}

abbrev pub report_type : CommandOption
report_type = record {
  name = "type";
  description = "発生している問題";
  required = true;
  choices =
      ("接続できない", "CONNECTION")
      ∷ ("ログインできない", "LOGIN")
      ∷ ("タイムアウト", "TIMEOUT")
      ∷ ("ラグ・遅延", "LAG")
      ∷ ("その他", "OTHER")
      ∷ [];
}

abbrev pub commands : List Command
commands =
    (record {
      name = "status";
      description = "Show the current player-facing server status";
      options = server_option ∷ [];
    })
    ∷ (record {
      name = "uptime";
      description = "Show availability over the last 24 hours";
      options = server_option ∷ [];
    })
    ∷ (record {
      name = "incidents";
      description = "Show recent incidents";
      options = server_option ∷ [];
    })
    ∷ (record {
      name = "report";
      description = "接続トラブルを匿名で報告する";
      options = report_type ∷ server_option ∷ [];
    })
    ∷ (record { name = "monitor"; description = "Open the server owner console"; options = [] })
    ∷ []

-- `create` is the error of discordgo.New for a token.
unfoldable pub new_session : (String → Option String) → String → Result String String
new_session create token =
    let bearer = str_append "Bot " token in
    elim (create bearer) [ none ↦ ok bearer | some e ↦ err e ]

-- NewBot: the session, named by its token, and the URL of the console.
unfoldable pub new_bot :
    (String → Option String) → String → String → Result String (String × String)
unfolding new_session
new_bot create token console_url = elim (new_session create token) [
  | err e ↦ err e
  | ok session ↦ ok (session, console_url)
]

-- How Run of the bot and of the worker ends.
pub data Ended : Type 0 where
  cancelled : Ended
  failed : String → Ended

-- `open_gateway` and `overwrite` are the errors of the two calls; then Run waits for its context.
unfoldable pub run : Option String → (List Command → Option String) → Ended
run (some e) overwrite = failed (str_append "open Discord gateway: " e)
run none overwrite = elim (overwrite commands) [
  | some e ↦ failed (str_append "register application commands: " e)
  | none ↦ cancelled
]

-- discordgo.Button with the style of a link. No response of the bot has an ActionsRow.
pub data Component : Type 0 where
  link_button : (label url : String) → Component

-- The data of a response: its text, the flags, and its components.
pub record ResponseData : Type 0 where
  pub content : String
  pub flags : ℕ
  pub components : List Component

-- discordgo.MessageFlagsEphemeral
abbrev ephemeral_flag : ℕ
ephemeral_flag = 64

-- respond, and the response of monitorLink
unfoldable pub respond : Reply → Option ResponseData
respond silence = none
respond (message ephemeral content) =
    some (record {
      content = content;
      flags = if ephemeral then ephemeral_flag else 0;
      components = [];
    })
respond (console_link url) = some (record {
  content = "監視設定はWeb管理画面から変更できます。";
  flags = ephemeral_flag;
  components = link_button "管理画面を開く" url ∷ [];
})
