-- ===== src/Web/Login.antt =====
-- Logins by Discord: login, callback, consumeState and discordUserID of app.go.
pub mod Once
use voxellink_monitor.Common.{
  ℕ, zero, suc, ◌+◌, ◌-◌, ◌*◌, ◌/◌, ◌%◌, ◌^◌, ◌≤◌, ◌<◌, bit_and, bit_or, min, max, String, ◌≡◌,
  refl, sym, ap, ◌∙◌, subst, ◌≢◌, ◌↔◌, ◌⊎◌, inl, inr, Bool, true, false, not, ◌&&◌, ◌||◌, Option,
  none, some, List, [], ◌∷◌, ◌++◌, arith, str_eq, eq_iff, Result, ok, err, Result-cases, ℤ, pos,
  negsuc, ltb, leb, ◌==◌, if◌then◌else◌, ltb→lt, leb→le, ==_iff, Bool-cases, Option-cases, length,
  take, drop, head?, filter, any, update_where, All, length-append, length-take-le,
  length-filter-le, length-update_where, is_empty, trim_prefix, trim_space, split_on, has_char,
  str_append, join, drop-nil, Pointwise, take-append, drop-append,
}
use voxellink_monitor.Common.Texts.{after_prefix}
use voxellink_monitor.Store.Tables.{second}
use voxellink_monitor.Web.Request.{Request, Config, Response, failure, redirect, signed_in}
use voxellink_monitor.Web.Session.{Signer, sign_session}

-- map[string]time.Time: the logins that have begun, with the instants at which they end.
abbrev pub States : Type 0
States = List (String × ℕ)

unfoldable pub lookup_state : String → States → Option ℕ
lookup_state state [] = none
lookup_state state ((key, at) ∷ rest) =
    if str_eq key state then some at else lookup_state state rest

unfoldable pub delete_state : String → States → States
delete_state state [] = []
delete_state state ((key, at) ∷ rest) =
    if str_eq key state then delete_state state rest else (key, at) ∷ delete_state state rest

abbrev pub put_state : String → ℕ → States → States
put_state state at states = (state, at) ∷ delete_state state states

abbrev is_before : ℕ → Option ℕ → Bool
is_before now none = false
is_before now (some expires) = ltb now expires

unfoldable pub consume_state : String → ℕ → States → Bool × States
unfolding lookup_state delete_state
consume_state state now states =
    (is_before now (lookup_state state states), delete_state state states)

-- `token` is what crypto/rand gives, if it does not fail; `encode` is url.Values.Encode.
module _ (encode : List (String × String) → String) (config : Config) where
  abbrev pub authorize_url : String → String
  authorize_url state = str_append "https://discord.com/oauth2/authorize?" (
      encode (
        ("client_id", config.client_id)
        ∷ ("redirect_uri", str_append config.public_base_url "/oauth/discord/callback")
        ∷ ("response_type", "code")
        ∷ ("scope", "identify")
        ∷ ("state", state)
        ∷ []))

  unfoldable pub login : ℕ → Option String → States → Response × States
  unfolding delete_state
  login now none states = (failure 500 "could not start login", states)
  login now (some state) states =
      (redirect 302 (authorize_url state), put_state state (now + 600 * second) states)

-- One exchange with Discord: an error, or a status code and the text that json finds in the body,
-- if it does not fail.
abbrev pub Answer : Type 0
Answer = Result String (ℕ × Option String)

abbrev answered : Answer → Option String
answered (err e) = none
answered (ok (status, body)) = if status == 200 then body else none

-- `exchange` posts the code for a token; `identify` asks who the token is for.
module _ (exchange identify : String → Answer) where
  unfoldable pub discord_user_id : String → Option String
  discord_user_id code = elim (answered (exchange code)) [
    | none ↦ none
    | some token ↦ elim (answered (identify token)) [
      | none ↦ none
      | some id ↦ if is_empty id then none else some id
    ]
  ]

  module _ (p : Signer) (config : Config) where
    -- strings.HasPrefix(a.config.PublicBaseURL, "https://")
    abbrev is_secure : Bool
    is_secure = elim (after_prefix "https://" config.public_base_url) [
      | none ↦ false
      | some _ ↦ true
    ]

    abbrev on_user : ℕ → Option String → Response
    on_user now none = failure 502 "Discord login failed"
    on_user now (some user) =
        signed_in (sign_session p config.session_secret user (now + 86400 * second)) is_secure

    abbrev on_state : ℕ → Request → Bool → Response
    on_state now r false = failure 400 "login session expired; try again"
    on_state now r true =
        if is_empty (r.query "code")
        then failure 400 "Discord did not return a code"
        else on_user now (discord_user_id (r.query "code"))

    unfoldable pub callback : ℕ → Request → States → Response × States
    unfolding consume_state discord_user_id
    callback now r states =
        let (valid, states') = consume_state (r.query "state") now states in
        (on_state now r valid, states')
