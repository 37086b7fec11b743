-- ===== src/Scenarios/Sessions.antt =====
-- Sessions and logins.
use voxellink_monitor.Common.{
  ℕ, zero, suc, ◌+◌, ◌*◌, String, ◌≡◌, refl, sym, ap, inl, inr, true, false, Option, none, some,
  List, [], ◌∷◌, str_eq, ok, pos, ◌==◌, if◌then◌else◌, ==_iff, Bool-cases, split_on, has_char,
  str_append,
}
use text.Mathlib.TextEquality.{Char-path}
use Prim.Native.Char.{Char, code}
use voxellink_monitor.Store.Tables.{second, day}
use voxellink_monitor.Web.Request.{Request, Config}
use voxellink_monitor.Web.Session.{Signer, sign_session, session_user}
use voxellink_monitor.Web.Session.RoundTrip.{
  IsSigner, Parts, session_user-sign_session, session_user-signed,
}
use voxellink_monitor.Web.Login.{States, login, consume_state, Answer}
use voxellink_monitor.Web.Login.Once.{Event, begins, returns, run_events, login-accepted_once}

-- An encoding of texts without dots: two characters for each, a dot as "yy" and another with an "n".
unfoldable pub encode : String → String
encode String.[] = ""
encode (String.◌∷◌ c s) =
    let rest = encode s in
    if code c == b'.'
    then String.◌∷◌ "y" (String.◌∷◌ "y" rest)
    else String.◌∷◌ "n" (String.◌∷◌ c rest)

abbrev push : Char → Option String → Option String
push c none = none
push c (some s) = some (String.◌∷◌ c s)

unfoldable pub decode : String → Option String
decode String.[] = some ""
decode (String.◌∷◌ f String.[]) = none
decode (String.◌∷◌ f (String.◌∷◌ c s)) =
    let rest = decode s in if code f == b'y' then push "." rest else push c rest

-- Numbers in unary.
unfoldable pub tally : ℕ → String
tally zero = ""
tally (suc n) = String.◌∷◌ "1" (tally n)

unfoldable pub size : String → ℕ
size String.[] = 0
size (String.◌∷◌ c s) = suc (size s)

abbrev pub unary : Signer
unary = record {
  base64 = encode;
  unbase64 = decode;
  hmac = str_append;
  print_int = tally;
  scan_int = λ s. some (pos (size s));
}

unary-decodes : (s : String) → decode (encode s) ≡ some s
unfolding encode decode
unary-decodes String.[] = refl
unary-decodes (String.◌∷◌ c s) = elim (Bool-cases (code c == b'.')) [
  | inl e ↦
      rw (e, unary-decodes s)
        (ap (λ (d : Char). some (String.◌∷◌ d s))
          (sym (Char-path c "." ((==_iff (code c) b'.').0 e))))
  | inr e ↦ rw (e, unary-decodes s) refl
]

unary-plain : (s : String) → has_char b'.' (encode s) ≡ false
unfolding encode has_char
unary-plain String.[] = refl
unary-plain (String.◌∷◌ c s) = elim (Bool-cases (code c == b'.')) [
  | inl e ↦ rw (e, unary-plain s) refl
  | inr e ↦ rw (e, unary-plain s) (rw e refl)
]

tally-plain : (n : ℕ) → has_char b'.' (tally n) ≡ false
unfolding tally has_char
tally-plain zero = refl
tally-plain (suc n) = tally-plain n

size-tally : (n : ℕ) → size (tally n) ≡ n
unfolding tally size
size-tally zero = refl
size-tally (suc n) = ap suc (size-tally n)

unary-IsSigner : IsSigner unary
unary-IsSigner = record {
  decodes = unary-decodes;
  base64_plain = unary-plain;
  scans = λ n. ap (λ (m : ℕ). some (pos m)) (size-tally n);
  print_plain = tally-plain;
}

abbrev cookie : String
cookie = sign_session unary "secret" "d1" (30 * day)

session_user-sign_session_example : session_user unary "secret" (29 * day) (some cookie) ≡ some "d1"
session_user-sign_session_example =
    session_user-sign_session unary unary-IsSigner "secret" "d1" (30 * day) (29 * day)
      (unfold has_char in refl)

session_user-signed_example :
    (value : String) × (some cookie ≡ some value)
    × Parts unary "secret" (29 * day) "d1" (split_on b'.' value)
session_user-signed_example =
    session_user-signed unary "secret" (29 * day) (some cookie) "d1"
      session_user-sign_session_example

abbrev pub console_config : Config
console_config = record {
  client_id = "client";
  client_secret = "secret";
  public_base_url = "https://monitor.example";
  session_secret = "a secret of at least 24 bytes";
  integration_token = "integration-token";
}

-- The texts of a query are not looked at here.
abbrev encode_query : List (String × String) → String
encode_query fields = ""

abbrev discord_answers : String → Answer
discord_answers code = ok (200, some "d1")

abbrev request_with : String → Request
request_with state = record {
  method = "GET";
  path = "/oauth/discord/callback";
  query = λ key. if str_eq key "state" then state else "";
  form = none;
  cookie = none;
  authorization = "";
  cf_connecting_ip = "";
  x_forwarded_for = "";
  user_agent = "";
  remote_addr = "";
  remote_host = none;
  import_id = none;
}

-- Another login begins before the return, and one more comes back after it.
abbrev other_login : List Event
other_login = begins (day + second) "s2" ∷ []

abbrev other_return : List Event
other_return = returns (day + 2 * second) (request_with "s2") ∷ []

abbrev events : List Event → States → States
events = run_events encode_query discord_answers discord_answers unary console_config

login-accepted_once_example :
    let started = events other_login (login encode_query console_config day (some "s1") []).1 in
    let (accepted, states) = consume_state "s1" (day + 60 * second) started in
    (accepted ≡ true)
    × ((consume_state "s1" (day + 90 * second) (events other_return states)).0 ≡ false)
login-accepted_once_example =
    login-accepted_once encode_query discord_answers discord_answers unary console_config "s1" day
      (day + 60 * second) (day + 90 * second) other_login other_return [] (refl, tt) (refl, tt)
