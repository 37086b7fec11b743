-- ===== src/Web/Session.antt =====
-- The session cookie: signSession and user of app.go.
pub mod RoundTrip
use voxellink_monitor.Common.{
  ℕ, zero, suc, ◌+◌, ◌-◌, ◌*◌, ◌/◌, ◌%◌, ◌^◌, ◌≤◌, ◌<◌, bit_and, bit_or, min, max, String, ◌≡◌,
  refl, sym, ap, ◌∙◌, subst, ◌≢◌, ◌↔◌, ◌⊎◌, inl, inr, Bool, true, false, not, ◌&&◌, ◌||◌, Option,
  none, some, List, [], ◌∷◌, ◌++◌, arith, str_eq, eq_iff, Result, ok, err, Result-cases, ℤ, pos,
  negsuc, ltb, leb, ◌==◌, if◌then◌else◌, ltb→lt, leb→le, ==_iff, Bool-cases, Option-cases, length,
  take, drop, head?, filter, any, update_where, All, length-append, length-take-le,
  length-filter-le, length-update_where, is_empty, trim_prefix, trim_space, split_on, has_char,
  str_append, join, drop-nil, Pointwise, take-append, drop-append,
}
use Prim.Native.Char.{Char, code}
use voxellink_monitor.Store.Tables.{second}

-- What the cookie is made with: base64.RawURLEncoding, HMAC-SHA256 under a secret, and the decimal
-- numbers that fmt prints and scans. `scan_int` gives the number that a text begins with.
pub record Signer : Type 0 where
  pub base64 : String → String
  pub unbase64 : String → Option String
  pub hmac : String → String → String
  pub print_int : ℕ → String
  pub scan_int : String → Option ℤ

-- Instants count from 2000, Unix seconds from 1970.
abbrev pub epoch : ℕ
epoch = 946684800

-- t.Unix()
abbrev pub unix : ℕ → ℕ
unix t = t / second + epoch

-- time.Now().After(time.Unix(expiry, 0))
abbrev pub is_past : ℕ → ℤ → Bool
is_past now (negsuc n) = true
is_past now (pos n) = ltb (n * second) (now + epoch * second)

module _ (p : Signer) (secret : String) where
  unfoldable pub sign_session : String → ℕ → String
  sign_session user expires =
      let payload = p.base64 (str_append user (str_append "." (p.print_int (unix expires)))) in
      str_append payload (str_append "." (p.base64 (p.hmac secret payload)))

  module _ (now : ℕ) where
    abbrev on_expiry : String → Option ℤ → Option String
    on_expiry user none = none
    on_expiry user (some expiry) = if is_past now expiry then none else some user

    abbrev on_fields : List String → Option String
    on_fields (user ∷ expiry ∷ []) = on_expiry user (p.scan_int expiry)
    on_fields _ = none

    abbrev on_payload : Option String → Option String
    on_payload none = none
    on_payload (some payload) = on_fields (split_on b'.' payload)

    -- hmac.Equal, then the payload
    abbrev on_signature : String → Option String → Option String
    on_signature payload none = none
    on_signature payload (some signature) =
        if str_eq signature (p.hmac secret payload) then on_payload (p.unbase64 payload) else none

    abbrev pub on_parts : List String → Option String
    on_parts (payload ∷ signature ∷ []) = on_signature payload (p.unbase64 signature)
    on_parts _ = none

    -- The user of a request, given the value of its cookie.
    unfoldable pub session_user : Option String → Option String
    unfolding split_on
    session_user none = none
    session_user (some value) = on_parts (split_on b'.' value)
