-- ===== src/Web/Session/RoundTrip.antt =====
-- A session that was signed is accepted until it ends, and nothing else is.
use voxellink_monitor.Common.{
  ℕ, ◌+◌, ◌*◌, ◌≤◌, String, ◌≡◌, refl, ap, inl, inr, false, Option, none, some, List, [], ◌∷◌,
  arith, str_eq, eq_iff, ℤ, pos, negsuc, ltb, if◌then◌else◌, Bool-cases, split_on, has_char,
  str_append,
}
use text.Mathlib.TextPositions.{eq_refl}
use text.Mathlib.TextLemmas.{nil-append, cons-append}
use voxellink_monitor.Common.Texts.Splits.{split_on-pair}
use voxellink_monitor.Store.Tables.{second, floor_to}
use voxellink_monitor.Web.Session.{
  Signer, unix, epoch, sign_session, on_expiry, on_fields, on_payload, on_signature, on_parts,
  session_user,
}

-- What the packages document: base64 decodes what it encodes, and neither it nor a printed number
-- has a dot; a number that was printed is scanned.
pub record IsSigner (p : Signer) : Type 0 where
  pub decodes : (s : String) → p.unbase64 (p.base64 s) ≡ some s
  pub base64_plain : (s : String) → has_char b'.' (p.base64 s) ≡ false
  pub scans : (n : ℕ) → p.scan_int (p.print_int n) ≡ some (pos n)
  pub print_plain : (n : ℕ) → has_char b'.' (p.print_int n) ≡ false

-- Two parts around a dot.
split_dot :
    (s t : String)
    → has_char b'.' s ≡ false
    → has_char b'.' t ≡ false
    → split_on b'.' (str_append s (str_append "." t)) ≡ s ∷ t ∷ []
split_dot s t h k = rw (cons-append "." "" t, nil-append t) (split_on-pair "." s t h k)

module _ (p : Signer) (laws : IsSigner p) (secret user : String) (expires now : ℕ) where
  -- A session of a user whose id has no dot is accepted, for that user, up to the whole second in
  -- which it ends, and for nobody afterwards.
  pub session_user-sign_session :
      has_char b'.' user ≡ false
      → session_user p secret now (some (sign_session p secret user expires))
        ≡ (if ltb (floor_to second expires) now then none else some user)
  unfolding session_user sign_session
  session_user-sign_session plain =
      let text = str_append user (str_append "." (p.print_int (unix expires))) in
      let payload = p.base64 text in
      rw
        (
          split_dot payload (p.base64 (p.hmac secret payload)) (laws.base64_plain text)
              (laws.base64_plain (p.hmac secret payload)),
          laws.decodes (p.hmac secret payload),
          eq_refl (p.hmac secret payload),
          laws.decodes text,
          split_dot user (p.print_int (unix expires)) plain (laws.print_plain (unix expires)),
          laws.scans (unix expires),
        )
        (ground arith)

-- A number that was scanned and is not past.
abbrev pub IsCurrent : Signer → ℕ → String → Type 0
IsCurrent p now expiry =
    (n : ℕ) × (p.scan_int expiry ≡ some (pos n)) × (now + epoch * second ≤ n * second)

-- What each step of the reading accepts.
module _ (p : Signer) (secret : String) (now : ℕ) (user : String) where
  abbrev Fields : List String → Type 0
  Fields fields = (expiry : String) × (fields ≡ user ∷ expiry ∷ []) × IsCurrent p now expiry

  abbrev Opens : Option String → Type 0
  Opens decoded = (text : String) × (decoded ≡ some text) × Fields (split_on b'.' text)

  accepted_expiry :
      (name expiry : String) (scanned : Option ℤ)
      → p.scan_int expiry ≡ scanned
      → on_expiry p secret now name scanned ≡ some user
      → Fields (name ∷ expiry ∷ [])
  accepted_expiry name expiry none e h = cc
  accepted_expiry name expiry (some (negsuc n)) e h = cc
  accepted_expiry name expiry (some (pos n)) e h = (expiry, ground arith, (n, e, ground arith))

  accepted-Fields :
      (fields : List String) → on_fields p secret now fields ≡ some user → Fields fields
  accepted-Fields [] h = cc
  accepted-Fields (a ∷ []) h = cc
  accepted-Fields (a ∷ b ∷ []) h = accepted_expiry a b (p.scan_int b) refl h
  accepted-Fields (a ∷ b ∷ c ∷ rest) h = cc

  accepted_payload :
      (decoded : Option String) → on_payload p secret now decoded ≡ some user → Opens decoded
  accepted_payload none h = cc
  accepted_payload (some text) h = (text, refl, accepted-Fields (split_on b'.' text) h)

  accepted_signature :
      (payload : String) (signature : Option String)
      → on_signature p secret now payload signature ≡ some user
      → (signature ≡ some (p.hmac secret payload)) × Opens (p.unbase64 payload)
  accepted_signature payload none h = cc
  accepted_signature payload (some s) h = elim (Bool-cases (str_eq s (p.hmac secret payload))) [
    | inl e ↦ (
      ap some ((eq_iff s (p.hmac secret payload)).0 e),
      accepted_payload (p.unbase64 payload) (rw e at h),
    )
    | inr e ↦ cc (rw e at h)
  ]

  abbrev pub Parts : List String → Type 0
  Parts parts =
      (payload signature : String) × (parts ≡ payload ∷ signature ∷ [])
      × (p.unbase64 signature ≡ some (p.hmac secret payload))
      × Opens (p.unbase64 payload)

  accepted-Parts : (parts : List String) → on_parts p secret now parts ≡ some user → Parts parts
  accepted-Parts [] h = cc
  accepted-Parts (a ∷ []) h = cc
  accepted-Parts (a ∷ b ∷ []) h =
      let (signed, inside) = accepted_signature a (p.unbase64 b) h in (a, b, refl, signed, inside)
  accepted-Parts (a ∷ b ∷ c ∷ rest) h = cc

-- A cookie is accepted only if it has two parts around a dot, of which the second encodes the
-- signature of the first, and the first encodes the user and an instant that is not past.
pub session_user-signed :
    (p : Signer) (secret : String) (now : ℕ) (cookie : Option String) (user : String)
    → session_user p secret now cookie ≡ some user
    → (value : String) × (cookie ≡ some value) × Parts p secret now user (split_on b'.' value)
unfolding session_user
session_user-signed p secret now (some value) user h =
    (value, refl, accepted-Parts p secret now user (split_on b'.' value) h)
session_user-signed p secret now none user h = cc
