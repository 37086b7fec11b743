-- ===== src/Web/Console/Guards.antt =====
-- What a client must have before the console or the import endpoint changes anything.
use voxellink_monitor.Common.{
  ℕ, String, ◌≡◌, refl, ap, ◌∙◌, subst, ◌≢◌, ◌↔◌, ◌⊎◌, inl, inr, Bool, true, false, not, ◌&&◌,
  Option, none, some, [], ◌∷◌, arith, str_eq, eq_iff, Result, ok, err, ltb, ◌==◌, if◌then◌else◌,
  ==_iff, Bool-cases, is_empty, trim_prefix, trim_space, split_on, str_append,
}
use voxellink_monitor.Domain.{Server}
use Prim.Native.Char.{code}
use Prim.Native.String.{len}
use text.Mathlib.TextPositions.{eq_refl}
use text.Mathlib.TextEquality.{Char-path}
use text.Mathlib.TextLemmas.{nil-append, cons-append}
use voxellink_monitor.Common.Texts.{after_prefix}
use voxellink_monitor.Store.Session.{Error, refused, violation, Session, alone, next_fault}
use voxellink_monitor.Store.Owner.{may_manage}
use voxellink_monitor.Store.Owner.Roles.{Refuses, settings_need_role}
use voxellink_monitor.Web.Request.{Request, Config, Response, failure, redirect, Repository}
use voxellink_monitor.Web.Backend.{with_uuid, backend}
use voxellink_monitor.Web.Console.{
  bearer_matches, saved, set_window, set_action, on_setting_form, update_server, import_server,
}

after_prefix-append : (p s : String) → after_prefix p (str_append p s) ≡ some s
unfolding after_prefix
after_prefix-append String.[] s = rw (nil-append s)
after_prefix-append (String.◌∷◌ c p) s =
    rw (cons-append c p s) (ground (arith, after_prefix-append p s))

after_prefix-some : (p s rest : String) → after_prefix p s ≡ some rest → s ≡ str_append p rest
unfolding after_prefix
after_prefix-some String.[] s rest h = rw (nil-append rest) (ground arith)
after_prefix-some (String.◌∷◌ c p) String.[] rest h = cc
after_prefix-some (String.◌∷◌ c p) (String.◌∷◌ d s) rest h = elim (Bool-cases (code c == code d)) [
  | inl e ↦
      let same : c ≡ d = Char-path c d ((==_iff (code c) (code d)).0 e) in
      rw (cons-append c p rest) (cc (same, after_prefix-some p s rest (rw e at h)))
  | inr e ↦ cc (rw e at h)
]

-- The two tests of hmac.Equal.
same_text : (a b : String) → ((len a == len b && str_eq a b) ≡ true) ↔ (a ≡ b)
same_text a b = (
  λ h. (eq_iff a b).0 (ground arith),
  λ e. rw (e, eq_refl b, (==_iff (len b) (len b)).1 refl) refl,
)

abbrev cut_value : String → Option String → String
cut_value authorization cut = elim cut [ none ↦ authorization | some rest ↦ rest ]

prefix_cases :
    (authorization token : String) (cut : Option String)
    → after_prefix "Bearer " authorization ≡ cut
    → (len (cut_value authorization cut) == len token && str_eq (cut_value authorization cut) token)
      ≡ true
    → (authorization ≡ str_append "Bearer " token)
      ⊎ ((authorization ≡ token) × (after_prefix "Bearer " token ≡ none))
prefix_cases authorization token none e h =
    let same = (same_text authorization token).0 h in
    inr (same, subst (λ (t : String). after_prefix "Bearer " t ≡ none) same e)
prefix_cases authorization token (some rest) e h = inl (
    after_prefix-some "Bearer " authorization rest e
    ∙ ap (str_append "Bearer ") ((same_text rest token).0 h))

-- A request to import is let in exactly with the token after "Bearer ", or with the token alone,
-- unless that begins with "Bearer " itself.
pub bearer_matches_iff :
    (authorization token : String)
    → (bearer_matches authorization token ≡ true) ↔ (
        (authorization ≡ str_append "Bearer " token)
        ⊎ ((authorization ≡ token) × (after_prefix "Bearer " token ≡ none)))
unfolding bearer_matches
bearer_matches_iff authorization token = (
  prefix_cases authorization token (after_prefix "Bearer " authorization) refl,
  λ either. elim either [
    | inl e ↦
        rw (e, trim_prefix, after_prefix-append "Bearer " token) ((same_text token token).1 refl)
    | inr (e, bare) ↦
        (let none_cut : after_prefix "Bearer " authorization ≡ none = rw e bare in
          rw (trim_prefix, none_cut) ((same_text authorization token).1 e))
  ],
)

-- The token guards the endpoint: without it the importer is not called.
pub import_server_unauthorized :
    {E S : Type 0} (w : Repository E S) (config : Config) (r : Request) (s : S)
    → bearer_matches r.authorization config.integration_token ≡ false
    → ((import_server w config r s).1 ≡ s)
      × ((import_server w config r s).0 ≡ (
          if str_eq r.method "POST"
          then failure 401 "unauthorized"
          else failure 405 "method not allowed"))
unfolding import_server
import_server_unauthorized w config r s h = ground arith

module _ (uuid : String → Option String) (collates : String → String → Bool)
    (importer : String → Session → Result Error Server × Session) (now : ℕ)
    (parse_minute : String → Option ℕ) (user : String) (r : Request) (s : Session) where
  -- The response tells of no success, and what is committed is as it was.
  abbrev pub Denied : Response × Session → Type 0
  Denied told = (told.0 ≢ redirect 303 "/console") × (told.1.stored ≡ s.stored)

  saved-Denied :
      (given : Result Error (Unit {0}) × Session)
      → Refuses s given
      → Denied (saved (backend uuid collates importer now) given)
  unfolding backend
  saved-Denied (ok u, s') (e, h, k) = cc
  saved-Denied (err x, s') (e, h, k) = (λ f. cc f, k)

  -- A text that is no uuid, and a server that the user may not manage.
  abbrev Foreign : String → Type 0
  Foreign id = (u : String) → uuid id ≡ some u → may_manage u user s.stored ≡ false

  refused_with :
      (id : String) (read : Option String)
      (f : String → Session → Result Error (Unit {0}) × Session)
      → uuid id ≡ read
      → ((u : String) → uuid id ≡ some u → Refuses s (f u s))
      → Refuses s (with_uuid read f s)
  unfolding alone
  refused_with id none f e k = elim (Bool-cases (next_fault s.faults)) [
    | inl down ↦ rw down (refused, refl, refl)
    | inr up ↦ rw up (violation, refl, refl)
  ]
  refused_with id (some u) f e k = k u e

  module _ (id : String) (foreign : Foreign id) where
    enabled-Denied :
        (enabled : Bool)
        → Denied (
            saved
              (backend uuid collates importer now)
              ((backend uuid collates importer now).set_enabled id user enabled s))
    unfolding backend
    enabled-Denied enabled = saved-Denied _ (
        refused_with id (uuid id) _ refl
          λ u e. (settings_need_role now u user enabled "" 0 0 s (foreign u e)).0)

    channel-Denied :
        (channel : String)
        → Denied (
            saved
              (backend uuid collates importer now)
              ((backend uuid collates importer now).set_notification_channel id user channel s))
    unfolding backend
    channel-Denied channel = saved-Denied _ (
        refused_with id (uuid id) _ refl
          λ u e. (settings_need_role now u user false channel 0 0 s (foreign u e)).1)

    window-Denied :
        (start end : Option ℕ)
        → Denied (set_window (backend uuid collates importer now) id user start end s)
    unfolding backend
    window-Denied none end = (λ h. cc h, refl)
    window-Denied (some a) none = (λ h. cc h, refl)
    window-Denied (some a) (some b) = elim (Bool-cases (ltb a b)) [
      | inl e ↦ rw e (
          saved-Denied _ (
            refused_with id (uuid id) _ refl
              λ u k. (settings_need_role now u user false "" a b s (foreign u k)).2))
      | inr e ↦ rw e (λ h. cc h, refl)
    ]

    action-Denied :
        (action : String) (form : String → String)
        → Denied
            (set_action (backend uuid collates importer now) parse_minute id user action form s)
    action-Denied action form = elim (Bool-cases (str_eq action "enabled")) [
      | inl e ↦ rw e (enabled-Denied (str_eq (form "enabled") "true"))
      | inr e ↦ elim (Bool-cases (str_eq action "channel")) [
        | inl f ↦ elim (Bool-cases (is_empty (trim_space (form "channel_id")))) [
          | inl g ↦ rw (e, f, g) (λ h. cc h, refl)
          | inr g ↦ rw (e, f, g) (channel-Denied (trim_space (form "channel_id")))
        ]
        | inr f ↦ elim (Bool-cases (str_eq action "maintenance")) [
          | inl g ↦
              rw (e, f, g)
                (window-Denied (parse_minute (form "starts_at")) (parse_minute (form "ends_at")))
          | inr g ↦ rw (e, f, g) (λ h. cc h, refl)
        ]
      ]
    ]

    form-Denied :
        (action : String) (form : Option (String → String))
        → Denied (
            on_setting_form (backend uuid collates importer now) parse_minute id user action form s)
    form-Denied action none = (λ h. cc h, refl)
    form-Denied action (some form) = action-Denied action form

  -- A signed-in user who may not manage the server that the path of a request names changes nothing by
  -- the request, whatever it asks and whichever calls fail, and is not told that it was saved.
  pub update_server-Denied :
      (id action : String)
      → split_on b'/' (trim_prefix "/console/servers/" r.path) ≡ id ∷ action ∷ []
      → ((u : String) → uuid id ≡ some u → may_manage u user s.stored ≡ false)
      → Denied (update_server (backend uuid collates importer now) parse_minute (some user) r s)
  unfolding update_server
  update_server-Denied id action parts foreign = elim (Bool-cases (not (str_eq r.method "POST"))) [
    | inl e ↦ rw e (λ h. cc h, refl)
    | inr e ↦ elim (Bool-cases (is_empty id)) [
      | inl f ↦ rw (e, parts, f) (λ h. cc h, refl)
      | inr f ↦ rw (e, parts, f) (form-Denied id foreign action r.form)
    ]
  ]
