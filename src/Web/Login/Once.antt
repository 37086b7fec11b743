-- ===== src/Web/Login/Once.antt =====
-- A login that has begun is good for one return, within ten minutes.
use voxellink_monitor.Common.{
  ℕ, ◌+◌, ◌*◌, String, ◌≡◌, refl, ◌∙◌, false, none, some, List, [], ◌∷◌, arith, str_eq, eq_iff, ltb,
  if◌then◌else◌, All,
}
use text.Mathlib.TextPositions.{eq_refl}
use voxellink_monitor.Store.Tables.{second}
use voxellink_monitor.Web.Request.{Request, Config}
use voxellink_monitor.Web.Session.{Signer}
use voxellink_monitor.Web.Login.{
  States, lookup_state, delete_state, consume_state, login, Answer, callback,
}

lookup-delete_state :
    (k j : String) (states : States)
    → lookup_state k (delete_state j states) ≡ (if str_eq j k then none else lookup_state k states)
unfolding lookup_state delete_state
lookup-delete_state k j [] = ground arith
lookup-delete_state k j ((i, at) ∷ rest) =
    ground (arith, eq_iff i j, eq_iff i k, eq_iff j k, lookup-delete_state k j rest)

-- What comes to the two handlers: a login with the token that was drawn, and a return from Discord.
pub data Event : Type 0 where
  begins : ℕ → String → Event
  returns : ℕ → Request → Event

abbrev pub state_of : Event → String
state_of (begins at state) = state
state_of (returns at r) = r.query "state"

-- No event of the list is about a login.
abbrev pub Spares : String → List Event → Type 0
Spares state = All (λ e. str_eq (state_of e) state ≡ false)

module _ (encode : List (String × String) → String) (exchange identify : String → Answer)
    (p : Signer) (config : Config) where
  abbrev after : Event → States → States
  after (begins at state) states = (login encode config at (some state) states).1
  after (returns at r) states = (callback exchange identify p config at r states).1

  abbrev pub run_events : List Event → States → States
  run_events [] states = states
  run_events (e ∷ events) states = run_events events (after e states)

  lookup-after :
      (k : String) (e : Event) (states : States)
      → str_eq (state_of e) k ≡ false
      → lookup_state k (after e states) ≡ lookup_state k states
  unfolding login callback lookup_state
  lookup-after k (begins at state) states h = rw (h, lookup-delete_state k state states, h)
  lookup-after k (returns at r) states h = rw (lookup-delete_state k (r.query "state") states, h)

  lookup-run_events :
      (k : String) (events : List Event) (states : States)
      → Spares k events
      → lookup_state k (run_events events states) ≡ lookup_state k states
  lookup-run_events k [] states h = refl
  lookup-run_events k (e ∷ events) states (h, hs) =
      lookup-run_events k events (after e states) hs ∙ lookup-after k e states h

  lookup-login :
      (at : ℕ) (state : String) (states : States)
      → lookup_state state (login encode config at (some state) states).1 ≡ some (at + 600 * second)
  unfolding login lookup_state
  lookup-login at state states = rw eq_refl

  lookup-consume :
      (k : String) (now : ℕ) (states : States)
      → lookup_state k (consume_state k now states).1 ≡ none
  unfolding consume_state
  lookup-consume k now states = rw (lookup-delete_state k k states, eq_refl)

  -- Whatever other logins and returns come between, a login that began is accepted upon its return
  -- exactly if that comes before ten minutes are over; and after one return it is accepted no
  -- more, at any time.
  pub login-accepted_once :
      (state : String) (began now later : ℕ) (before between : List Event) (states : States)
      → Spares state before
      → Spares state between
      → let started = run_events before (login encode config began (some state) states).1 in
        let (accepted, states') = consume_state state now started in
        (accepted ≡ ltb now (began + 600 * second))
        × ((consume_state state later (run_events between states')).0 ≡ false)
  login-accepted_once state began now later before between states h k =
      let started = run_events before (login encode config began (some state) states).1 in
      let found : lookup_state state started ≡ some (began + 600 * second) =
        lookup-run_events state before _ h ∙ lookup-login began state states in
      let gone : lookup_state state (run_events between (consume_state state now started).1)
          ≡ none =
        lookup-run_events state between _ k ∙ lookup-consume state now started in
      (unfold consume_state in rw found, unfold consume_state in rw gone)
