-- ===== src/Discord/Notifier/Prefix.antt =====
-- Which channels are told of a change.
use voxellink_monitor.Common.{
  String, ◌≡◌, refl, ap, ◌⊎◌, inl, inr, Option, none, some, List, [], ◌∷◌, ◌++◌, Result, ok, err,
  All, str_append,
}
use voxellink_monitor.Domain.{PublicStatus, Server}
use voxellink_monitor.Discord.Messages.{status_message}
use voxellink_monitor.Discord.Notifier.{Message, on_sent, send_all, on_channels, state_changed}

module _ (text : String) where
  abbrev pub messages : List String → List Message
  messages [] = []
  messages (channel ∷ rest) = (channel, text) ∷ messages rest

abbrev refusal : String → String → String
refusal channel e = str_append "send channel " (str_append channel (str_append ": " e))

module _ {S : Type 0} (channels : String → S → Result String (List String) × S)
    (refuses : Message → Option String) where
  -- No message is refused, all channels are told and there is no error; or those before the first
  -- whose message is refused are, and the error is that of this one.
  abbrev pub IsPrefix : String → List String → Result String (Unit {0}) × List Message → Type 0
  IsPrefix text ids given =
      ((given.0 ≡ ok tt)
        × All (λ (c : String). refuses (c, text) ≡ none) ids
        × (given.1 ≡ messages text ids))
      ⊎ ((before rest : List String) × (channel e : String) × (ids ≡ before ++ channel ∷ rest)
          × All (λ (c : String). refuses (c, text) ≡ none) before
          × (refuses (channel, text) ≡ some e)
          × (given.0 ≡ err (refusal channel e))
          × (given.1 ≡ messages text before))

  longer :
      (text channel : String) (ids : List String) (refused : Option String)
      (later : Result String (Unit {0}) × List Message)
      → refuses (channel, text) ≡ refused
      → IsPrefix text ids later
      → IsPrefix text (channel ∷ ids) (on_sent channels refuses (channel, text) refused later)
  longer text channel ids (some e) later said h =
      inr ([], ids, channel, e, refl, tt, said, refl, refl)
  longer text channel ids none (r, sent) said (inl (e, all, f)) =
      inl (e, (said, all), ap (λ (ms : List Message). (channel, text) ∷ ms) f)
  longer text channel ids none (r, sent) said
        (inr (before, rest, c, e, split, all, refused, told, f)) =
      inr (
        channel ∷ before,
        rest,
        c,
        e,
        ap (λ (l : List String). channel ∷ l) split,
        (said, all),
        refused,
        told,
        ap (λ (ms : List Message). (channel, text) ∷ ms) f,
      )

  send_all-IsPrefix :
      (text : String) (ids : List String) → IsPrefix text ids (send_all channels refuses text ids)
  unfolding send_all
  send_all-IsPrefix text [] = inl (refl, tt, refl)
  send_all-IsPrefix text (channel ∷ rest) =
      longer text channel rest (refuses (channel, text)) (send_all channels refuses text rest) refl
        (send_all-IsPrefix text rest)

  -- What StateChanged makes of the call that lists the channels.
  abbrev pub Tells :
      Server
      → PublicStatus
      → Result String (List String) × S
      → (Result String (Unit {0}) × List Message) × S
      → Type 0
  Tells server state listed given =
      (given.1 ≡ listed.1)
      × (((ids : List String) × (listed.0 ≡ ok ids)
            × IsPrefix (status_message server state) ids given.0)
          ⊎ ((e : String) × (listed.0 ≡ err e) × (given.0 ≡ (err e, []))))

  on_channels-Tells :
      (server : Server) (state : PublicStatus) (listed : Result String (List String) × S)
      → Tells server state listed (on_channels channels refuses server state listed)
  on_channels-Tells server state (err e, s) = (refl, inr (e, refl, refl))
  on_channels-Tells server state (ok ids, s) =
      (refl, inl (ids, refl, send_all-IsPrefix (status_message server state) ids))

  -- StateChanged tells all channels of the server, if no message is refused, or those before the
  -- first whose message is refused and returns that error; without the list of channels it tells
  -- none.
  pub state_changed-Tells :
      (server : Server) (state : PublicStatus) (s : S)
      → Tells server state (channels server.id s) (state_changed channels refuses server state s)
  unfolding state_changed
  state_changed-Tells server state s = on_channels-Tells server state (channels server.id s)
