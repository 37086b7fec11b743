-- ===== src/Transport/Ready.antt =====
-- The wait for the listener ends, and what a ping through the tunnel leaves.
use voxellink_monitor.Common.{
  ℕ, zero, suc, ◌+◌, ◌<◌, String, ◌≡◌, refl, ◌∙◌, subst, ◌⊎◌, inl, inr, Bool, true, false, Option,
  none, some, List, [], ◌∷◌, arith, Result, ok, err, ℤ, Bool-cases,
}
use voxellink_monitor.Domain.{probe_error, CheckResult}
use voxellink_monitor.Minecraft.Ping.{ping_java_endpoint}
use voxellink_monitor.Transport.{
  AccessTunnel, Wake, cancelled, expired, ticked, Round, WaitResult, on_round, wait_from,
  wait_for_listener, Tunnel, Step, started, pinged, killed, on_port, on_start, deferred, waited,
  command_of, ping,
}

abbrev is_ticked : Wake → Bool
is_ticked (cancelled e) = false
is_ticked expired = false
is_ticked ticked = true

-- The dial fails and the ticker is what wakes the wait.
abbrev pub goes_on : Round → Bool
goes_on round = elim round.dial_error [ none ↦ false | some e ↦ is_ticked round.wake ]

abbrev pub Settles : Round → Type 0
Settles round =
    (r : Result String (Unit {0})) × ((rest : WaitResult) → on_round round rest ≡ some r)

ending :
    (dial : Option String) (w : Wake)
    → goes_on (record { dial_error = dial; wake = w }) ≡ false
    → Settles (record { dial_error = dial; wake = w })
ending none w h = (ok tt, λ rest. refl)
ending (some e) (cancelled m) h = (err m, λ rest. refl)
ending (some e) expired h = (_, λ rest. refl)
ending (some e) ticked h = cc

going :
    (dial : Option String) (w : Wake)
    → goes_on (record { dial_error = dial; wake = w }) ≡ true
    → (rest : WaitResult) → on_round (record { dial_error = dial; wake = w }) rest ≡ rest
going none w h rest = cc
going (some e) (cancelled m) h rest = cc
going (some e) expired h rest = cc
going (some e) ticked h rest = refl

module _ (rounds : ℕ → Round) where
  abbrev Returns : ℕ → ℕ → Type 0
  Returns k i =
      (r : Result String (Unit {0})) × ((fuel : ℕ) → k < fuel → wait_from fuel rounds i ≡ some r)

  settled_here :
      (k i : ℕ) (r : Result String (Unit {0}))
      → ((rest : WaitResult) → on_round (rounds i) rest ≡ some r)
      → (fuel : ℕ) → k < fuel
      → wait_from fuel rounds i ≡ some r
  unfolding wait_from
  settled_here k i r settled zero enough = absurd (omega arith)
  settled_here k i r settled (suc fuel) enough = settled _

  settled_later :
      (k i : ℕ) (r : Result String (Unit {0}))
      → ((rest : WaitResult) → on_round (rounds i) rest ≡ rest)
      → ((fuel : ℕ) → k < fuel → wait_from fuel rounds (suc i) ≡ some r)
      → (fuel : ℕ) → suc k < fuel
      → wait_from fuel rounds i ≡ some r
  unfolding wait_from
  settled_later k i r passes back zero enough = absurd (omega arith)
  settled_later k i r passes back (suc fuel) enough = passes _ ∙ back fuel (omega arith)

  wait_from-Returns : (k i : ℕ) → goes_on (rounds (k + i)) ≡ false → Returns k i
  wait_from-Returns zero i h =
      let (r, settled) =
        ending (rounds i).dial_error (rounds i).wake
          (subst (λ (n : ℕ). goes_on (rounds n) ≡ false) (omega arith) h) in
      (r, settled_here zero i r settled)
  wait_from-Returns (suc k) i h = elim (Bool-cases (goes_on (rounds i))) [
    | inl e ↦
        let (r, back) =
          wait_from-Returns k (suc i)
            (subst (λ (n : ℕ). goes_on (rounds n) ≡ false) (omega arith) h) in
        (r, settled_later k i r (going (rounds i).dial_error (rounds i).wake e) back)
    | inr e ↦
        let (r, settled) = ending (rounds i).dial_error (rounds i).wake e in
        (r, settled_here (suc k) i r settled)
  ]

module _ (decode : List ℕ → Result String (ℤ × ℤ)) (now : ℕ) (o : Tunnel) (t : AccessTunnel)
    (hostname : String) where
  -- No process was started, or it was and is killed at the end; in between comes at most the ping of
  -- the server. Without that ping the result is PROBE_ERROR.
  abbrev pub IsClean : CheckResult × List Step → Type 0
  IsClean given =
      let command = command_of decode now o t hostname in
      ((given.0.outcome ≡ probe_error)
        × ((given.1 ≡ []) ⊎ (given.1 ≡ started command ∷ killed ∷ [])))
      ⊎ ((port : ℕ) × (o.local_port ≡ ok port)
          × (given.0 ≡ ping_java_endpoint decode now (o.wire port))
          × (given.1 ≡ started command ∷ pinged port ∷ killed ∷ []))

  port-IsClean :
      (read : Result String ℕ)
      → o.local_port ≡ read
      → (given : CheckResult × List Step) × (deferred decode now o
            (command_of decode now o t hostname)
            (some (on_port decode now o read))
          ≡ some given)
        × IsClean given
  port-IsClean (err e) h = (_, refl, inl (refl, inr refl))
  port-IsClean (ok port) h = (_, refl, inr (port, h, refl, refl))

  ready-IsClean :
      (r : Result String (Unit {0}))
      → (given : CheckResult × List Step) × (deferred decode now o
            (command_of decode now o t hostname)
            (waited decode now o (some r))
          ≡ some given)
        × IsClean given
  ready-IsClean (err e) = (_, refl, inl (refl, inr refl))
  ready-IsClean (ok u) = port-IsClean o.local_port refl

  start-IsClean :
      (k : ℕ) (listen start : Option String)
      → Returns o.rounds k 0
      → (given : CheckResult × List Step) × ((fuel : ℕ)
          → k < fuel
          → on_start decode now o
              (command_of decode now o t hostname)
              (wait_from fuel o.rounds 0)
              listen
              start
            ≡ some given)
        × IsClean given
  start-IsClean k (some e) start back = (_, λ fuel enough. refl, inl (refl, inl refl))
  start-IsClean k none (some e) back = (_, λ fuel enough. refl, inl (refl, inl refl))
  start-IsClean k none none (r, back) =
      let (given, e, clean) = ready-IsClean r in
      (given, λ fuel enough. rw (back fuel enough) e, clean)

  -- If the wait for the listener does not go on forever, the ping through the tunnel returns, with
  -- any fuel beyond the round that ends it: a process that it started is killed at the end, and
  -- the server was pinged on the local port, or the result is PROBE_ERROR.
  pub ping-IsClean :
      (k fuel : ℕ)
      → goes_on (o.rounds k) ≡ false
      → k < fuel
      → (given : CheckResult × List Step) × (ping decode now o fuel t hostname ≡ some given)
        × IsClean given
  unfolding ping wait_for_listener
  ping-IsClean k fuel h enough =
      let (given, e, clean) = start-IsClean k o.listen_error o.start_error (
        wait_from-Returns o.rounds k 0
          (subst (λ (n : ℕ). goes_on (o.rounds n) ≡ false) (omega arith) h)) in
      (given, e fuel enough, clean)
