-- ===== src/Integration/Client/Listing.antt =====
-- Which listings pass.
use voxellink_monitor.Common.{
  ℕ, ◌≤◌, String, ◌≡◌, inl, inr, Bool, true, false, List, [], ◌∷◌, arith, Result, ok, err, ◌==◌,
  Bool-cases, filter, All, is_empty,
}
use voxellink_monitor.Domain.{ServerMember, ImportedServer}
use voxellink_monitor.Integration.Client.{
  Client, Payload, is_transport, is_member, validate, on_payload, on_response, fetch_server,
}

-- What the rest of the program relies on in an imported listing.
pub record IsListing (s : ImportedServer) : Type 0 where
  pub has_id : is_empty s.external_id ≡ false
  pub has_name : is_empty s.name ≡ false
  pub has_hostname : is_empty s.hostname ≡ false
  pub port_low : 1 ≤ s.port
  pub port_high : s.port ≤ 65535
  pub transport_known : is_transport s.transport ≡ true
  pub members_known : All (λ (m : ServerMember). is_member m ≡ true) s.members

All-filter : {A : Type 0} (p : A → Bool) (xs : List A) → All (λ (x : A). p x ≡ true) (filter p xs)
All-filter p [] = tt
All-filter p (x ∷ xs) = elim (Bool-cases (p x)) [
  | inl e ↦ rw e (e, All-filter p xs)
  | inr e ↦ rw e (All-filter p xs)
]

-- A listing that passes has an id, a name, a host, a port from 1 to 65535, a known transport and
-- known roles; its members are those of the payload with an id and a known role, and the others
-- are dropped without an error.
pub validate-IsListing :
    (p : Payload) (s : ImportedServer)
    → validate p ≡ ok s
    → IsListing s × (s.members ≡ filter is_member p.members)
unfolding validate
validate-IsListing p s h =
    let kept : s.members ≡ filter is_member p.members = ground arith in
    (
      record {
        has_id = ground arith;
        has_name = ground arith;
        has_hostname = ground arith;
        port_low = ground arith;
        port_high = ground arith;
        transport_known = ground arith;
        members_known = rw kept (All-filter is_member p.members);
      },
      kept,
    )

on_payload-IsListing :
    (r : Result String Payload) (s : ImportedServer) → on_payload r ≡ ok s → IsListing s
on_payload-IsListing (ok p) s h = (validate-IsListing p s h).0
on_payload-IsListing (err e) s h = cc

module _ {Body : Type 0} (http : String → String → Result String (ℕ × Body))
    (json : Body → Result String Payload) (path_escape : String → String) where
  on_response-IsListing :
      (r : Result String (ℕ × Body)) (s : ImportedServer)
      → on_response http json path_escape r ≡ ok s
      → IsListing s
  on_response-IsListing (err e) s h = cc
  on_response-IsListing (ok (status, body)) s h = elim (Bool-cases (status == 200)) [
    | inl e ↦ on_payload-IsListing (json body) s (rw e at h)
    | inr e ↦ absurd (ground arith)
  ]

-- Whatever the API answers, what FetchServer returns is a listing.
pub fetch_server-IsListing :
    {Body : Type 0} (http : String → String → Result String (ℕ × Body))
    (json : Body → Result String Payload) (path_escape : String → String) (c : Client)
    (external_id : String) (s : ImportedServer)
    → fetch_server http json path_escape c external_id ≡ ok s
    → IsListing s
unfolding fetch_server
fetch_server-IsListing http json path_escape c external_id s h =
    on_response-IsListing http json path_escape (http _ _) s h
