-- ===== src/Peer/Greetings.antt =====
-- crates/machine-fabric-peer/src/connection.rs: when a greeting is accepted.
use machine_fabric.Base.{
  ℕ, ◌≤◌, if◌then◌else◌, String, ◌≡◌, refl, sym, ap, ap₂, ◌↔◌, Bool, true, false, ◌&&◌, not, Option,
  none, some, List, [], ◌∷◌, any, All, length, ltb, ok, err, ◌>>◌, seq-ok, ◌==◌, eq_iff, eq_refl,
  arith, Bool-cases, inl, inr,
}
use machine_fabric.Peer.Frame.{ChannelBinding, Greeting}
use machine_fabric.Peer.Channel
use machine_fabric.Peer.Channel.{PeerProtocol, legacy_v1, scoped_v2}
use machine_fabric.Peer.Config.{
  PeerConfig, is_valid_name, has_service, each_service, validate_services, validate_name,
  validate_lease, validate,
}
use machine_fabric.Peer.Config
use machine_fabric.Peer.Handshake.{
  Handshake, protocol_name, judged, greeting, established, same_binding, refuses,
}

each_service-valid :
    (seen services : List String)
    → each_service seen services ≡ ok tt
    → any (λ role. not (is_valid_name role)) services ≡ false
unfolding each_service
each_service-valid seen [] h = refl
each_service-valid seen (service ∷ services) h =
    ground (arith, h, each_service-valid (service ∷ seen) services)

validate_services-ok :
    (services : List String)
    → validate_services services ≡ ok tt
    → (ltb 64 (length services) ≡ false) × (any (λ role. not (is_valid_name role)) services ≡ false)
unfolding validate_services
validate_services-ok services h =
    (ground (arith, h), ground (arith, h, each_service-valid [] services))

provided-any :
    (services required : List String)
    → (any (λ role. not (has_service services role)) required ≡ false)
      ↔ All (λ role. has_service services role ≡ true) required
provided-any services [] = ((λ h. tt), λ h. refl)
provided-any services (role ∷ required) = (
  λ h. (ground (arith, h), (provided-any services required).0 (ground (arith, h))),
  λ h. ground (arith, h.0, (provided-any services required).1 h.1),
)

protocol_name-eq : (a b : PeerProtocol) → protocol_name a == protocol_name b ≡ true → a ≡ b
protocol_name-eq legacy_v1 legacy_v1 h = refl
protocol_name-eq scoped_v2 scoped_v2 h = refl
protocol_name-eq legacy_v1 scoped_v2 h = absurd (cc h)
protocol_name-eq scoped_v2 legacy_v1 h = absurd (cc h)

module _ {Value : Type 0} (is_object : Value → Bool) where
  validate-services :
      (config : PeerConfig Value) (instant now : ℕ)
      → validate is_object config instant now ≡ ok tt
      → validate_services config.services ≡ ok tt
  unfolding validate
  validate-services config instant now h =
      let names = validate_name config.local_id >> validate_name config.expected_peer_id in
      let own = names >> validate_services config.services in
      let both = own >> validate_services config.required_peer_services in
      let leased =
        validate_lease is_object config.protocol config.binding config.lease instant now in
      let (leased_ok, _) = seq-ok (both >> leased) _ tt h in
      let (both_ok, _) = seq-ok both leased tt leased_ok in
      let (own_ok, _) = seq-ok own (validate_services config.required_peer_services) tt both_ok in
      (seq-ok names (validate_services config.services) tt own_ok).1

module _ {Value : Type 0} (same_value : Value → Value → Bool)
    (same : (a b : Value) → (same_value a b ≡ true) ↔ (a ≡ b)) where
  scopes :
      (a b : ChannelBinding Value)
      → a.lease_id == b.lease_id && same_value a.scope b.scope ≡ true
      → a ≡ b
  scopes a b h =
      let ids : a.lease_id ≡ b.lease_id = ground (arith, h, eq_iff a.lease_id b.lease_id) in
      let values : a.scope ≡ b.scope = (same a.scope b.scope).0 (ground (arith, h)) in
      ap₂ (λ id scope. record { lease_id = id; scope = scope }) ids values

  same_binding_refl : (a : Option (ChannelBinding Value)) → same_binding same_value a a ≡ true
  same_binding_refl none = refl
  same_binding_refl (some a) = rw (eq_refl a.lease_id, (same a.scope a.scope).1 refl) refl

  same_binding-eq :
      (a b : Option (ChannelBinding Value)) → same_binding same_value a b ≡ true → a ≡ b
  same_binding-eq none none h = refl
  same_binding-eq none (some b) h = absurd (cc h)
  same_binding-eq (some a) none h = absurd (cc h)
  same_binding-eq (some a) (some b) h = ap some (scopes a b h)

-- What one side says is what the other wants to hear.
pub record Suits {Value : Type 0} (speaker listener : PeerConfig Value) : Type 0 where
  pub same_protocol : speaker.protocol ≡ listener.protocol
  pub expected : speaker.local_id ≡ listener.expected_peer_id
  pub bound : speaker.binding ≡ listener.binding
  pub provided :
      All (λ role. has_service speaker.services role ≡ true) listener.required_peer_services

-- A side that has come through the handshake with another.
pub record IsReady {Value : Type 0} (state : Channel.State Value) (other : PeerConfig Value)
    : Type 0 where
  pub not_closed : state.closed ≡ none
  pub ready : state.ready ≡ true
  pub services : state.remote_services ≡ other.services
  pub gzip : state.response_gzip ≡ true

pub established-IsReady :
    {Value : Type 0} (state : Channel.State Value) (config : PeerConfig Value)
    → state.closed ≡ none
    → IsReady (established state (greeting config true)) config
established-IsReady state config h =
    rw h (record { not_closed = refl; ready = refl; services = refl; gzip = refl })

module _ {Value : Type 0} (is_object : Value → Bool) (same_value : Value → Value → Bool)
    (same : (a b : Value) → (same_value a b ≡ true) ↔ (a ≡ b)) where
  Suits-accepted :
      (speaker listener : PeerConfig Value) (gzip : Bool) (instant now : ℕ)
      → validate is_object speaker instant now ≡ ok tt
      → Suits speaker listener
      → refuses same_value listener (greeting speaker gzip) ≡ false
  unfolding refuses
  Suits-accepted speaker listener gzip instant now valid s =
      let services =
        validate_services-ok speaker.services
          (validate-services is_object speaker instant now valid) in
      let named : protocol_name speaker.protocol == protocol_name listener.protocol ≡ true =
        rw s.same_protocol (eq_refl (protocol_name listener.protocol)) in
      let known : speaker.local_id == listener.expected_peer_id ≡ true =
        rw s.expected (eq_refl listener.expected_peer_id) in
      let bound : same_binding same_value speaker.binding listener.binding ≡ true =
        rw s.bound (same_binding_refl same_value same listener.binding) in
      let provided = (provided-any speaker.services listener.required_peer_services).1 s.provided in
      rw (named, known, bound, services.0, provided, services.1) refl

  accepted-Suits :
      (speaker listener : PeerConfig Value) (gzip : Bool)
      → refuses same_value listener (greeting speaker gzip) ≡ false
      → Suits speaker listener
  unfolding refuses
  accepted-Suits speaker listener gzip h = record {
    same_protocol = protocol_name-eq speaker.protocol listener.protocol (ground (arith, h));
    expected = (eq_iff speaker.local_id listener.expected_peer_id).0 (ground (arith, h));
    bound = same_binding-eq same_value same speaker.binding listener.binding (ground (arith, h));
    provided =
        (provided-any speaker.services listener.required_peer_services).0 (ground (arith, h));
  }

  judged-ok :
      (config : PeerConfig Value) (g k : Greeting Value)
      → judged same_value config (some g) ≡ ok k
      → (refuses same_value config g ≡ false) × (g ≡ k)
  judged-ok config g k h = elim (Bool-cases (refuses same_value config g)) [
    | inl p ↦ absurd (cc (h, p))
    | inr p ↦ (p, cc (h, p))
  ]

  pub greeted-Suits :
      (handshake : Handshake) (listener speaker : PeerConfig Value) (g : Greeting Value)
      → judged same_value listener (some (greeting speaker true)) ≡ ok g
      → Suits speaker listener × (g ≡ greeting speaker true)
  greeted-Suits handshake listener speaker g h =
      let (passes, same) = judged-ok listener (greeting speaker true) g h in
      (accepted-Suits speaker listener true passes, sym same)

  pub Suits-greeted :
      (speaker listener : PeerConfig Value) (instant now : ℕ)
      → validate is_object speaker instant now ≡ ok tt
      → Suits speaker listener
      → judged same_value listener (some (greeting speaker true)) ≡ ok (greeting speaker true)
  Suits-greeted speaker listener instant now valid s =
      let passes = Suits-accepted speaker listener true instant now valid s in rw passes refl

  pub validate-frames :
      (config : PeerConfig Value) (instant now : ℕ)
      → validate is_object config instant now ≡ ok tt
      → 1 ≤ config.limits.max_frame_bytes
  unfolding validate Config.valid_limits
  validate-frames config instant now h =
      let limited =
        (seq-ok _
          (if Config.valid_limits is_object config.limits then ok tt else err Config.invalid_limits)
          tt h).1 in
      ground (arith, limited)
