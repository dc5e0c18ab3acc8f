-- ===== src/Tests/Peer.antt =====
-- Runs of the lifetime of a channel, and the theorems about it at concrete inputs.
use machine_fabric.Base.{
  ℕ, ◌+◌, String, ◌≤◌, ◌≡◌, refl, true, none, List, [], ◌∷◌, is_some, ok, err,
}
use machine_fabric.Peer.Grant
use machine_fabric.Protocol.{Request}

-- A grant until wall-clock time 1000, made at instant 50 and wall-clock time 400.
abbrev grant : Grant.State
grant = record { deadline = 650; expires_at_ms = 1000; ended = none }

new-grant : Grant.new 100000 "lease" 1000 400 50 ≡ ok grant
unfolding Grant.new
new-grant = refl

abbrev calls : List Grant.Call
calls =
    Grant.renews 1500 60 100
    ∷ Grant.renews 1500 70 100
    ∷ Grant.asks 2000 300
    ∷ Grant.renews 9000 80 100
    ∷ []

run_exact_example :
    (grant.expires_at_ms ≤ (Grant.run 100000 grant calls).expires_at_ms)
    × ((Grant.run 100000 grant calls).deadline + grant.expires_at_ms
        ≡ grant.deadline + (Grant.run 100000 grant calls).expires_at_ms)
run_exact_example = Grant.run_exact 100000 grant calls

lapsed_grant : is_some (Grant.ended grant 660 100).0 ≡ true
unfolding Grant.ended
lapsed_grant = refl

ended_forever_example :
    let t = Grant.run 100000 (Grant.ended grant 660 100).1 calls in
    (is_some (Grant.ended t 0 0).0 ≡ true)
    × ((Grant.renew 100000 t 5000 0 0).0 ≡ err Grant.not_renewable)
    × (t.expires_at_ms ≡ grant.expires_at_ms)
ended_forever_example = Grant.ended_forever 100000 grant 660 100 calls 0 0 5000 lapsed_grant

-- A request that came without a correlation id, with the numbers as values.
abbrev foreign_request : Request ℕ
foreign_request = record {
  api_version = "machine-fabric.dev/v1";
  request_id = "req_7";
  correlation_id = none;
  parent_request_id = none;
  action = "status";
  params = 0;
}

abbrev follow_ups : List (String × ℕ × String)
follow_ups = ("ping", 1, "a") ∷ ("ping", 2, "b") ∷ []
