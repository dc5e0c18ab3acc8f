-- ===== src/Peer/Frame.antt =====
-- crates/machine-fabric-peer/src/connection.rs: the frames of a channel. A scope, a parameter and a
-- result are values of the parameter `Value`.
use machine_fabric.Base.{ℕ, String, Bool, Option, List}
use machine_fabric.Protocol.{Request, Response}

pub record ChannelBinding (Value : Type 0) : Type 0 where
  pub lease_id : String
  pub scope : Value

-- The fields of `Frame::Hello` and of `Frame::HelloAck`.
pub record Greeting (Value : Type 0) : Type 0 where
  pub protocol : String
  pub node_id : String
  pub roles : List String
  pub binding : Option (ChannelBinding Value)
  pub response_gzip : Bool

pub data Frame (Value : Type 0) : Type 0 where
  hello hello_ack : Greeting Value → Frame Value
  request : (id target_role : String) → Request Value → Frame Value
  response : (id : String) → Response Value → Frame Value
  response_gzip : (id : String) (expanded_bytes : ℕ) (payload : String) → Frame Value
  cancel : (id : String) → Frame Value
