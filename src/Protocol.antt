-- ===== src/Protocol.antt =====
-- crates/machine-fabric-protocol/src/lib.rs: requests, responses and their constructors. A payload is
-- a value of the parameter `Value`; the text of a new UUID is an argument.
use machine_fabric.Base.{String, ◌≡◌, refl, Bool, true, false, Option, none, some, List, [], ◌∷◌}
use machine_fabric.Tasks.Table.{◌⊕◌}

abbrev pub rpc_version : String
rpc_version = "machine-fabric.dev/v1"

pub record Request (Value : Type 0) : Type 0 where
  pub api_version : String
  pub request_id : String
  pub correlation_id : Option String
  pub parent_request_id : Option String
  pub action : String
  pub params : Value

pub record RpcError (Value : Type 0) : Type 0 where
  pub code : String
  pub message : String
  pub retryable : Bool
  pub details : Value

pub record Response (Value : Type 0) : Type 0 where
  pub ok : Bool
  pub api_version : String
  pub request_id : String
  pub result : Option Value
  pub error : Option (RpcError Value)

abbrev pub or_id : Option String → String → String
or_id none id = id
or_id (some correlation) id = correlation

module _ {Value : Type 0} where
  unfoldable pub new_request : String → Value → String → Request Value
  new_request action params uuid = record {
    api_version = rpc_version;
    request_id = "req_" ⊕ uuid;
    correlation_id = some ("req_" ⊕ uuid);
    parent_request_id = none;
    action = action;
    params = params;
  }

  unfoldable pub child : Request Value → String → Value → String → Request Value
  unfolding new_request
  child parent action params uuid = record (new_request action params uuid) {
    correlation_id = some (or_id parent.correlation_id parent.request_id);
    parent_request_id = some parent.request_id;
  }

  unfoldable pub success : String → Value → Response Value
  success request_id result = record {
    ok = true;
    api_version = rpc_version;
    request_id = request_id;
    result = some result;
    error = none;
  }

  unfoldable pub failure : String → RpcError Value → Response Value
  failure request_id error = record {
    ok = false;
    api_version = rpc_version;
    request_id = request_id;
    result = none;
    error = some error;
  }

  unfoldable pub rpc_error : Value → String → String → RpcError Value
  rpc_error null code message = record {
    code = code;
    message = message;
    retryable = false;
    details = null;
  }

  -- A chain of child requests: for each the action, the parameters and the text of its UUID.
  pub descendant : Request Value → List (String × Value × String) → Request Value
  descendant request [] = request
  descendant request ((action, params, uuid) ∷ rest) =
      descendant (child request action params uuid) rest

  -- Every request of a chain of children has the correlation id of the first one, which is the first
  -- one's request id where it has none.
  pub descendant-correlation :
      (request : Request Value) (calls : List (String × Value × String))
      → or_id (descendant request calls).correlation_id (descendant request calls).request_id
        ≡ or_id request.correlation_id request.request_id
  unfolding descendant child
  descendant-correlation request [] = refl
  descendant-correlation request ((action, params, uuid) ∷ rest) =
      descendant-correlation (child request action params uuid) rest
