-- ===== src/Actions.antt =====
-- The actions on one node by name: `_get_client`, `_get_node`, `_run` and `write_named_node` of
-- zelos_extension_opcua/actions.py, with `write_node_value`, `write_node` and `_check_writable` of
-- zelos_extension_opcua/client.py. `access` is the CurrentWrite bit that the server answers for a
-- node, none where it cannot be read; `type_at` is the type of the value that it answers, if it has
-- one, or how the request fails; `put` is how the Write of a value and its type ends.
pub mod Permitted
pub mod Listing
use zelos_extension_opcua.Client.Values.{
  Floats, Value, text, ValueFault, value_error, type_error, overflow_error, coerce_text,
  encode_value,
}
use zelos_extension_opcua.NodeMap.Map.{NodeMap, MapError, get_by_name}
use zelos_extension_opcua.NodeMap.Node.{Datatype, Node}
use zelos_extension_opcua.NodeMap.Ids.{Codecs, strip}
use zelos_extension_opcua.Prelude.{
  ℕ, Bool, true, false, Option, none, some, [], ◌∷◌, if◌then◌else◌, nat_eq, Result, ok, raise, Dict,
  lookup, insert, Text, text_eq, is_empty,
}

-- What the actions read of a client, and its `_writable_cache`.
pub record ServerClient (F : Type 0) : Type 0 where
  pub name : Text
  pub node_map : Option (NodeMap F)
  pub discovery : Bool
  pub writable_cache : Dict Text Bool

-- The exceptions that `_run` tells apart.
pub data Failure : Type 0 where
  timed_out : Failure
  described : Failure
  undescribed : Failure

pub data ActionError : Type 0 where
  several_servers : ActionError
  unknown_server : ActionError
  no_node_map : ActionError
  unknown_node : ActionError
  lookup_failed : MapError → ActionError
  discovered_node : ActionError
  not_writable : ActionError
  detected_read_only : ActionError
  bad_value : ValueFault → ActionError
  outcome_unknown : ActionError
  passed_on : Failure → ActionError
  action_failed : ActionError

module _ {F : Type 0} where
  abbrev pub client_or : Option (ServerClient F) → Result ActionError (ServerClient F)
  client_or none = raise unknown_server
  client_or (some c) = ok c

  abbrev pub only_client : Dict Text (ServerClient F) → Result ActionError (ServerClient F)
  only_client ((name, c) ∷ []) = ok c
  only_client _ = raise several_servers

  -- `_get_client`
  unfoldable pub get_client :
      (Text → Text) → Dict Text (ServerClient F) → Text → Result ActionError (ServerClient F)
  get_client sanitize clients server =
      if is_empty server
      then only_client clients
      else client_or (lookup (sanitize (strip server)) clients)

  abbrev pub node_or : Result MapError (Option (Node F)) → Result ActionError (Node F)
  node_or (ok none) = raise unknown_node
  node_or (ok (some n)) = ok n
  node_or (raise e) = raise (lookup_failed e)

  abbrev pub node_in : Option (NodeMap F) → Text → Result ActionError (Node F)
  node_in none name = raise no_node_map
  node_in (some m) name = node_or (get_by_name m name)

  -- `_get_node`
  unfoldable pub get_node : ServerClient F → Text → Result ActionError (Node F)
  get_node c name = node_in c.node_map name

-- `_run`, for an exception, and whether a Write went out before it
unfoldable pub run_error : Bool → Failure → ActionError
run_error true timed_out = outcome_unknown
run_error false timed_out = passed_on timed_out
run_error sent described = passed_on described
run_error sent undescribed = action_failed

abbrev pub run_result : {V : Type 0} → V → Bool × Result Failure (Unit {0}) → Result ActionError V
run_result v (sent, ok t) = ok v
run_result v (sent, raise e) = raise (run_error sent e)

-- `_run`, for an exception that a value raises: a ValueError describes itself.
abbrev pub run_fault : ValueFault → ActionError
run_fault value_error = bad_value value_error
run_fault type_error = action_failed
run_fault overflow_error = action_failed

-- The types that `VARIANT_DATATYPES` has, and the others.
pub data VariantType : Type 0 where
  listed_type : Datatype → VariantType
  other_type : ℕ → VariantType

abbrev pub variant_datatype : Option VariantType → Option Datatype
variant_datatype none = none
variant_datatype (some (listed_type d)) = some d
variant_datatype (some (other_type n)) = none

module _ (u : Codecs) (fl : Floats) where
  -- A Write: its node, the value that it carries, and the type of it, if one is given.
  pub record Request : Type 0 where
    pub node_id : Text
    pub value : Value fl.F
    pub type_given : Option VariantType

  -- Whether the server was asked for the AccessLevel, and the cache.
  abbrev pub Seen : Type 0
  Seen = Bool × Dict Text Bool

  -- What an action does: its result, the Write that went out, whether the AccessLevel was asked
  -- for, and the cache after it.
  pub record Written : Type 0 where
    pub result : Result ActionError (Value fl.F)
    pub sent : Option Request
    pub asked : Bool
    pub cache : Dict Text Bool

  abbrev pub refuse : Seen → ActionError → Written
  refuse seen e = record { result = raise e; sent = none; asked = seen.0; cache = seen.1 }

  -- `_check_writable`: writable where the server does not say.
  abbrev pub check_writable : Option Bool → Bool
  check_writable none = true
  check_writable (some bit) = bit

  -- The cached answer, asked for once.
  abbrev pub detect : Option Bool → (Text → Option Bool) → Text → Dict Text Bool → Bool × Seen
  detect (some known) access id cache = (known, (false, cache))
  detect none access id cache =
      (check_writable (access id), (true, insert id (check_writable (access id)) cache))

  -- Text for a type of VARIANT_DATATYPES is coerced again.
  abbrev pub retyped : Value fl.F → Option Datatype → Result ValueFault (Value fl.F)
  retyped (text s) (some d) = coerce_text u fl s d
  retyped wire _ = ok wire

  module _ (access : Text → Option Bool) (type_at : Text → Result Failure (Option VariantType))
      (put : Request → Result Failure (Unit {0})) where
    abbrev pub put_value :
        Seen → Text → Value fl.F → Option VariantType → Result ValueFault (Value fl.F) → Written
    put_value seen id value given (raise e) = refuse seen (run_fault e)
    put_value seen id value given (ok out) =
        let request : Request = record { node_id = id; value = out; type_given = given } in
        record {
          result = run_result value (true, put request);
          sent = some request;
          asked = seen.0;
          cache = seen.1;
        }

    -- `write_node`, for the type of the value read first
    abbrev pub write_node :
        Seen → Text → Value fl.F → Value fl.F → Result Failure (Option VariantType) → Written
    write_node seen id value wire (raise e) = refuse seen (run_error false e)
    write_node seen id value wire (ok given) =
        put_value seen id value given (retyped wire (variant_datatype given))

    abbrev pub send : Seen → Node fl.F → Value fl.F → Result ValueFault (Value fl.F) → Written
    send seen n value (raise e) = refuse seen (run_fault e)
    send seen n value (ok wire) = write_node seen n.node_id value wire (type_at n.node_id)

    abbrev pub write_if : Bool × Seen → Node fl.F → Value fl.F → Written
    write_if (false, seen) n value = refuse seen detected_read_only
    write_if (true, seen) n value = send seen n value (encode_value u fl value n.datatype n.scale)

    -- `write_node_value`
    abbrev pub write_by : Option Bool → Dict Text Bool → Node fl.F → Value fl.F → Written
    write_by (some false) cache n value = refuse (false, cache) not_writable
    write_by (some true) cache n value = write_if (true, (false, cache)) n value
    write_by none cache n value =
        write_if (detect (lookup n.node_id cache) access n.node_id cache) n value

    abbrev pub write_typed : Dict Text Bool → Node fl.F → Result ValueFault (Value fl.F) → Written
    write_typed cache n (raise e) = refuse (false, cache) (bad_value e)
    write_typed cache n (ok value) = write_by n.writable cache n value

    abbrev pub is_read_only : Option Bool → Bool
    is_read_only (some false) = true
    is_read_only _ = false

    -- `write_named_node` for a client, once its node is looked for
    abbrev pub write_to : ServerClient fl.F → Text → Result ActionError (Node fl.F) → Written
    write_to c input (raise e) = refuse (false, c.writable_cache) e
    write_to c input (ok n) =
        if c.discovery
        then refuse (false, c.writable_cache) discovered_node
        else if is_read_only n.writable
        then refuse (false, c.writable_cache) not_writable
        else write_typed c.writable_cache n (coerce_text u fl input n.datatype)

    unfoldable pub write_named_node : ServerClient fl.F → Text → Text → Written
    write_named_node c name input = write_to c input (get_node c name)
