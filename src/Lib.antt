-- ===== src/Lib.antt =====
-- The zelos OPC UA extension: a client that reads the variables of OPC UA servers into a trace.
-- This library models its own logic, in the files below, and states what that logic promises.
-- Paths are from the root of the repository; the Python files but main.py are in
-- zelos_extension_opcua/.
--
-- The parts, and how they interact: the configuration (`Config`) gives the arguments of one
-- client per server; a client checks its security settings (`Client.Security`), connects
-- (`Client.Connect`), resolves the node ids (`NodeMap.Ids`) of its node map (`NodeMap.Map`) or
-- of what discovery finds (`Discovery.Walk`, by its `Discovery.Filter`), describes
-- (`Discovery.Describe`) and names (`Discovery.Naming`), subscribes to its nodes or polls them
-- (`Client.Start`, `Client.Transport`), takes in the server's Publish responses
-- (`Client.Publish`), converts values (`Client.Values`) and logs rows (`Client.Rows`), while its
-- loop (`Client.Loop`) runs the periodic requests (`Client.Schedule`, `Client.Sweep`) and
-- reconnects, resuming or closing the session it left (`Client.Session`), and a subscription
-- that fails is replaced (`Client.Recovery`). The actions (`Actions`) list nodes and write to
-- one by its name, and `Autoconfig` checks or finds the servers of a configuration before it is
-- run.
--
--   Prelude        shared lists, dicts (association lists in insertion order), text (a list of
--                  character codes), integers, and the result of code that raises
--   NodeMap.Ids    node_map.py parse_node_id, format_nsu_node_id; client.py parse_node_id_to_ua,
--                  uses_nsu
--   NodeMap.Node   node_map.py Node and the datatypes
--   NodeMap.Map    node_map.py NodeMap: from_dict, to_dict, nodes, get_by_name
--   Discovery.Filter   discovery.py _match, _below, PathFilter
--   Discovery.Reading  discovery.py read_many
--   Discovery.Browse   discovery.py _browse_batch
--   Discovery.Walk discovery.py walk
--   Discovery.Subtypes discovery.py integer_subtypes, _Counter.supertypes
--   Discovery.Datatypes    discovery.py value_of, declared_datatype, field_datatype
--   Discovery.Describe discovery.py describe
--   Discovery.Naming   discovery.py assign_names, vendor_segments, node_id_string
--   Discovery.Discover discovery.py discover, operation_limits
--   Client.Values  client.py coerce_text, render_text, decode_value, encode_value
--   Client.Security    client.py validate_security, is_trusted, reject, trust,
--                  certificate_problems, _apply_security
--   Client.Connect client.py connect, _namespace_array
--   Client.Session client.py _ensure_connected, _detach, _resume_on_open
--   Client.Transport   client.py _subscribe and _Sub
--   Client.Start   client.py _start_transport
--   Client.Publish client.py _publish_callback (deliver, on_publish) and _republish
--   Client.Rows    client.py _log_samples
--   Client.Loop    client.py _run_async and _Job
--   Client.Schedule    client.py _schedule
--   Client.Sweep   client.py _sweep
--   Client.Recovery    client.py _recreate, _poll_everything
--   Config         cli/app.py resolve_servers, _inherit, reject_legacy_shape, trace_name
--   Autoconfig     autoconfig.py _endpoints, _lds_urls, _offers, _security, _server_entry; client.py
--                  offered_security
--   Autoconfig.Report  autoconfig.py _Report, check_servers, probe
--   Actions        actions.py _get_client, _get_node, _run, write_named_node; client.py
--                  write_node_value, write_node, _check_writable
--   Actions.Listing    actions.py _clients_for, list_nodes, list_writable_nodes; client.py
--                  known_writable_nodes
--   Diagnostics    diagnostics.py _check_array_length, _guarded, watch_loop
--   Tests          the theorems applied to concrete inputs
--
-- A handler that awaits is modelled as one step, with the answers of the server as an argument.
-- Times and intervals are whole milliseconds (an interval of a map may be infinite or NaN too),
-- stamps natural numbers. Floats, certificates,
-- `fnmatchcase`, SHA-1, URL parsing, the decoding of GUIDs, base64 and UTF-8, and the SDK's name
-- sanitizer are parameters. `chunks` runs on the length of its list, the pages of a Browse on
-- the greatest number of BrowseNext requests of a batch, and the walk on its rounds, of which
-- one more than there are nodes is enough; the search for a free name runs on two rounds more
-- than there are names taken, and the doubling of the memory mark on a round per byte and one
-- more; the levels of a datatype's parents are eight, as in the code.
--
-- Not modelled: the asyncua library and its network I/O, the generation of certificates, files
-- and logging, the command line (main.py), the other actions, mDNS (autoconfig.py), the stack
-- dumps and the patching of asyncua (diagnostics.py), the parts of a connect that
-- `Client.Connect` takes as a whole, and the demo servers, which are simulated devices. These
-- are I/O, or calls of the libraries.
pub mod Prelude
pub mod NodeMap
pub mod Discovery
pub mod Client
pub mod Config
pub mod Actions
pub mod Autoconfig
pub mod Diagnostics
mod Tests
