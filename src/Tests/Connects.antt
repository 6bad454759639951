-- ===== src/Tests/Connects.antt =====
-- Connecting.
use zelos_extension_opcua.Client.Connect.{resumed_one, Meeting, Session}
use zelos_extension_opcua.Prelude.{true, false, none, some, List, [], ◌∷◌, Text, codes}

abbrev known_array : List Text
known_array = codes "http://opcfoundation.org/UA/" ∷ codes "urn:plc" ∷ []

abbrev resumed_meeting : Meeting
resumed_meeting = record {
  opened = resumed_one;
  limits_read = true;
  array = some known_array;
  discovered = some false;
  uses_uris = true;
  nodes_resolved = true;
  started = none;
}

abbrev lost_session : Session
lost_session = record {
  discovery = true;
  connected = false;
  ready = true;
  ever_connected = true;
  namespaces = some known_array;
  subs = 4 ∷ [];
}
