-- ===== src/Tests/Ids.antt =====
-- Node ids.
use zelos_extension_opcua.NodeMap.Ids.{Codecs}
use zelos_extension_opcua.Prelude.{
  ◌-◌, ◌&&◌, none, some, List, [], ◌∷◌, leb, if◌then◌else◌, Text, codes,
}

-- ASCII only; no GUID and no base64.
abbrev pub ascii : Codecs
ascii = record {
  decimal = λ c. if leb b'0' c && leb c b'9' then some (c - b'0') else none;
  uuid = λ s. none;
  b64decode = λ s. none;
  decode_utf8 = λ bs. bs;
}

abbrev plc : Text
plc = codes "urn:a;b%c"

abbrev namespaces : List Text
namespaces = codes "http://opcfoundation.org/UA/" ∷ codes "urn:x" ∷ codes "urn:y" ∷ []
