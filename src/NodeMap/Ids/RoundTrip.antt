-- ===== src/NodeMap/Ids/RoundTrip.antt =====
-- What `format_nsu_node_id` writes, `parse_node_id` reads back, whatever the URI holds.
use zelos_extension_opcua.Prelude.{
  ℕ, ◌≡◌, true, List, [], ◌∷◌, ltb, if◌then◌else◌, ◌==◌, nat_eq, all_of, ◌>>=◌, Text, codes,
  text_eq,
}
use zelos_extension_opcua.NodeMap.Ids.{Codecs}

-- ASCII bytes are their own UTF-8 decoding.
pub record DecodesAscii (u : Codecs) : Type 0 where
  pub decode_ascii : (bs : List ℕ) → all_of (λ b. ltb b 128) bs ≡ true → u.decode_utf8 bs ≡ bs

-- One character as the URI is written.
abbrev quoted : ℕ → Text
quoted c = if c == b'%' then codes "%25" else if c == b';' then codes "%3B" else c ∷ []
