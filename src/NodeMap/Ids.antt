-- ===== src/NodeMap/Ids.antt =====
-- Node id texts: `parse_node_id` and `format_nsu_node_id` of zelos_extension_opcua/node_map.py,
-- `parse_node_id_to_ua` and `uses_nsu` of zelos_extension_opcua/client.py, and what they use of the
-- standard library (`re`, `int`, `urllib.parse.unquote`, `str.replace`).
-- The Unicode digit table, `uuid.UUID`, strict base64 and the UTF-8 decoder are the fields of `Codecs`.
pub mod RoundTrip
pub mod Resolve
use zelos_extension_opcua.Prelude.{
  ℕ, zero, suc, ◌+◌, ◌-◌, ◌*◌, Bool, true, false, not, ◌&&◌, ◌||◌, Option, none, some, List, [],
  ◌∷◌, ◌++◌, ltb, leb, if◌then◌else◌, ◌==◌, nat_eq, Result, ok, ◌>>=◌, ◌>>◌, or_raise, Text, codes,
  text_eq, is_empty, has_no,
}
use zelos_extension_opcua.Prelude.Int.{ℤ, pos, negsuc}

-- What the parser asks of the standard library's tables and decoders.
pub record Codecs : Type 0 where
  -- the value of a Unicode decimal digit
  pub decimal : ℕ → Option ℕ
  -- `uuid.UUID(s).int`
  pub uuid : Text → Option ℕ
  -- `base64.b64decode(s, validate=True)`
  pub b64decode : Text → Option (List ℕ)
  -- `bytes.decode("utf-8", "replace")`
  pub decode_utf8 : List ℕ → Text

-- The reasons for a ValueError.
pub data IdError : Type 0 where
  bad_format bad_numeric bad_guid bad_base64 unknown_uri : IdError

-- An index for ns=, the decoded URI for nsu=.
pub data Namespace : Type 0 where
  index : ℕ → Namespace
  uri : Text → Namespace

pub data Identifier : Type 0 where
  str : Text → Identifier
  int : ℤ → Identifier
  guid : ℕ → Identifier
  opaque : List ℕ → Identifier

abbrev pub ParsedId : Type 0
ParsedId = Namespace × ℕ × Identifier

-- The longest prefix of characters that pass, and the rest.
unfoldable pub span : (ℕ → Bool) → Text → Text × Text
span p [] = ([], [])
span p (c ∷ s) = if p c then (c ∷ (span p s).0, (span p s).1) else ([], c ∷ s)

unfoldable pub strip_prefix : Text → Text → Option Text
strip_prefix [] s = some s
strip_prefix (c ∷ p) (d ∷ s) = if c == d then strip_prefix p s else none
strip_prefix (c ∷ p) [] = none

-- The groups of NODE_ID_PATTERN: the first two are alternatives.
pub data NsGroup : Type 0 where
  index_digits : Text → NsGroup
  uri_text : Text → NsGroup

abbrev pub Groups : Type 0
Groups = NsGroup × ℕ × Text

-- `(.+)$`: `.` is no newline, and `$` also stands before a newline that ends the text.
unfoldable pub match_rest : Text → Option Text
unfolding span
match_rest s =
    let (body, after) = span (λ c. not (c == b'\n')) s in
    if not (is_empty body) && (is_empty after || after == codes "\n") then some body else none

abbrev pub is_kind : ℕ → Bool
is_kind k = k == b's' || k == b'i' || k == b'g' || k == b'b'

-- `;([sigb])=(.+)$`
unfoldable pub match_tail : NsGroup → Text → Option Groups
match_tail ns (c ∷ k ∷ e ∷ s) =
    if c == b';' && is_kind k && e == b'='
    then elim (match_rest s) [ none ↦ none | some raw ↦ some (ns, k, raw) ]
    else none
match_tail ns _ = none

abbrev pub is_decimal : Codecs → ℕ → Bool
is_decimal u c = elim (u.decimal c) [ none ↦ false | some v ↦ true ]

abbrev pub match_index : Codecs → Text → Option Groups
match_index u s =
    let (digits, after) = span (is_decimal u) s in
    if is_empty digits then none else match_tail (index_digits digits) after

abbrev pub match_uri : Text → Option Groups
match_uri s =
    let (body, after) = span (λ c. not (c == b';')) s in
    if is_empty body then none else match_tail (uri_text body) after

-- NODE_ID_PATTERN.match: a text that begins with `ns=` does not begin with `nsu=`.
unfoldable pub match_node_id : Codecs → Text → Option Groups
unfolding span strip_prefix match_tail match_rest
match_node_id u s = elim (strip_prefix (codes "ns=") s) [
  | some after ↦ match_index u after
  | none ↦ elim (strip_prefix (codes "nsu=") s) [ some after ↦ match_uri after | none ↦ none ]
]

-- `int` of a run of digits.
unfoldable pub digits_value : Codecs → ℕ → Text → Option ℕ
digits_value u n [] = some n
digits_value u n (c ∷ s) = elim (u.decimal c) [
  | none ↦ none
  | some v ↦ digits_value u (n * 10 + v) s
]

-- Digits with single underscores between them.
unfoldable pub underscored : Codecs → Text → Option Text
underscored u [] = none
underscored u (c ∷ []) = if is_decimal u c then some (c ∷ []) else none
underscored u (c ∷ d ∷ s) = if not (is_decimal u c) then none else elim (d == b'_') [
  | true ↦ elim (underscored u s) [ none ↦ none | some t ↦ some (c ∷ t) ]
  | false ↦ elim (underscored u (d ∷ s)) [ none ↦ none | some t ↦ some (c ∷ t) ]
]

-- `str.isspace` of one character.
unfoldable pub is_space : ℕ → Bool
is_space c =
    (leb 9 c && leb c 13)
    || (leb 28 c && leb c 32)
    || c == 133
    || c == 160
    || c == 5760
    || (leb 8192 c && leb c 8202)
    || c == 8232
    || c == 8233
    || c == 8239
    || c == 8287
    || c == 12288

unfoldable pub strip_left : Text → Text
strip_left [] = []
strip_left (c ∷ s) = if is_space c then strip_left s else c ∷ s

unfoldable pub strip_right : Text → Text
strip_right [] = []
strip_right (c ∷ s) =
    let rest = strip_right s in if is_empty rest && is_space c then [] else c ∷ rest

-- `s.strip()`
abbrev pub strip : Text → Text
strip s = strip_right (strip_left s)

abbrev pub unsigned : Codecs → Text → Option ℕ
unsigned u s = elim (underscored u s) [ none ↦ none | some t ↦ digits_value u 0 t ]

abbrev pub negated : ℕ → ℤ
negated zero = pos 0
negated (suc n) = negsuc n

abbrev pub signed : Codecs → Text → Option ℤ
signed u [] = none
signed u (c ∷ s) =
    if c == b'-'
    then elim (unsigned u s) [ none ↦ none | some n ↦ some (negated n) ]
    else if c == b'+'
    then elim (unsigned u s) [ none ↦ none | some n ↦ some (pos n) ]
    else elim (unsigned u (c ∷ s)) [ none ↦ none | some n ↦ some (pos n) ]

-- `int(s)`, in base ten.
unfoldable pub parse_int : Codecs → Text → Option ℤ
unfolding strip_left strip_right is_space underscored digits_value
parse_int u s = signed u (strip s)

-- The number of a hexadecimal digit.
unfoldable pub hex_value : ℕ → Option ℕ
hex_value c =
    if leb b'0' c && leb c b'9'
    then some (c - b'0')
    else if leb b'A' c && leb c b'F'
    then some (c - b'A' + 10)
    else if leb b'a' c && leb c b'f'
    then some (c - b'a' + 10)
    else none

-- The byte that `%XY` stands for.
unfoldable pub escape : ℕ → ℕ → ℕ → Option ℕ
unfolding hex_value
escape p x y = if not (p == b'%') then none else elim (hex_value x) [
  | none ↦ none
  | some h ↦ elim (hex_value y) [ none ↦ none | some l ↦ some (h * 16 + l) ]
]

-- `unquote_to_bytes`
unfoldable pub unescape : Text → List ℕ
unescape [] = []
unescape (a ∷ []) = a ∷ []
unescape (a ∷ b ∷ []) = a ∷ b ∷ []
unescape (a ∷ b ∷ c ∷ s) = elim (escape a b c) [
  | some v ↦ v ∷ unescape s
  | none ↦ a ∷ unescape (b ∷ c ∷ s)
]

-- Each run of ASCII characters is unescaped and decoded on its own.
unfoldable pub unquote_runs : Codecs → Text → Text → Text
unquote_runs u run [] = u.decode_utf8 (unescape run)
unquote_runs u run (c ∷ s) =
    let more = unquote_runs u (run ++ c ∷ []) s in
    let next = unquote_runs u [] s in
    if ltb c 128 then more else u.decode_utf8 (unescape run) ++ c ∷ next

-- `urllib.parse.unquote(s)`
unfoldable pub unquote : Codecs → Text → Text
unquote u s = if has_no b'%' s then s else unquote_runs u [] s

-- `s.replace(c, new)` for one character.
unfoldable pub replace_char : ℕ → Text → Text → Text
replace_char k new [] = []
replace_char k new (c ∷ s) =
    if c == k then new ++ replace_char k new s else c ∷ replace_char k new s

-- The identifier, typed by its letter.
unfoldable pub parse_identifier : Codecs → ℕ → Text → Result IdError Identifier
parse_identifier u k raw =
    if k == b'i'
    then (do n ← or_raise (parse_int u raw) bad_numeric; ok (int n))
    else if k == b'g'
    then (do n ← or_raise (u.uuid raw) bad_guid; ok (guid n))
    else if k == b'b'
    then (do bs ← or_raise (u.b64decode raw) bad_base64; ok (opaque bs))
    else ok (str raw)

-- `int(index) if index is not None else unquote(uri)`
unfoldable pub namespace_of : Codecs → NsGroup → Result IdError Namespace
namespace_of u (index_digits ds) = do n ← or_raise (digits_value u 0 ds) bad_format; ok (index n)
namespace_of u (uri_text s) = ok (uri (unquote u s))

unfoldable pub parse_node_id : Codecs → Text → Result IdError ParsedId
unfolding match_node_id namespace_of parse_identifier
parse_node_id u node_id = do
  (ns, k, raw) ← or_raise (match_node_id u node_id) bad_format
  namespace ← namespace_of u ns
  identifier ← parse_identifier u k raw
  ok (namespace, k, identifier)

abbrev pub quote_uri : Text → Text
quote_uri s = replace_char b';' (codes "%3B") (replace_char b'%' (codes "%25") s)

unfoldable pub format_nsu_node_id : Text → Text → Text
format_nsu_node_id u identifier = codes "nsu=" ++ quote_uri u ++ b';' ∷ identifier

-- `namespaces.index(uri)`
unfoldable pub index_of : Text → List Text → Option ℕ
index_of s [] = none
index_of s (t ∷ ts) =
    if t == s then some 0 else elim (index_of s ts) [ none ↦ none | some i ↦ some (suc i) ]

-- An asyncua NodeId: its namespace index and its identifier.
pub record NodeId : Type 0 where
  pub ns : ℕ
  pub identifier : Identifier

abbrev pub resolve_namespace : List Text → Namespace → Result IdError ℕ
resolve_namespace namespaces (index n) = ok n
resolve_namespace namespaces (uri s) = or_raise (index_of s namespaces) unknown_uri

unfoldable pub parse_node_id_to_ua : Codecs → Text → List Text → Result IdError NodeId
parse_node_id_to_ua u s namespaces = do
  (namespace, _, identifier) ← parse_node_id u s
  n ← resolve_namespace namespaces namespace
  ok (record { ns = n; identifier = identifier })

abbrev pub is_uri : Namespace → Bool
is_uri (index n) = false
is_uri (uri s) = true

-- Raises where the id is not valid.
unfoldable pub uses_nsu : Codecs → Text → Result IdError Bool
uses_nsu u s = do (namespace, _, _) ← parse_node_id u s; ok (is_uri namespace)
