-- ===== src/Actions/Listing/Sendable.antt =====
-- The nodes that are listed as writable.
use zelos_extension_opcua.NodeMap.Node.{Node}
use zelos_extension_opcua.Client.Values.{Floats, Value, ValueFault, encode_value}
use zelos_extension_opcua.NodeMap.Ids.{Codecs}
use zelos_extension_opcua.Actions.{
  ServerClient, Failure, VariantType, variant_datatype, Request, Seen, detect, retyped, put_value,
  write_node, send, write_if, write_by,
}
use zelos_extension_opcua.Actions.Listing.{
  is_writable, nodes_of, is_known_writable, known_writable_nodes,
}
use zelos_extension_opcua.Prelude.{
  ◌≡◌, refl, ◌⊎◌, inl, inr, Bool, true, false, not, Option, none, some, nat_eq, not-true, keep_if,
  All, All-keep_if, Result, ok, raise, Dict, lookup, Text, text_eq,
}

module _ (u : Codecs) (fl : Floats) (access : Text → Option Bool)
    (type_at : Text → Result Failure (Option VariantType))
    (put : Request u fl → Result Failure (Unit {0})) where
  -- A Write to the node goes on without asking for its AccessLevel.
  abbrev pub SendsAtOnce : Option Bool → Dict Text Bool → Value fl.F → Node fl.F → Type 0
  SendsAtOnce declared cache value n =
      ((write_by u fl access type_at put declared cache n value).asked ≡ false)
      × (write_by u fl access type_at put declared cache n value
          ≡ send u fl access type_at put (false, cache) n value
              (encode_value u fl value n.datatype n.scale))

  -- A Write to the node sends nothing, without asking for the AccessLevel, or asks for it.
  abbrev pub RefusesOrAsks : Option Bool → Dict Text Bool → Value fl.F → Node fl.F → Type 0
  RefusesOrAsks declared cache value n =
      (((write_by u fl access type_at put declared cache n value).sent ≡ none)
        × ((write_by u fl access type_at put declared cache n value).asked ≡ false))
      ⊎ ((write_by u fl access type_at put declared cache n value).asked ≡ true)

  abbrev pub IsSendable : ServerClient fl.F → Value fl.F → Node fl.F → Type 0
  IsSendable c value n = SendsAtOnce n.writable c.writable_cache value n

  abbrev pub IsUnproven : ServerClient fl.F → Value fl.F → Node fl.F → Type 0
  IsUnproven c value n = RefusesOrAsks n.writable c.writable_cache value n

  -- What is asked is known before the Write, and stays so.
  write_node-asked :
      (seen : Seen u fl) (id : Text) (value wire : Value fl.F)
      (r : Result Failure (Option VariantType))
      → (write_node u fl access type_at put seen id value wire r).asked ≡ seen.0
  write_node-asked seen id value wire (raise e) = refl
  write_node-asked seen id value wire (ok given) =
      by_value (retyped u fl wire (variant_datatype given))
    where
      by_value :
          (r : Result ValueFault (Value fl.F))
          → (put_value u fl access type_at put seen id value given r).asked ≡ seen.0
      by_value (raise e) = refl
      by_value (ok out) = refl

  send-asked :
      (seen : Seen u fl) (n : Node fl.F) (value : Value fl.F) (r : Result ValueFault (Value fl.F))
      → (send u fl access type_at put seen n value r).asked ≡ seen.0
  send-asked seen n value (raise e) = refl
  send-asked seen n value (ok wire) = write_node-asked seen n.node_id value wire (type_at n.node_id)

  write_if-asked :
      (p : Bool × Seen u fl) (n : Node fl.F) (value : Value fl.F)
      → (write_if u fl access type_at put p n value).asked ≡ p.1.0
  write_if-asked (false, seen) n value = refl
  write_if-asked (true, seen) n value =
      send-asked seen n value (encode_value u fl value n.datatype n.scale)

  sendable_if :
      (declared cached : Option Bool) (cache : Dict Text Bool) (n : Node fl.F) (value : Value fl.F)
      → lookup n.node_id cache ≡ cached
      → is_writable declared cached ≡ true
      → SendsAtOnce declared cache value n
  sendable_if (some true) cached cache n value found h =
      (write_if-asked (true, (false, cache)) n value, refl)
  sendable_if (some false) cached cache n value found h = cc
  sendable_if none none cache n value found h = cc
  sendable_if none (some true) cache n value found h =
      rw found (write_if-asked (true, (false, cache)) n value, refl)
  sendable_if none (some false) cache n value found h = cc

  unproven_if :
      (declared cached : Option Bool) (cache : Dict Text Bool) (n : Node fl.F) (value : Value fl.F)
      → lookup n.node_id cache ≡ cached
      → is_writable declared cached ≡ false
      → RefusesOrAsks declared cache value n
  unproven_if (some true) cached cache n value found h = cc
  unproven_if (some false) cached cache n value found h = inl (refl, refl)
  unproven_if none none cache n value found h =
      inr (rw found (write_if-asked (detect u fl none access n.node_id cache) n value))
  unproven_if none (some true) cache n value found h = cc
  unproven_if none (some false) cache n value found h = inl (rw found refl, rw found refl)

  -- Of a client's nodes, a Write to one that is listed as known writable goes on to the encoding and
  -- the sending of the value without asking for the AccessLevel; and a Write to any other sends
  -- nothing, without asking for it, or asks for it.
  pub known_writable_nodes-AreSendable :
      (c : ServerClient fl.F) (value : Value fl.F)
      → All (IsSendable c value) (known_writable_nodes c)
        × All
            (IsUnproven c value)
            (keep_if (λ n. not (is_known_writable c n)) (nodes_of c.node_map))
  unfolding known_writable_nodes
  known_writable_nodes-AreSendable c value = (
    All-keep_if (is_known_writable c) (IsSendable c value) (nodes_of c.node_map) (λ n h.
        sendable_if n.writable (lookup n.node_id c.writable_cache) c.writable_cache n value refl h),
    All-keep_if (λ n. not (is_known_writable c n)) (IsUnproven c value) (nodes_of c.node_map)
        (λ n h.
          unproven_if n.writable (lookup n.node_id c.writable_cache) c.writable_cache n value refl
            (not-true (is_known_writable c n) h)),
  )
