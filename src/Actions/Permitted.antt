-- ===== src/Actions/Permitted.antt =====
-- What may be written by name.
use mathlib.Core.Path.{subst}
use zelos_extension_opcua.Actions.{
  ServerClient, Failure, ActionError, get_node, VariantType, variant_datatype, Request, Seen,
  detect, retyped, put_value, write_node, send, write_if, write_by, write_typed, is_read_only,
  write_to, write_named_node,
}
use zelos_extension_opcua.Client.Values.{
  Floats, Value, truth, int, float, text, localized, bytes, object, ValueFault, coerce_text,
  encode_value,
}
use zelos_extension_opcua.NodeMap.Node.{Datatype, Node}
use zelos_extension_opcua.NodeMap.Ids.{Codecs}
use zelos_extension_opcua.Prelude.{
  ◌≡◌, refl, sym, ap, ◌∙◌, ◌≢◌, ◌⊎◌, inl, inr, Bool, true, false, Option, none, some, Bool-cases,
  nat_eq, Result, ok, raise, ok-injective, Dict, lookup, Text, text_eq,
}

module _ (u : Codecs) (fl : Floats) (access : Text → Option Bool)
    (type_at : Text → Result Failure (Option VariantType))
    (put : Request u fl → Result Failure (Unit {0})) where
  -- The value that goes out for an encoded one and the type that the server's value has: text for a
  -- listed type is coerced to its datatype, any other value goes out as it is.
  abbrev pub IsOutput : Value fl.F → Option VariantType → Value fl.F → Type 0
  IsOutput wire given out =
      ((s : Text) × (d : Datatype) × (wire ≡ text s)
        × (variant_datatype given ≡ some d)
        × (coerce_text u fl s d ≡ ok out))
      ⊎ ((((s : Text) → wire ≢ text s) ⊎ (variant_datatype given ≡ none)) × (out ≡ wire))

  -- The value encoded, and the one that goes out with the type of the server's value.
  abbrev pub IsSent : Node fl.F → Value fl.F → Request u fl → Type 0
  IsSent n value out =
      (out.node_id ≡ n.node_id)
      × (type_at n.node_id ≡ ok out.type_given)
      × (wire : Value fl.F) × (encode_value u fl value n.datatype n.scale ≡ ok wire)
      × IsOutput wire out.type_given out.value

  -- The node that a Write goes to, and the value that it carries.
  abbrev pub IsPermitted : ServerClient fl.F → Text → Text → Request u fl → Type 0
  IsPermitted c name input out =
      (n : Node fl.F) × (get_node c name ≡ ok n)
      × (c.discovery ≡ false)
      × ((n.writable ≡ some true)
          ⊎ ((n.writable ≡ none)
              × ((detect u fl (lookup n.node_id c.writable_cache) access n.node_id
                    c.writable_cache).0
                  ≡ true)))
      × (value : Value fl.F) × (coerce_text u fl input n.datatype ≡ ok value)
      × IsSent n value out

  retyped-IsOutput :
      (wire : Value fl.F) (given : Option VariantType) (d : Option Datatype) {out : Value fl.F}
      → variant_datatype given ≡ d
      → retyped u fl wire d ≡ ok out
      → IsOutput wire given out
  retyped-IsOutput (text s) given (some d) e h = inl (s, d, refl, e, h)
  retyped-IsOutput (text s) given none e h = inr (inr e, sym (ok-injective h))
  retyped-IsOutput (truth b) given d e h = inr (inl (λ s t. cc t), sym (ok-injective h))
  retyped-IsOutput (int n) given d e h = inr (inl (λ s t. cc t), sym (ok-injective h))
  retyped-IsOutput (float x) given d e h = inr (inl (λ s t. cc t), sym (ok-injective h))
  retyped-IsOutput (localized t) given d e h = inr (inl (λ s t. cc t), sym (ok-injective h))
  retyped-IsOutput (bytes b) given d e h = inr (inl (λ s t. cc t), sym (ok-injective h))
  retyped-IsOutput (object b t) given d e h = inr (inl (λ s t. cc t), sym (ok-injective h))

  put_value-sent :
      (seen : Seen u fl) (id : Text) (value : Value fl.F) (given : Option VariantType)
      (r : Result ValueFault (Value fl.F)) {out : Request u fl}
      → (put_value u fl access type_at put seen id value given r).sent ≡ some out
      → (out.node_id ≡ id) × (out.type_given ≡ given) × (r ≡ ok out.value)
  put_value-sent seen id value given (raise e) h = cc h
  put_value-sent seen id value given (ok wire) {out} h =
      let request : Request u fl = record { node_id = id; value = wire; type_given = given } in
      let same : request ≡ out = cc h in
      (sym (ap (λ q. q.node_id) same), sym (ap (λ q. q.type_given) same), ap (λ q. ok q.value) same)

  write_node-sent :
      (seen : Seen u fl) (n : Node fl.F) (value wire : Value fl.F)
      (r : Result Failure (Option VariantType)) {out : Request u fl}
      → type_at n.node_id ≡ r
      → encode_value u fl value n.datatype n.scale ≡ ok wire
      → (write_node u fl access type_at put seen n.node_id value wire r).sent ≡ some out
      → IsSent n value out
  write_node-sent seen n value wire (raise e) typed encoded h = cc h
  write_node-sent seen n value wire (ok given) {out} typed encoded h =
      let (id, same, made) =
        put_value-sent seen n.node_id value given (retyped u fl wire (variant_datatype given)) h in
      (
        id,
        typed ∙ ap (λ t. ok t) (sym same),
        wire,
        encoded,
        subst (λ t. IsOutput wire t out.value) (sym same)
            (retyped-IsOutput wire given (variant_datatype given) refl made),
      )

  send-sent :
      (seen : Seen u fl) (n : Node fl.F) (value : Value fl.F) (r : Result ValueFault (Value fl.F))
      {out : Request u fl}
      → encode_value u fl value n.datatype n.scale ≡ r
      → (send u fl access type_at put seen n value r).sent ≡ some out
      → IsSent n value out
  send-sent seen n value (raise e) encoded h = cc h
  send-sent seen n value (ok wire) encoded h =
      write_node-sent seen n value wire (type_at n.node_id) refl encoded h

  write_if-sent :
      (p : Bool × Seen u fl) (n : Node fl.F) (value : Value fl.F) {out : Request u fl}
      → (write_if u fl access type_at put p n value).sent ≡ some out
      → (p.0 ≡ true) × IsSent n value out
  write_if-sent (false, seen) n value h = cc h
  write_if-sent (true, seen) n value h =
      (refl, send-sent seen n value (encode_value u fl value n.datatype n.scale) refl h)

  write_by-sent :
      (o : Option Bool) (cache : Dict Text Bool) (n : Node fl.F) (value : Value fl.F)
      {out : Request u fl}
      → (write_by u fl access type_at put o cache n value).sent ≡ some out
      → ((o ≡ some true)
          ⊎ ((o ≡ none) × ((detect u fl (lookup n.node_id cache) access n.node_id cache).0 ≡ true)))
        × IsSent n value out
  write_by-sent (some false) cache n value h = cc h
  write_by-sent (some true) cache n value h =
      let (_, is_sent) = write_if-sent (true, (false, cache)) n value h in (inl refl, is_sent)
  write_by-sent none cache n value h =
      let (found, is_sent) =
        write_if-sent (detect u fl (lookup n.node_id cache) access n.node_id cache) n value h in
      (inr (refl, found), is_sent)

  -- A Write goes out by name only to a node that the client's map has under the name and that the
  -- client did not discover itself; the node is not declared read-only, and, where it declares
  -- nothing, it was detected as writable, now or before. What goes out is the input, coerced to the
  -- node's datatype and encoded with its scale, with the type of the value that the server has,
  -- which it is asked for first; encoded text is coerced once more if that type is a listed one.
  pub write_named_node-IsPermitted :
      (c : ServerClient fl.F) (name input : Text) {out : Request u fl}
      → (write_named_node u fl access type_at put c name input).sent ≡ some out
      → IsPermitted c name input out
  unfolding write_named_node
  write_named_node-IsPermitted c name input {out} h = found (get_node c name) refl h
    where
      typed :
          (n : Node fl.F)
          → get_node c name ≡ ok n
          → c.discovery ≡ false
          → (r : Result ValueFault (Value fl.F)) → coerce_text u fl input n.datatype ≡ r
          → (write_typed u fl access type_at put c.writable_cache n r).sent ≡ some out
          → IsPermitted c name input out
      typed n e own (raise error) coerced k = cc k
      typed n e own (ok value) coerced k =
          let (found, is_sent) = write_by-sent n.writable c.writable_cache n value k in
          (n, e, own, found, value, coerced, is_sent)

      found :
          (r : Result ActionError (Node fl.F))
          → get_node c name ≡ r
          → (write_to u fl access type_at put c input r).sent ≡ some out
          → IsPermitted c name input out
      found (raise error) e k = cc k
      found (ok n) e k = elim (Bool-cases c.discovery) [
        | inl t ↦ cc (rw t at k)
        | inr own ↦ elim (Bool-cases (is_read_only u fl access type_at put n.writable)) [
          | inl t ↦ cc (rw (own, t) at k)
          | inr mutable ↦
              typed n e own (coerce_text u fl input n.datatype) refl (rw (own, mutable) at k)
        ]
      ]
