-- ===== src/Tx/Types/Laws.antt =====
-- What DeleteType and the copy of a missing type of embedded/graph/tx/statefun.go ask for.
use mathlib.Core.Path.{subst}
use foliage_sdk.Common.{
  Bool, true, false, Option, none, some, List, [], ◌∷◌, ◌++◌, ◌≡◌, refl, sym, ap, ◌∙◌, map,
  if◌then◌else◌, rev_onto,
}
use foliage_sdk.Common.Text.{Str, codes}
use foliage_sdk.Graph.Context.{
  Context, Request, State, Failure, ok, Action, pure, raise, reads, ◌>>=◌, ◌>>◌, or_raise, for_each,
  send, invalid_argument,
}
use foliage_sdk.Tx.Helper.{
  generate_prefix, string_at, set_string, set_json, check_request_error, request_checked,
  find_type_objects, generate_deleted_meta, fetch_json, clone_type_from_main_graph_to_tx,
  request_sent, answered, or_default,
}
use foliage_sdk.Graph.Outcome.{
  Ends, Ends->>=, Ends-pure, Ends-raise, Ends-reads->>=, Ends-either, Ends-mono, ended,
}
use foliage_sdk.Tx.Types.{create_type, delete_type}

module _ {J W : Type 0} (ctx : Context J W) where
  Ends-check_request_error :
      (o : Option J) (s : State J W) → Ends (λ u s'. s'.sent ≡ s.sent) (check_request_error ctx o) s
  unfolding check_request_error
  Ends-check_request_error none s = Ends-raise _ _ s
  Ends-check_request_error (some result) s =
      Ends-either _ _ _ _ s (Ends-raise _ _ s) (Ends-pure _ tt s refl)

  Ends-send :
      (op id : Str) (payload : J) (s : State J W)
      → Ends
          (λ o s'. s'.sent ≡ record { op = op; id = id; payload = payload } ∷ s.sent)
          (send ctx op id payload)
          s
  unfolding Ends send
  Ends-send op id payload s = refl

  -- A checked request is sent once.
  Ends-request_checked :
      (op id : Str) (payload : J) (s : State J W)
      → Ends
          (λ u s'. s'.sent ≡ record { op = op; id = id; payload = payload } ∷ s.sent)
          (request_checked ctx op id payload)
          s
  unfolding request_checked
  Ends-request_checked op id payload s =
      Ends->>= _ _ _ _ s (Ends-send op id payload s)
        (λ o s' e. Ends-mono _ s' (λ u s'' e'. e' ∙ e) (Ends-check_request_error o s'))

  Ends-for_each :
      (op : Str) (payload : J) (ids : List Str) (s : State J W)
      → Ends
          (λ u s'.
            s'.sent
            ≡ rev_onto
                (map (λ (o : Str). record { op = op; id = o; payload = payload }) ids)
                s.sent)
          (for_each ids (λ (o : Str). request_checked ctx op o payload))
          s
  unfolding for_each
  Ends-for_each op payload [] s = Ends-pure _ tt s refl
  Ends-for_each op payload (o ∷ ids) s =
      Ends->>= _ _ _ _ s (Ends-request_checked op o payload s) (λ u s' e.
        Ends-mono _ s'
          (λ u s'' e'.
            e'
            ∙ ap (rev_onto (map (λ (i : Str). record { op = op; id = i; payload = payload }) ids))
                e)
          (Ends-for_each op payload ids s'))

  -- The requests of DeleteType.
  abbrev pub object_deletions : J → List Str → List (Request J)
  object_deletions meta ids =
      map
        (λ (o : Str). record {
          op = codes "functions.cmdb.api.object.update";
          id = o;
          payload = set_json ctx (codes "body") meta ctx.json.new_object;
        })
        ids

  abbrev pub type_deletion : J → Str → Request J
  type_deletion meta tx_type = record {
    op = codes "functions.cmdb.api.type.update";
    id = tx_type;
    payload = set_json ctx (codes "body") meta ctx.json.new_object;
  }

  Ends-argument :
      {A : Type 0} (o : Option Str) (id : Str) (R : A → State J W → Type 0) (k : Str → Action J W A)
      (s : State J W)
      → o ≡ some id
      → Ends R (k id) s
      → Ends R (or_raise invalid_argument o >>= k) s
  unfolding ◌>>=◌ pure Ends
  Ends-argument o id R k s e h =
      subst (λ o'. Ends R (or_raise invalid_argument o' >>= k) s) (sym e) h

  deletions :
      (tx_type : Str) (meta : J) (ids : List Str) (s : State J W)
      → Ends
          (λ u s'.
            s'.sent ≡ type_deletion meta tx_type ∷ rev_onto (object_deletions meta ids) s.sent)
          (for_each ids (λ v.
              request_checked ctx
                (codes "functions.cmdb.api.object.update")
                v
                (set_json ctx (codes "body") meta ctx.json.new_object))
            >> request_checked ctx
                (codes "functions.cmdb.api.type.update")
                tx_type
                (set_json ctx (codes "body") meta ctx.json.new_object))
          s
  deletions tx_type meta ids s = Ends->>= _ _ _ _ s (Ends-for_each _ _ ids s) (λ u s' e.
      Ends-mono _ s' (λ v s'' e'. e' ∙ ap (λ rs. type_deletion meta tx_type ∷ rs) e)
        (Ends-request_checked _ tx_type _ s'))

  -- When DeleteType of a type succeeds, it has sent, in this order, the mark of the deletion to each object
  -- found for the type in the transaction, once each, and then to the type, and nothing else.
  pub delete_type_lem :
      (tx payload_id : Str) (payload : J) (s : State J W)
      → string_at ctx payload (codes "id") ≡ some payload_id
      → (delete_type ctx tx payload s).0 ≡ ok tt
      → let tx_type = generate_prefix tx ++ payload_id in
        let meta = generate_deleted_meta ctx s.world in
        (delete_type ctx tx payload s).1.sent
        ≡ type_deletion meta tx_type
          ∷ rev_onto (object_deletions meta (find_type_objects ctx s.world tx_type)) s.sent
  unfolding delete_type
  delete_type_lem tx payload_id payload s e success =
      let tx_type = generate_prefix tx ++ payload_id in
      let meta = generate_deleted_meta ctx s.world in
      ended _ _ s tt
        (Ends-argument _ payload_id _ _ s e (
          Ends-reads->>= _ _ _ s (
            Ends-reads->>= _ _ _ s
              (deletions tx_type meta (find_type_objects ctx s.world tx_type) s))))
        success

  -- An action that sends nothing.
  unfoldable IsSilent : {A : Type 0} → Action J W A → Type 0
  IsSilent m = (s : State J W) → (m s).1.sent ≡ s.sent

  raise-IsSilent : (A : Type 0) (e : Failure) → IsSilent {A = A} (raise e)
  unfolding IsSilent raise
  raise-IsSilent A e s = refl

  pure-IsSilent : IsSilent (pure tt)
  unfolding IsSilent pure
  pure-IsSilent s = refl

  either-IsSilent :
      (b : Bool) (m k : Action J W (Unit {0}))
      → IsSilent m
      → IsSilent k
      → IsSilent (if b then m else k)
  either-IsSilent true m k h h' = h
  either-IsSilent false m k h h' = h'

  check-IsSilent : (o : Option J) → IsSilent (check_request_error ctx o)
  unfolding check_request_error
  check-IsSilent none = raise-IsSilent _ _
  check-IsSilent (some result) = either-IsSilent _ _ _ (raise-IsSilent _ _) pure-IsSilent

  answered-IsSilent : (o : Option J) → IsSilent (answered ctx o)
  answered-IsSilent none = raise-IsSilent _ _
  answered-IsSilent (some result) = pure-IsSilent

  send_then :
      (op id : Str) (payload : J) (f : Option J → Action J W (Unit {0})) (s : State J W)
      → ((o : Option J) → IsSilent (f o))
      → ((send ctx op id payload >>= f) s).1.sent
        ≡ record { op = op; id = id; payload = payload } ∷ s.sent
  unfolding IsSilent send ◌>>=◌
  send_then op id payload f s h = h _ _

  module _
      (stored : (v : Str)
        → string_at ctx (set_string ctx (codes "id") v ctx.json.new_object) (codes "id") ≡ some v)
      (kept : (j body : J)
        → string_at ctx (set_json ctx (codes "body") body j) (codes "id")
          ≡ string_at ctx j (codes "id")) where
    -- A type that UpdateTypesLink misses in the transaction is created there under an id with the prefix
    -- twice: the request for the copy of `src` has the id with the prefix, and CreateType adds another one.
    clone_type_doubles_prefix :
        (tx src : Str) (b : J) (s s' : State J W)
        → ctx.get_value_as_json s.world src ≡ some b
        → (r r' : Request J) × ((clone_type_from_main_graph_to_tx ctx tx src
              (generate_prefix tx ++ src)
              s).1.sent
            ≡ r ∷ s.sent)
          × (r.id ≡ tx)
          × ((create_type ctx tx r.payload s').1.sent ≡ r' ∷ s'.sent)
          × (r'.id ≡ generate_prefix tx ++ (generate_prefix tx ++ src))
    unfolding clone_type_from_main_graph_to_tx fetch_json ◌>>=◌ reads pure request_sent create_type
        request_checked
    clone_type_doubles_prefix tx src b s s' e =
        let prefix = generate_prefix tx in
        let payload =
          set_json ctx (codes "body") b
            (set_string ctx (codes "id") (prefix ++ src) ctx.json.new_object) in
        let type_id = kept _ b ∙ stored (prefix ++ src) in
        (
          record { op = codes "functions.cmdb.tx.type.create"; id = tx; payload = payload },
          _,
          rw e (send_then _ tx payload (answered ctx) s answered-IsSilent),
          refl,
          send_then _ _ _ (check_request_error ctx) s' check-IsSilent,
          ap (λ o. prefix ++ or_default [] o) type_id,
        )
