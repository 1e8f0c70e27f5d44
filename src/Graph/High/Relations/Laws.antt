-- ===== src/Graph/High/Relations/Laws.antt =====
-- embedded/graph/crud/hl_crud.go: what the handlers for links between objects ask for.
use mathlib.Core.Path.{subst}
use foliage_sdk.Common.{
  Bool, true, false, Option, none, some, ◌∷◌, ◌≡◌, refl, sym, ap, ◌∙◌, if◌then◌else◌,
}
use foliage_sdk.Common.Text.{Str, codes}
use foliage_sdk.Graph.Context.{
  Context, Request, State, ok, err, Failure, link_not_found, no_link_type, Action, pure, raise,
  reads, ◌>>=◌, ◌>>◌,
}
use foliage_sdk.Graph.Outcome.{Ends, Ends->>=, Ends-pure, Ends-reads->>=, ended}
use foliage_sdk.Graph.High.{Calls, Done, replied, text_at, reply, reply_of, error_text}
use foliage_sdk.Graph.High.Links.{
  body_key, find_object_type, get_types_link_body, get_reference_link_type,
}
use foliage_sdk.Graph.High.Triggers.{request_firing}
use foliage_sdk.Graph.High.Sending.{a_request, Sent, Ends-request_firing}
use foliage_sdk.Graph.High.Relations.{
  objects_link, with_type, with_reference, create_link_of_type, create_objects_link_of,
  create_objects_link, update_objects_link_of, update_objects_link, delete_objects_link_of,
  delete_objects_link,
}

module _ {J W : Type 0} (ctx : Context J W) (calls : Calls J W) (self : Str) (payload : J) where
  -- The type that the link between the types of two objects sets, and the failure where it sets none.
  abbrev pub type_set : Option J → Option Str
  type_set none = none
  type_set (some body) = text_at ctx body (codes "link_type")

  abbrev pub reason : W → Str → Option J → Failure
  reason w to none = link_not_found (find_object_type ctx w self) (find_object_type ctx w to)
  reason w to (some body) = no_link_type

  no_reference :
      (w : W) (to : Str) (body : Option J)
      → ctx.get_value_as_json w
          (body_key (find_object_type ctx w self) (codes "__type") (find_object_type ctx w to))
        ≡ body
      → type_set body ≡ none
      → get_reference_link_type ctx w self to ≡ err (reason w to body)
  unfolding get_reference_link_type get_types_link_body
  no_reference w to none e h = rw e refl
  no_reference w to (some body) e h = rw (e, h) refl

  with_reference-err :
      (to : Str) (k : Str → Action J W Done) (e : Failure) (s : State J W)
      → get_reference_link_type ctx s.world self to ≡ err e
      → with_reference ctx calls self payload to k s ≡ (err e, s)
  unfolding with_reference reads ◌>>=◌ raise
  with_reference-err to k e s h = ap (λ r. with_type ctx calls self payload r k s) h

  -- A handler fails, has sent, signalled and changed nothing, and replies with the failure.
  abbrev pub FailsWith : Failure → Action J W Done → State J W → Type 0
  FailsWith e handler s =
      (handler s ≡ (err e, s))
      × (reply_of ctx calls (handler s).0
          ≡ some (reply ctx calls (codes "failed") (ctx.json.of_string (error_text ctx calls e))))

  -- Two objects whose types have no link that can be read, or a link whose body sets no type: the three
  -- handlers for links between objects fail, the first with "not found" and the types of the two objects,
  -- the second with the lack of a type; they reply with that error, and have sent, signalled and changed
  -- nothing.
  pub objects_link-no_reference :
      (to : Str) (body : Option J) (s : State J W)
      → text_at ctx payload (codes "to") ≡ some to
      → ctx.get_value_as_json s.world (
          body_key
            (find_object_type ctx s.world self)
            (codes "__type")
            (find_object_type ctx s.world to))
        ≡ body
      → type_set body ≡ none
      → FailsWith (reason s.world to body) (create_objects_link ctx calls self payload) s
        × FailsWith (reason s.world to body) (update_objects_link ctx calls self payload) s
        × FailsWith (reason s.world to body) (delete_objects_link ctx calls self payload) s
  unfolding create_objects_link update_objects_link delete_objects_link reply_of
  objects_link-no_reference to body s t found untyped =
      let e = reason s.world to body in
      let h = no_reference s.world to body found untyped in
      (
        fails e (create_objects_link ctx calls self payload) s (
            ap (λ o. create_objects_link_of ctx calls self payload o s) t
            ∙ with_reference-err to _ e s h),
        fails e (update_objects_link ctx calls self payload) s (
            ap (λ o. update_objects_link_of ctx calls self payload o s) t
            ∙ with_reference-err to _ e s h),
        fails e (delete_objects_link ctx calls self payload) s (
            ap (λ o. delete_objects_link_of ctx calls self payload o s) t
            ∙ with_reference-err to _ e s h),
      )
    where
      fails :
          (e : Failure) (handler : Action J W Done) (s' : State J W)
          → handler s' ≡ (err e, s')
          → FailsWith e handler s'
      fails e handler s' k = (k, ap (λ r. reply_of ctx calls r.0) k)

  -- The request for a link between objects.
  abbrev pub link_creation : Str → Str → Request J
  link_creation to lt =
      a_request (codes "functions.graph.api.link.create") self
        (objects_link ctx calls self payload to lt)

  abbrev IsRequested : Str → Str → State J W → Done → State J W → Type 0
  IsRequested to lt s d s' = s'.sent ≡ (
      if ctx.has_value s.world (body_key self lt to) then s.sent else link_creation to lt ∷ s.sent)

  Ends-create_link_of_type :
      (to lt : Str) (s : State J W)
      → Ends (IsRequested to lt s) (create_link_of_type ctx calls self payload to lt) s
  unfolding create_link_of_type
  Ends-create_link_of_type to lt s =
      Ends-reads->>= _ _ _ s (by_presence (ctx.has_value s.world (body_key self lt to)))
    where
      by_presence :
          (there : Bool)
          → Ends
              (λ d s'. s'.sent ≡ (if there then s.sent else link_creation to lt ∷ s.sent))
              (if there
                then pure replied
                else request_firing ctx calls
                    (codes "functions.graph.api.link.create")
                    self
                    (objects_link ctx calls self payload to lt)
                  >> pure replied)
              s
      by_presence true = Ends-pure _ replied s refl
      by_presence false =
          Ends->>= (Sent (link_creation to lt ∷ s.sent)) _ _ _ s
            (Ends-request_firing ctx calls _ self _ s) (λ u s' e. Ends-pure _ replied s' e)

  Ends-create_objects_link :
      (to lt : Str) (o : Option Str) (s : State J W)
      → o ≡ some to
      → get_reference_link_type ctx s.world self to ≡ ok lt
      → Ends (IsRequested to lt s) (create_objects_link_of ctx calls self payload o) s
  unfolding with_reference
  Ends-create_objects_link to lt o s e h =
      subst (λ o'. Ends (IsRequested to lt s) (create_objects_link_of ctx calls self payload o') s)
        (sym e)
        (Ends-reads->>= _ _ _ s (
          subst
            (λ r.
              Ends (IsRequested to lt s)
                (with_type ctx calls self payload r (create_link_of_type ctx calls self payload to))
                s)
            (sym h) (Ends-create_link_of_type to lt s)))

  -- A link that CreateObjectsLink creates has the type that the link between the types of the two
  -- objects sets: when it succeeds, it has sent exactly one request, for the link of that type to the
  -- object with the body of the payload, or none if a link of that type is there already.
  pub create_objects_link_lem :
      (to lt : Str) (d : Done) (s : State J W)
      → text_at ctx payload (codes "to") ≡ some to
      → get_reference_link_type ctx s.world self to ≡ ok lt
      → (create_objects_link ctx calls self payload s).0 ≡ ok d
      → (create_objects_link ctx calls self payload s).1.sent ≡ (
          if ctx.has_value s.world (body_key self lt to)
          then s.sent
          else link_creation to lt ∷ s.sent)
  unfolding create_objects_link
  create_objects_link_lem to lt d s t h e =
      ended (IsRequested to lt s) _ s d (Ends-create_objects_link to lt _ s t h) e
