-- ===== src/Graph/High/Objects/Laws.antt =====
-- embedded/graph/crud/hl_crud.go: what CreateObject and DeleteObject ask for.
use mathlib.Core.Path.{subst}
use foliage_sdk.Common.{
  false, Option, some, List, [], ◌∷◌, ◌++◌, ◌≡◌, refl, sym, ap, ◌∙◌, map, if◌then◌else◌, rev_onto,
}
use foliage_sdk.Common.Text.{Str, codes}
use foliage_sdk.Graph.Context.{Context, Request, State, ok, pure, for_each}
use foliage_sdk.Graph.Outcome.{Ends, Ends->>=, Ends-pure, Ends-reads->>=, Ends-mono, ended}
use foliage_sdk.Graph.High.{Calls, Done, replied, text_at, text_or}
use foliage_sdk.Graph.High.Links.{body_key}
use foliage_sdk.Graph.High.Sending.{
  a_request, Sent, Ends-request_checked, Ends-request_stack, Ends-fire,
}
use foliage_sdk.Graph.High.Objects.{
  Link, needed_links, link_payload, create_link, create_new_object, create_object_of, create_object,
}

module _ {J W : Type 0} (ctx : Context J W) (calls : Calls J W) (self : Str) (payload : J) where
  abbrev pub link_request : Link → Request J
  link_request l =
      a_request (codes "functions.graph.api.link.create") l.from
        (link_payload ctx calls self payload l)

  Ends-create_link :
      (l : Link) (s : State J W)
      → Ends (Sent (link_request l ∷ s.sent)) (create_link ctx calls self payload l) s
  unfolding create_link
  Ends-create_link l s =
      Ends->>= (Sent (link_request l ∷ s.sent)) _ _ _ s (Ends-request_checked ctx _ _ _ s)
        (λ r s' e. Ends-pure _ tt s' e)

  -- The requests for an object, the last one first.
  abbrev pub object_requests : Str → Str → List (Request J)
  object_requests prefix origin =
      link_request (record { from = prefix ++ origin; to = self; lt = codes "__object" })
      ∷ link_request (record { from = self; to = prefix ++ origin; lt = codes "__type" })
      ∷ link_request (record { from = prefix ++ codes "objects"; to = self; lt = codes "__object" })
      ∷ a_request (codes "functions.graph.api.vertex.create") self payload
      ∷ []

  Ends-create_links :
      (ls : List Link) (s : State J W)
      → Ends
          (Sent (rev_onto (map link_request ls) s.sent))
          (for_each ls (create_link ctx calls self payload))
          s
  unfolding for_each
  Ends-create_links [] s = Ends-pure _ tt s refl
  Ends-create_links (l ∷ ls) s =
      Ends->>= (Sent (link_request l ∷ s.sent)) _ _ _ s (Ends-create_link l s) (λ u s' e.
        Ends-mono _ s' (λ u' s'' e'. e' ∙ ap (rev_onto (map link_request ls)) e)
          (Ends-create_links ls s'))

  abbrev IsComplete : Str → Str → State J W → Done → State J W → Type 0
  IsComplete prefix origin s d s' =
      (d ≡ replied) × (s'.sent ≡ object_requests prefix origin ++ s.sent)

  Ends-create_new_object :
      (prefix origin : Str) (s : State J W)
      → Ends (IsComplete prefix origin s) (create_new_object ctx calls self payload prefix origin) s
  unfolding create_new_object
  Ends-create_new_object prefix origin s =
      Ends->>= (Sent (a_request (codes "functions.graph.api.vertex.create") self payload ∷ s.sent))
        _ _ _ s (Ends-request_stack ctx calls _ self payload s)
        (λ result s1 e1.
          Ends->>= (Sent (object_requests prefix origin ++ s.sent)) _ _ _ s1
            (Ends-mono _ s1
              (λ u s2 e2.
                e2
                ∙ ap
                    (rev_onto
                      (map link_request (needed_links ctx calls self payload prefix origin)))
                    e1)
              (Ends-create_links (needed_links ctx calls self payload prefix origin) s1))
            (λ u s2 e2.
              Ends->>= (Sent (object_requests prefix origin ++ s.sent)) _ _ _ s2
                (Ends-mono _ s2 (λ u' s3 e3. e3 ∙ e2) (Ends-fire ctx calls result s2))
                (λ u' s3 e3. Ends-pure _ replied s3 (refl, e3))))

  Ends-create_object_of :
      (prefix origin : Str) (o : Option Str) (s : State J W)
      → o ≡ some origin
      → ctx.has_value s.world (body_key (prefix ++ codes "objects") (codes "__object") self) ≡ false
      → Ends (IsComplete prefix origin s) (create_object_of ctx calls self payload prefix o) s
  Ends-create_object_of prefix origin o s e absent =
      subst
        (λ o'.
          Ends (IsComplete prefix origin s) (create_object_of ctx calls self payload prefix o') s)
        (sym e)
        (Ends-reads->>= _ _ _ s (
          subst
            (λ there.
              Ends (IsComplete prefix origin s)
                (if there
                  then pure replied
                  else create_new_object ctx calls self payload prefix origin)
                s)
            (sym absent) (Ends-create_new_object prefix origin s)))

  -- An object that is not there yet: when CreateObject succeeds, it has sent the request for the
  -- vertex and, after it, those for the three links, each once: from the objects, to the object's
  -- type and from it; and it replies.
  pub create_object_lem :
      (prefix origin : Str) (d : Done) (s : State J W)
      → text_or [] (text_at ctx payload (codes "prefix")) ≡ prefix
      → text_at ctx payload (codes "origin_type") ≡ some origin
      → ctx.has_value s.world (body_key (prefix ++ codes "objects") (codes "__object") self) ≡ false
      → (create_object ctx calls self payload s).0 ≡ ok d
      → (d ≡ replied)
        × ((create_object ctx calls self payload s).1.sent
            ≡ object_requests prefix origin ++ s.sent)
  unfolding create_object
  create_object_lem prefix origin d s p o absent e =
      ended (IsComplete prefix origin s) _ s d
        (subst
          (λ prefix'.
            Ends (IsComplete prefix origin s)
              (create_object_of ctx calls self payload prefix'
                (text_at ctx payload (codes "origin_type")))
              s)
          (sym p) (Ends-create_object_of prefix origin _ s o absent))
        e
