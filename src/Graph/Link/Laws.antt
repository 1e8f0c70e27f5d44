-- ===== src/Graph/Link/Laws.antt =====
-- The keys that the handlers of links in embedded/graph/crud/ll_crud.go store and delete.
use mathlib.Core.Path.{subst}
use foliage_sdk.Common.{
  Bool, true, false, ◌||◌, Option, none, some, List, [], ◌∷◌, ◌≡◌, refl, ap, ◌∙◌, arith, any_of,
  if◌then◌else◌,
}
use foliage_sdk.Common.Int.{ℤ}
use foliage_sdk.Common.Text.{Str, codes, str_eq}
use foliage_sdk.Graph.Keys.{out_name}
use foliage_sdk.Graph.Context.{
  Context, document, nothing, State, Write, Result, ok, err, carry, set_to, deleted, pure, reads,
  ◌>>=◌, for_each, send, set, delete,
}
use foliage_sdk.Graph.Link.{
  body_key, index_key, text_at, tags_of, put_text, named, generate_name, name_link, defined_name,
  store_link, delete_indices, delete_there, tell_end,
}

abbrev pub sets_key : {J : Type 0} → Str → Write J → Bool
sets_key k (set_to key v) = str_eq key k
sets_key k (deleted key) = false

abbrev pub deletes_key : {J : Type 0} → Str → Write J → Bool
deletes_key k (set_to key v) = false
deletes_key k (deleted key) = str_eq key k

-- Whether one of the writes sets, or deletes, the key.
abbrev pub sets : {J : Type 0} → Str → List (Write J) → Bool
sets k ws = any_of (sets_key k) ws

abbrev pub deletes : {J : Type 0} → Str → List (Write J) → Bool
deletes k ws = any_of (deletes_key k) ws

any_of-false : {A : Type 0} → (xs : List A) → any_of (λ x. false) xs ≡ false
any_of-false [] = refl
any_of-false (x ∷ xs) = any_of-false xs

abbrev or_body : {J : Type 0} → J → Result (J × Str) → J × Str
or_body b (ok p) = p
or_body b (err e) = (b, [])

defined_name-some : (o : Option Str) (name : Str) → defined_name o ≡ some name → o ≡ some name
defined_name-some none name e = cc
defined_name-some (some []) name e = cc
defined_name-some (some (c ∷ s)) name e = e

module _ {J W : Type 0} (ctx : Context J W) where
  any_of-sets :
      (p : Write J → Bool) (f : Str → Str) (tags : List Str) (s : State J W)
      → any_of p (for_each tags (λ t. set ctx (f t) nothing) s).1.written
        ≡ (any_of (λ t. p (set_to (f t) nothing)) tags || any_of p s.written)
  unfolding for_each set ◌>>=◌ pure
  any_of-sets p f [] s = refl
  any_of-sets p f (t ∷ tags) s = ground (arith, any_of-sets p f tags (set ctx (f t) nothing s).1)

  any_of-deletes :
      (p : Write J → Bool) (f : Str → Str) (tags : List Str) (s : State J W)
      → any_of p (for_each tags (λ t. delete ctx (f t)) s).1.written
        ≡ (any_of (λ t. p (deleted (f t))) tags || any_of p s.written)
  unfolding for_each delete ◌>>=◌ pure
  any_of-deletes p f [] s = refl
  any_of-deletes p f (t ∷ tags) s = ground (arith, any_of-deletes p f tags (delete ctx (f t) s).1)

  module _ (print_name : ℤ → Str) (unique_str_id : W → Str) (before_separator : Str → Str) where
    any_of-store_link :
        (p : Write J → Bool) (self lt to : Str) (body : J) (name : Str) (s : State J W)
        → any_of p
            (store_link ctx print_name unique_str_id before_separator self lt to
              (body, name)
              s).1.written
          ≡ (any_of
                (λ t. p (set_to (index_key self lt to (codes "tag") t) nothing))
                (tags_of ctx print_name unique_str_id before_separator body)
              || (p (set_to (body_key self lt to) (document body))
                  || (p (set_to (index_key self lt to (codes "name") name) nothing)
                      || (p (set_to (out_name self name) nothing) || any_of p s.written))))
    unfolding store_link set ◌>>=◌
    any_of-store_link p self lt to body name s =
        any_of-sets p (index_key self lt to (codes "tag"))
          (tags_of ctx print_name unique_str_id before_separator body) _

    any_of-delete_indices :
        (p : Write J → Bool) (self lt to : Str) (body : J) (name : Str) (s : State J W)
        → text_at ctx print_name unique_str_id before_separator body (codes "name") ≡ some name
        → any_of p
            (delete_indices ctx print_name unique_str_id before_separator self lt to
              (some body)
              s).1.written
          ≡ (any_of
                (λ t. p (deleted (index_key self lt to (codes "tag") t)))
                (tags_of ctx print_name unique_str_id before_separator body)
              || (p (deleted (index_key self lt to (codes "name") name))
                  || (p (deleted (out_name self name)) || any_of p s.written)))
    unfolding delete_indices delete ◌>>=◌
    any_of-delete_indices p self lt to body name s e = rw e (
        any_of-deletes p (index_key self lt to (codes "tag"))
          (tags_of ctx print_name unique_str_id before_separator body) _)

    -- The request to the end of a link writes nothing.
    any_of-tell_end :
        (p : Write J → Bool) (op suffix query_id self lt to : Str) (b : Option J)
        (r : Result (Unit {0})) (s : State J W)
        → any_of p
            (carry
              (λ u.
                tell_end ctx print_name unique_str_id before_separator op suffix query_id self lt to
                >>= (λ u'. pure b))
              r
              s).1.written
          ≡ any_of p s.written
    unfolding tell_end send ◌>>=◌ pure
    any_of-tell_end p op suffix query_id self lt to b (ok u) s = refl
    any_of-tell_end p op suffix query_id self lt to b (err e) s = refl

    any_of-delete_there :
        (p : Write J → Bool) (typename query_id self lt to : Str) (body : J) (name : Str)
        (s : State J W)
        → text_at ctx print_name unique_str_id before_separator body (codes "name") ≡ some name
        → ctx.get_value_as_json s.world (body_key self lt to) ≡ some body
        → any_of p
            (delete_there ctx print_name unique_str_id before_separator typename query_id self lt to
              s).1.written
          ≡ (any_of
                (λ t. p (deleted (index_key self lt to (codes "tag") t)))
                (tags_of ctx print_name unique_str_id before_separator body)
              || (p (deleted (index_key self lt to (codes "name") name))
                  || (p (deleted (out_name self name))
                      || (p (deleted (body_key self lt to)) || any_of p s.written))))
    unfolding delete_there reads delete ◌>>=◌
    any_of-delete_there p typename query_id self lt to body name s e there = rw there (
        any_of-tell_end p _ _ query_id self lt to _ _ _
        ∙ any_of-delete_indices p self lt to body name (delete ctx (body_key self lt to) s).1 e)

    module _
        (stored : (j : J) (name : Str)
          → ctx.json.is_object j ≡ true
          → text_at ctx print_name unique_str_id before_separator
              (put_text ctx print_name unique_str_id before_separator (codes "name") name j)
              (codes "name")
            ≡ some name) where
      generated-name :
          (self : Str) (body b : J) (n : Str) (s : State J W)
          → ctx.json.is_object body ≡ true
          → ((generate_name ctx print_name unique_str_id before_separator self
                >>= (λ name. pure (named ctx print_name unique_str_id before_separator body name)))
              s).0
            ≡ ok (b, n)
          → text_at ctx print_name unique_str_id before_separator b (codes "name") ≡ some n
      unfolding generate_name reads set ◌>>=◌ pure
      generated-name self body b n s object e =
          subst
            (λ (p : J × Str).
              text_at ctx print_name unique_str_id before_separator p.0 (codes "name") ≡ some p.1)
            (ap (or_body b) e) (stored _ _ object)

      chosen-name :
          (taken : Bool) (self : Str) (body b : J) (name n : Str) (s : State J W)
          → ctx.json.is_object body ≡ true
          → text_at ctx print_name unique_str_id before_separator body (codes "name") ≡ some name
          → ((if taken
                then generate_name ctx print_name unique_str_id before_separator self
                  >>= (λ new_name.
                      pure (named ctx print_name unique_str_id before_separator body new_name))
                else pure (body, name))
              s).0
            ≡ ok (b, n)
          → text_at ctx print_name unique_str_id before_separator b (codes "name") ≡ some n
      unfolding pure
      chosen-name true self body b name n s object has e = generated-name self body b n s object e
      chosen-name false self body b name n s object has e =
          subst
            (λ (p : J × Str).
              text_at ctx print_name unique_str_id before_separator p.0 (codes "name") ≡ some p.1)
            (ap (or_body b) e) has

      by_name :
          (o : Option Str) (self : Str) (body b : J) (n : Str) (s : State J W)
          → ctx.json.is_object body ≡ true
          → ((name : Str)
              → o ≡ some name
              → text_at ctx print_name unique_str_id before_separator body (codes "name")
                ≡ some name)
          → (name_link ctx print_name unique_str_id before_separator self body o s).0 ≡ ok (b, n)
          → text_at ctx print_name unique_str_id before_separator b (codes "name") ≡ some n
      unfolding name_link reads ◌>>=◌
      by_name none self body b n s object has e = generated-name self body b n s object e
      by_name (some name) self body b n s object has e =
          chosen-name (ctx.has_value s.world (out_name self name)) self body b name n s object
            (has name refl) e

      -- The body that name_link answers has the name that it answers.
      name_link_lem :
          (self : Str) (body b : J) (n : Str) (s : State J W)
          → ctx.json.is_object body ≡ true
          → (name_link ctx print_name unique_str_id before_separator self body
              (defined_name
                (text_at ctx print_name unique_str_id before_separator body (codes "name")))
              s).0
            ≡ ok (b, n)
          → text_at ctx print_name unique_str_id before_separator b (codes "name") ≡ some n
      name_link_lem self body b n s object e =
          by_name _ self body b n s object (λ name. defined_name-some _ name) e

      -- The keys that LLAPILinkCreate sets for a link, with the body and the name that it settles on, are
      -- the keys that LLAPILinkDelete deletes for the link when it reads back that body; the first deletes
      -- none and the second sets none, so that no index of a tag and no name of a link outlives it. The
      -- body that was asked for is an object, and easyjson reads back a name that is set in an object.
      pub store_link-delete_there :
          (k typename query_id self lt to : Str) (link_body body : J) (name : Str)
          (s0 s s' : State J W)
          → ctx.json.is_object link_body ≡ true
          → s.written ≡ []
          → s'.written ≡ []
          → (name_link ctx print_name unique_str_id before_separator self link_body
              (defined_name
                (text_at ctx print_name unique_str_id before_separator link_body (codes "name")))
              s0).0
            ≡ ok (body, name)
          → ctx.get_value_as_json s'.world (body_key self lt to) ≡ some body
          → let created =
              (store_link ctx print_name unique_str_id before_separator self lt to
                (body, name)
                s).1.written in
            let removed =
              (delete_there ctx print_name unique_str_id before_separator typename query_id self lt
                to s').1.written in
            (sets k created ≡ deletes k removed)
            × (deletes k created ≡ false)
            × (sets k removed ≡ false)
      store_link-delete_there k typename query_id self lt to link_body body name s0 s s' object
            fresh fresh' chosen there =
          let e = name_link_lem self link_body body name s0 object chosen in
          let tags = tags_of ctx print_name unique_str_id before_separator body in
          let created = λ (p : Write J → Bool). any_of-store_link p self lt to body name s in
          let removed = λ (p : Write J → Bool).
            any_of-delete_there p typename query_id self lt to body name s' e there in
          (
            ground (arith, fresh, fresh', created (sets_key k), removed (deletes_key k)),
            ground (arith, fresh, created (deletes_key k), any_of-false tags),
            ground (arith, fresh', removed (sets_key k), any_of-false tags),
          )
