-- ===== src/Cache/Store/Reads.antt =====
-- Reads after writes and deletions of the cache (statefun/cache/cache.go).
use foliage_sdk.Common.{
  suc, Bool, true, false, Option, none, some, [], ◌≡◌, ◌≢◌, refl, ap, ◌∙◌, arith,
}
use foliage_sdk.Common.Int.{ℤ}
use foliage_sdk.Common.Text.{Str, dot}
use foliage_sdk.Cache.Key.{is_valid_key, to_store_key, from_store_key}
use foliage_sdk.Cache.Record.{KvRecord, empty, short, record_of, parse_record}
use foliage_sdk.Cache.Key.Laws.{split_cons}
use foliage_sdk.Cache.Level.{Clock, at_parent, tokens_of}
use foliage_sdk.Cache.Level.Laws.{Seen, view}
use foliage_sdk.Cache.Level.Frame.{or_else, built, view-at_parent_ne}
use foliage_sdk.Cache.Level.Effect.{
  Acts, view-at_parent_self, view-at_parent_existing_ne, view-at_parent_existing_self,
}
use foliage_sdk.Cache.Store.Changes.{
  fresh, delete_seen, set_child-Acts, set_child-Local, delete_at-Acts, delete_at-Local,
}
use foliage_sdk.Cache.Store.Values.{
  IsNamed, look, asked, valid-IsNamed, tokens-ne, tokens_injective,
}
use foliage_sdk.Cache.Value.{StoreValue, resolve}
use foliage_sdk.Cache.Store.{
  Config, Store, KvReply, entry_of, kv_error, fetch, fetch_record, set_child, delete_at, set_value,
  delete_value,
}

-- The store after `SetValue` with no transaction.
abbrev pub after_set : Clock → Str → Str → Bool → ℤ → Store → Store
after_set clock key value update_in_kv custom s =
    (set_value clock key value update_in_kv custom [] s).0

abbrev pub after_delete : Clock → Str → Bool → ℤ → Store → Store
after_delete clock key update_in_kv custom s = delete_value clock key update_in_kv custom [] s

self_at :
    (clock : Clock) (f : Str → StoreValue → StoreValue) (g : Option Seen → Option Seen) (key : Str)
    (root : StoreValue)
    → Acts f g
    → IsNamed key
    → view (tokens_of key) (at_parent true clock f (tokens_of key) root)
      ≡ g (view (tokens_of key) root)
self_at clock f g key root acts named =
    let (t, ts, e) = split_cons dot key in
    rw e (view-at_parent_self clock f g t ts root acts (rw e at named))

self_at_existing :
    (clock : Clock) (f : Str → StoreValue → StoreValue) (g : Option Seen → Option Seen) (key : Str)
    (root : StoreValue)
    → Acts f g
    → IsNamed key
    → g none ≡ none
    → view (tokens_of key) (at_parent false clock f (tokens_of key) root)
      ≡ g (view (tokens_of key) root)
self_at_existing clock f g key root acts named stays =
    let (t, ts, e) = split_cons dot key in
    rw e (view-at_parent_existing_self clock f g t ts root acts (rw e at named) stays)

-- `SetValue` of a valid key outside a transaction.
pub set_value-valid :
    (clock : Clock) (key value : Str) (update_in_kv : Bool) (custom : ℤ) (s : Store)
    → is_valid_key key ≡ true
    → set_value clock key value update_in_kv custom [] s ≡ (
      record s {
        root_value =
            at_parent true
              (λ i. clock (suc i))
              (set_child value update_in_kv (resolve custom (clock 0)) (clock 0))
              (tokens_of key)
              s.root_value;
      },
      true,
    )
unfolding set_value
set_value-valid clock key value update_in_kv custom s valid = rw valid refl

module _ (clock : Clock) (key value : Str) (update_in_kv : Bool) (custom : ℤ) (s : Store)
    (valid : is_valid_key key ≡ true) where
  set_root :
      (after_set clock key value update_in_kv custom s).root_value
      ≡ at_parent true
          (λ i. clock (suc i))
          (set_child value update_in_kv (resolve custom (clock 0)) (clock 0))
          (tokens_of key)
          s.root_value
  set_root =
      ap (λ (r : Store × Bool). r.0.root_value)
        (set_value-valid clock key value update_in_kv custom s valid)

  pub set_config : (after_set clock key value update_in_kv custom s).cache_config ≡ s.cache_config
  set_config =
      ap (λ (r : Store × Bool). r.0.cache_config)
        (set_value-valid clock key value update_in_kv custom s valid)

  pub look-set_self :
      key ≢ []
      → look key (after_set clock key value update_in_kv custom s)
        ≡ some (fresh value update_in_kv (resolve custom (clock 0)))
  look-set_self ne =
      ap (view (tokens_of key)) set_root
      ∙ self_at (λ i. clock (suc i))
          (set_child value update_in_kv (resolve custom (clock 0)) (clock 0))
          (λ _. some (fresh value update_in_kv (resolve custom (clock 0)))) key s.root_value
          (set_child-Acts value update_in_kv custom (clock 0)) (valid-IsNamed key valid ne)

  pub look-set_ne :
      (other : Str)
      → key ≢ []
      → other ≢ key
      → look other (after_set clock key value update_in_kv custom s)
        ≡ or_else (look other s) (built (λ i. clock (suc i)) (tokens_of other) (tokens_of key))
  look-set_ne other ne apart =
      ap (view (tokens_of other)) set_root
      ∙ view-at_parent_ne (λ i. clock (suc i))
          (set_child value update_in_kv (resolve custom (clock 0)) (clock 0)) (tokens_of key)
          (tokens_of other) s.root_value (set_child-Local value update_in_kv custom (clock 0))
          (tokens-ne key (valid-IsNamed key valid ne)) (λ e. apart (tokens_injective other key e))

-- The answer to a miss depends on the configuration of the store alone.
fetch_record_answer :
    (clock : Clock) (key : Str) (r : KvRecord) (s t : Store)
    → (fetch_record clock key r s).1 ≡ (fetch_record clock key r t).1
unfolding fetch_record
fetch_record_answer clock key empty s t = refl
fetch_record_answer clock key short s t = refl
fetch_record_answer clock key (record_of time flag value) s t = ground arith

fetch_answer :
    (clock : Clock) (reply : KvReply) (s t : Store)
    → s.cache_config ≡ t.cache_config
    → (fetch clock reply s).1 ≡ (fetch clock reply t).1
unfolding fetch
fetch_answer clock (kv_error e) s t h = refl
fetch_answer clock (entry_of store_key bytes) s t h =
    ap
      (λ (c : Config).
        (fetch_record clock (from_store_key c.kv_store_prefix store_key) (parse_record bytes) s).1)
      h
    ∙ fetch_record_answer clock (from_store_key t.cache_config.kv_store_prefix store_key)
        (parse_record bytes) s t

pub asked_answer :
    (kv_get : Str → KvReply) (clock : Clock) (key : Str) (s t : Store)
    → s.cache_config ≡ t.cache_config
    → asked kv_get clock key s ≡ asked kv_get clock key t
asked_answer kv_get clock key s t h =
    fetch_answer clock _ s t h
    ∙ ap (λ (c : Config). (fetch clock (kv_get (to_store_key c.kv_store_prefix key)) t).1) h

module _ (clock : Clock) (key : Str) (update_in_kv : Bool) (custom : ℤ) (s : Store) where
  delete_root :
      (after_delete clock key update_in_kv custom s).root_value
      ≡ at_parent false
          (λ i. clock (suc i))
          (delete_at update_in_kv (resolve custom (clock 0)) (clock 0))
          (tokens_of key)
          s.root_value
  unfolding delete_value
  delete_root = refl

  pub delete_config : (after_delete clock key update_in_kv custom s).cache_config ≡ s.cache_config
  unfolding delete_value
  delete_config = refl

  pub look-delete_self :
      IsNamed key
      → look key (after_delete clock key update_in_kv custom s)
        ≡ delete_seen update_in_kv (resolve custom (clock 0)) (look key s)
  look-delete_self named =
      ap (view (tokens_of key)) delete_root
      ∙ self_at_existing (λ i. clock (suc i))
          (delete_at update_in_kv (resolve custom (clock 0)) (clock 0))
          (delete_seen update_in_kv (resolve custom (clock 0))) key s.root_value
          (delete_at-Acts update_in_kv custom (clock 0)) named refl

  pub look-delete_ne :
      (other : Str)
      → other ≢ key
      → look other (after_delete clock key update_in_kv custom s) ≡ look other s
  look-delete_ne other apart =
      ap (view (tokens_of other)) delete_root
      ∙ view-at_parent_existing_ne (λ i. clock (suc i))
          (delete_at update_in_kv (resolve custom (clock 0)) (clock 0)) (tokens_of key)
          (tokens_of other) s.root_value (delete_at-Local update_in_kv custom (clock 0))
          (λ e. apart (tokens_injective other key e))
