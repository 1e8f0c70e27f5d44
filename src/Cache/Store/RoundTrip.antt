-- ===== src/Cache/Store/RoundTrip.antt =====
-- What a caller reads from the cache after `SetValue` and `DeleteValue` (statefun/cache/cache.go).
use foliage_sdk.Common.{
  suc, Bool, true, false, Option, none, some, List, [], ◌∷◌, ◌≡◌, ◌≢◌, refl, ap, ◌∙◌, arith,
}
use foliage_sdk.Common.Int.{ℤ, negsuc}
use foliage_sdk.Common.Text.{Str}
use foliage_sdk.Cache.Key.{is_valid_key}
use foliage_sdk.Cache.Level.{Clock, tokens_of}
use foliage_sdk.Cache.Level.Laws.{Seen}
use foliage_sdk.Cache.Level.Frame.{or_else, is_level_of, built_at}
use foliage_sdk.Cache.Store.Changes.{gone}
use foliage_sdk.Cache.Store.Values.{
  IsNamed, look, answer, asked, get_value-answer, get_value_update_time-seen, valid-IsNamed,
}
use foliage_sdk.Cache.Value.{resolve, new_level}
use foliage_sdk.Cache.Store.{
  Store, KvReply, set_value, get_value, get_value_update_time, value_of, failed, does_not_exist,
}
use foliage_sdk.Cache.Store.Reads.{
  after_set, after_delete, set_value-valid, set_config, look-set_self, look-set_ne, asked_answer,
  delete_config, look-delete_self, look-delete_ne,
}

or_else-none : (o : Option Seen) → or_else o none ≡ o
or_else-none none = refl
or_else-none (some n) = refl

not_level_of_self : (p : List Str) → is_level_of p p ≡ false
unfolding is_level_of
not_level_of_self [] = refl
not_level_of_self (t ∷ p) = ground (arith, not_level_of_self p)

level-ne : (level key : Str) → is_level_of (tokens_of level) (tokens_of key) ≡ true → level ≢ key
level-ne level key above e = ground (
  arith,
  not_level_of_self (tokens_of key),
  ap (λ k. is_level_of (tokens_of k) (tokens_of key)) e,
)

no_value_at_level : (now : ℤ) → (new_level now).value_exists ≡ false
unfolding new_level
no_value_at_level now = refl

-- After `SetValue` of a valid key that is not empty, with no transaction, the call has returned
-- true, `GetValue` of the key answers the value whatever the bucket holds, and
-- `GetValueUpdateTime` answers the custom time, or the time of the call where that is negative.
pub get_value-set_value :
    (kv_get : Str → KvReply) (clock later : Clock) (key value : Str) (update_in_kv : Bool)
    (custom : ℤ) (s : Store)
    → is_valid_key key ≡ true
    → key ≢ []
    → ((set_value clock key value update_in_kv custom [] s).1 ≡ true)
      × ((get_value kv_get later key (after_set clock key value update_in_kv custom s)).1
          ≡ value_of (some value))
      × (get_value_update_time key (after_set clock key value update_in_kv custom s)
          ≡ resolve custom (clock 0))
get_value-set_value kv_get clock later key value update_in_kv custom s valid ne =
    let s' : Store = after_set clock key value update_in_kv custom s in
    let named = valid-IsNamed key valid ne in
    let seen = look-set_self clock key value update_in_kv custom s valid ne in
    (
      ap (λ (r : Store × Bool). r.1) (set_value-valid clock key value update_in_kv custom s valid),
      get_value-answer kv_get later key s' named
          ∙ ap (λ o. answer key o (asked kv_get later key s')) seen,
      get_value_update_time-seen key s' _ named seen,
    )

-- `SetValue` of a valid key leaves what `GetValue` answers for any other key as it was, unless
-- that key names a level above it. The key read has a last token that is not empty.
pub get_value-set_value_ne :
    (kv_get : Str → KvReply) (clock later : Clock) (key value other : Str) (update_in_kv : Bool)
    (custom : ℤ) (s : Store)
    → is_valid_key key ≡ true
    → key ≢ []
    → IsNamed other
    → other ≢ key
    → is_level_of (tokens_of other) (tokens_of key) ≡ false
    → (get_value kv_get later other (after_set clock key value update_in_kv custom s)).1
      ≡ (get_value kv_get later other s).1
get_value-set_value_ne kv_get clock later key value other update_in_kv custom s valid ne named apart
      not_level =
    let s' : Store = after_set clock key value update_in_kv custom s in
    ground (
      arith,
      get_value-answer kv_get later other s' named,
      get_value-answer kv_get later other s named,
      look-set_ne clock key value update_in_kv custom s valid other ne apart,
      or_else-none (look other s),
      asked_answer kv_get later other s' s (set_config clock key value update_in_kv custom s valid),
    )

-- A value that the cache does not hold is hidden by `SetValue` of a key below it: the level that
-- is built for the longer key answers that the value does not exist, and the bucket is not asked.
pub get_value-set_value_level :
    (kv_get : Str → KvReply) (clock later : Clock) (key value level : Str) (update_in_kv : Bool)
    (custom : ℤ) (s : Store)
    → is_valid_key key ≡ true
    → key ≢ []
    → IsNamed level
    → is_level_of (tokens_of level) (tokens_of key) ≡ true
    → look level s ≡ none
    → (get_value kv_get later level (after_set clock key value update_in_kv custom s)).1
      ≡ failed (does_not_exist level)
get_value-set_value_level kv_get clock later key value level update_in_kv custom s valid ne named
      above missing =
    let s' : Store = after_set clock key value update_in_kv custom s in
    ground (
      arith,
      get_value-answer kv_get later level s' named,
      look-set_ne clock key value update_in_kv custom s valid level ne (level-ne level key above),
      no_value_at_level (built_at (λ i. clock (suc i)) (tokens_of level)),
    )

-- After `DeleteValue` of a key that the cache holds, `GetValue` answers that the value does not
-- exist, whatever the bucket holds, `GetValueUpdateTime` answers -1, and what `GetValue` answers
-- for another key is as it was. The keys have last tokens that are not empty.
pub get_value-delete_value :
    (kv_get : Str → KvReply) (clock later : Clock) (key other : Str) (update_in_kv : Bool)
    (custom : ℤ) (s : Store) (held : Seen)
    → IsNamed key
    → IsNamed other
    → other ≢ key
    → look key s ≡ some held
    → ((get_value kv_get later key (after_delete clock key update_in_kv custom s)).1
        ≡ failed (does_not_exist key))
      × (get_value_update_time key (after_delete clock key update_in_kv custom s) ≡ negsuc 0)
      × ((get_value kv_get later other (after_delete clock key update_in_kv custom s)).1
          ≡ (get_value kv_get later other s).1)
get_value-delete_value kv_get clock later key other update_in_kv custom s held named named' apart
      there =
    let s' : Store = after_delete clock key update_in_kv custom s in
    let seen = look-delete_self clock key update_in_kv custom s named in
    (
      ground (arith, get_value-answer kv_get later key s' named, seen),
      ground (
        arith,
        seen,
        get_value_update_time-seen key s' (gone update_in_kv (resolve custom (clock 0))) named,
        get_value_update_time-seen key s' held named,
      ),
      ground (
        arith,
        get_value-answer kv_get later other s' named',
        get_value-answer kv_get later other s named',
        look-delete_ne clock key update_in_kv custom s other apart,
        asked_answer kv_get later other s' s (delete_config clock key update_in_kv custom s),
      ),
    )

-- `DeleteValue` of a key that the cache does not hold does not delete it: `GetValue` answers what it
-- answered before, from the bucket. The key has a last token that is not empty.
get_value-delete_value_missing :
    (kv_get : Str → KvReply) (clock later : Clock) (key : Str) (update_in_kv : Bool) (custom : ℤ)
    (s : Store)
    → IsNamed key
    → look key s ≡ none
    → (get_value kv_get later key (after_delete clock key update_in_kv custom s)).1
      ≡ (get_value kv_get later key s).1
get_value-delete_value_missing kv_get clock later key update_in_kv custom s named missing =
    let s' : Store = after_delete clock key update_in_kv custom s in
    ground (
      arith,
      get_value-answer kv_get later key s' named,
      get_value-answer kv_get later key s named,
      look-delete_self clock key update_in_kv custom s named,
      asked_answer kv_get later key s' s (delete_config clock key update_in_kv custom s),
    )
