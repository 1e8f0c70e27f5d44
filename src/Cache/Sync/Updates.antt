-- ===== src/Cache/Sync/Updates.antt =====
-- What the updates of the bucket do to the cache (`storeUpdatesHandler`, statefun/cache/cache.go).
use foliage_sdk.Common.{
  ℕ, true, false, not, ◌&&◌, Option, none, some, List, [], ◌∷◌, ◌==◌, ◌≡◌, ◌≢◌, refl, ap, ◌∙◌, sym,
  arith, inl, inr, Bool-cases, Option-cases, if◌then◌else◌,
}
use foliage_sdk.Common.Int.{ℤ, pos, negsuc, ltb_ℤ, eqb_ℤ}
use foliage_sdk.Common.Text.{Str, str_eq_iff}
use foliage_sdk.Cache.Key.{is_valid_key}
use foliage_sdk.Cache.Level.{Clock, tokens_of}
use foliage_sdk.Cache.Level.Laws.{Seen, seen_of, view, view_here, view_step}
use foliage_sdk.Cache.Level.Frame.{view_replaced}
use foliage_sdk.Cache.Store.Values.{
  IsNamed, look, get_value_update_time-seen, update_time_missing, valid-IsNamed,
}
use foliage_sdk.Cache.Store.Reads.{look-set_self}
use foliage_sdk.Cache.Value.{Entry, StoreValue, store_value, find_child, try_purge_confirm}
use foliage_sdk.Cache.Store.{Store, set_value, get_value_update_time}
use foliage_sdk.Cache.Sync.{at_value, confirm_update, handle_record}

-- What a confirmation of an update makes of what is seen.
abbrev pub confirmed : Seen → Seen
confirmed n = record n {
  synced_with_kv = true;
  purge_state = if not n.sync_needed && n.purge_state == 1 then 2 else n.purge_state;
}

seen_of-confirm_update : (e : Entry) → seen_of (confirm_update e) ≡ confirmed (seen_of e)
unfolding confirm_update try_purge_confirm
seen_of-confirm_update e = ground arith

abbrev map_seen : (Seen → Seen) → Option Seen → Option Seen
map_seen g none = none
map_seen g (some n) = some (g n)

view-at_value :
    (f : Entry → Entry) (g : Seen → Seen) (path : List Str) (csv : StoreValue)
    → ((e : Entry) → seen_of (f e) ≡ g (seen_of e))
    → view path (at_value f path csv) ≡ map_seen g (view path csv)
unfolding at_value
view-at_value f g [] (store_value e m) fg =
    view_here (f e) m ∙ ap some (fg e) ∙ ap (map_seen g) (sym (view_here e m))
view-at_value f g (t ∷ path) (store_value e m) fg = elim (Option-cases (find_child t m)) [
  | inl h ↦ ground (arith, view_step t path (store_value e m))
  | inr (c, h) ↦ ground (
    arith,
    view_step t path (store_value e m),
    view_replaced t t path e e m (at_value f path c),
    str_eq_iff t t,
    view-at_value f g path c fg,
  )
]

-- The time and the value of a key, where the value exists.
unfoldable pub summary : Option Seen → Option (ℤ × Option Str)
summary none = none
summary (some n) = if n.value_exists then some (n.value_update_time, n.value) else none

abbrev pub time_of : Option (ℤ × Option Str) → ℤ
time_of none = negsuc 0
time_of (some (time, value)) = time

-- The later of what is held and what arrives; what is held wins a tie.
unfoldable pub newer : ℕ → Str → Option (ℤ × Option Str) → Option (ℤ × Option Str)
newer t value held = if ltb_ℤ (time_of held) (pos t) then some (pos t, some value) else held

update_time-summary :
    (key : Str) (s : Store)
    → IsNamed key
    → get_value_update_time key s ≡ time_of (summary (look key s))
unfolding summary
update_time-summary key s named = elim (Option-cases (look key s)) [
  | inl h ↦ rw h (update_time_missing key s named h)
  | inr (n, h) ↦ rw h (get_value_update_time-seen key s n named h ∙ ground arith)
]

summary-confirmed : (o : Option Seen) → summary (map_seen confirmed o) ≡ summary o
unfolding summary
summary-confirmed none = refl
summary-confirmed (some n) = refl

module _ (clock : Clock) (store_key key : Str) (s : Store) where
  record_newer :
      (t : ℕ) (value : Str)
      → ltb_ℤ (get_value_update_time key s) (pos t) ≡ true
      → handle_record clock store_key key (pos t) 1 value s
        ≡ ((set_value clock key value false (pos t) [] s).0, none)
  unfolding handle_record
  record_newer t value h = rw (h, handle_record) refl

  record_not_newer :
      (t : ℕ) (value : Str)
      → is_valid_key key ≡ true
      → key ≢ []
      → ltb_ℤ (get_value_update_time key s) (pos t) ≡ false
      → summary (look key (handle_record clock store_key key (pos t) 1 value s).0)
        ≡ summary (look key s)
  unfolding handle_record
  record_not_newer t value valid ne h =
      elim (Bool-cases (eqb_ℤ (pos t) (get_value_update_time key s))) [
        | inl same ↦
            rw (h, same, handle_record)
              (ap summary (
                  view-at_value confirm_update confirmed (tokens_of key) s.root_value
                    seen_of-confirm_update)
                ∙ summary-confirmed (look key s))
        | inr other ↦ rw (h, other, handle_record) refl
      ]

  pub summary-handle_record :
      (t : ℕ) (value : Str)
      → is_valid_key key ≡ true
      → key ≢ []
      → summary (look key (handle_record clock store_key key (pos t) 1 value s).0)
        ≡ newer t value (summary (look key s))
  unfolding newer summary
  summary-handle_record t value valid ne =
      let named = valid-IsNamed key valid ne in
      let held = update_time-summary key s named in
      elim (Bool-cases (ltb_ℤ (get_value_update_time key s) (pos t))) [
        | inl later ↦
            ap (λ (r : Store × Option Str). summary (look key r.0)) (record_newer t value later)
            ∙ ap summary (look-set_self clock key value false (pos t) s valid ne)
            ∙ ground (arith, held, later)
        | inr old ↦ record_not_newer t value valid ne old ∙ ground (arith, held, old)
      ]
