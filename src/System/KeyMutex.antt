-- ===== src/System/KeyMutex.antt =====
-- `KeyMutex` of statefun/system/system.go, for one key: a map entry that holds the mutex of the
-- routine that stored it. Each access to the map and each mutex operation is a step of a routine.
pub mod Laws
use foliage_sdk.Common.{ℕ, suc, Bool, true, false, Option, none, some, ◌==◌, ◌≡◌, if◌then◌else◌}

-- Where a routine is: not in a call; before `LoadOrStore`; before `mm.Lock()` with its own mutex
-- stored, or with another's loaded; with another's mutex locked; in its critical section; and in
-- `Unlock` between `Delete` and `l_.Unlock()`.
pub data Place : Type 0 where
  outside : Place
  trying : Place
  created : ℕ → Place
  found : ℕ → Place
  borrowed : ℕ → Place
  inside : ℕ → Place
  leaving : ℕ → Place

-- Mutexes and routines have numbers. `fresh` is the next mutex.
pub record KeyState : Type 0 where
  pub entry : Option ℕ
  pub locked : ℕ → Bool
  pub fresh : ℕ
  pub place : ℕ → Place

unfoldable pub unlocked : KeyState
unlocked = record { entry = none; locked = λ m. false; fresh = 0; place = λ i. outside }

abbrev pub replace {ℓ} : {A : Type ℓ} → (ℕ → A) → ℕ → A → ℕ → A
replace f i a j = if i == j then a else f j

-- A step of the routine `i`. `Unlock` is called by a routine that is in its critical section; it
-- takes the mutex that the entry has.
pub data Step (i : ℕ) : KeyState → KeyState → Type 0 where
  call :
      (s : KeyState)
      → s.place i ≡ outside
      → Step i s (record s { place = replace s.place i trying })
  create :
      (s : KeyState)
      → s.place i ≡ trying
      → s.entry ≡ none
      → Step i s (record s {
        entry = some s.fresh;
        fresh = suc s.fresh;
        place = replace s.place i (created s.fresh);
      })
  find :
      (m : ℕ) (s : KeyState)
      → s.place i ≡ trying
      → s.entry ≡ some m
      → Step i s (record s { place = replace s.place i (found m) })
  lock_own :
      (m : ℕ) (s : KeyState)
      → s.place i ≡ created m
      → s.locked m ≡ false
      → Step i s
          (record s { locked = replace s.locked m true; place = replace s.place i (inside m) })
  lock_other :
      (m : ℕ) (s : KeyState)
      → s.place i ≡ found m
      → s.locked m ≡ false
      → Step i s
          (record s { locked = replace s.locked m true; place = replace s.place i (borrowed m) })
  give_back :
      (m : ℕ) (s : KeyState)
      → s.place i ≡ borrowed m
      → Step i s (record s { locked = replace s.locked m false; place = replace s.place i trying })
  drop :
      (m k : ℕ) (s : KeyState)
      → s.place i ≡ inside m
      → s.entry ≡ some k
      → Step i s (record s { entry = none; place = replace s.place i (leaving k) })
  release :
      (m : ℕ) (s : KeyState)
      → s.place i ≡ leaving m
      → Step i s (record s { locked = replace s.locked m false; place = replace s.place i outside })

pub data Run (s : KeyState) : KeyState → Type 0 where
  start : Run s s
  then_step : (i : ℕ) {t u : KeyState} → Run s t → Step i t u → Run s u
