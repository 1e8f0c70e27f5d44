-- ===== src/System/KeyMutex/Laws.antt =====
-- What `KeyMutex` guarantees to routines that unlock only what they hold (statefun/system/system.go).
use foliage_sdk.Common.{ℕ, true, Option, none, some, ◌≡◌, arith}
use foliage_sdk.System.KeyMutex.{
  Place, outside, trying, created, found, borrowed, inside, leaving, KeyState, unlocked, Step, call,
  create, find, lock_own, lock_other, give_back, drop, release, Run, start, then_step,
}

-- The mutex that a routine has put into the map.
abbrev owned : Place → Option ℕ
owned outside = none
owned trying = none
owned (created m) = some m
owned (found m) = none
owned (borrowed m) = none
owned (inside m) = some m
owned (leaving m) = none

-- The mutex that a routine has locked.
abbrev held : Place → Option ℕ
held outside = none
held trying = none
held (created m) = none
held (found m) = none
held (borrowed m) = some m
held (inside m) = some m
held (leaving m) = some m

record IsSound (s : KeyState) : Type 0 where
  stored : (i m : ℕ) → owned (s.place i) ≡ some m → s.entry ≡ some m
  one_owner : (i j m : ℕ) → owned (s.place i) ≡ some m → owned (s.place j) ≡ some m → i ≡ j
  is_locked : (i m : ℕ) → held (s.place i) ≡ some m → s.locked m ≡ true
  one_holder : (i j m : ℕ) → held (s.place i) ≡ some m → held (s.place j) ≡ some m → i ≡ j

Step-IsSound : (i : ℕ) {s s' : KeyState} → Step i s s' → IsSound s → IsSound s'
Step-IsSound i (call s at) h = record {
  stored = λ j m o. ground (arith, h.stored j m);
  one_owner = λ j k m o p. ground (arith, h.one_owner j k m);
  is_locked = λ j m o. ground (arith, h.is_locked j m);
  one_holder = λ j k m o p. ground (arith, h.one_holder j k m);
}
Step-IsSound i (create s at free) h = record {
  stored = λ j m o. ground (arith, h.stored j m);
  one_owner = λ j k m o p. ground (arith, h.stored j m, h.stored k m);
  is_locked = λ j m o. ground (arith, h.is_locked j m);
  one_holder = λ j k m o p. ground (arith, h.one_holder j k m);
}
Step-IsSound i (find n s at e) h = record {
  stored = λ j m o. ground (arith, h.stored j m);
  one_owner = λ j k m o p. ground (arith, h.one_owner j k m);
  is_locked = λ j m o. ground (arith, h.is_locked j m);
  one_holder = λ j k m o p. ground (arith, h.one_holder j k m);
}
Step-IsSound i (lock_own n s at free) h = record {
  stored = λ j m o. ground (arith, h.stored j m, h.stored i m);
  one_owner = λ j k m o p. ground (arith, h.one_owner j k m, h.one_owner i k m, h.one_owner j i m);
  is_locked = λ j m o. ground (arith, h.is_locked j m);
  one_holder = λ j k m o p. ground (arith, h.one_holder j k m, h.is_locked j m, h.is_locked k m);
}
Step-IsSound i (lock_other n s at free) h = record {
  stored = λ j m o. ground (arith, h.stored j m);
  one_owner = λ j k m o p. ground (arith, h.one_owner j k m);
  is_locked = λ j m o. ground (arith, h.is_locked j m);
  one_holder = λ j k m o p. ground (arith, h.one_holder j k m, h.is_locked j m, h.is_locked k m);
}
Step-IsSound i (give_back n s at) h = record {
  stored = λ j m o. ground (arith, h.stored j m);
  one_owner = λ j k m o p. ground (arith, h.one_owner j k m);
  is_locked = λ j m o. ground (arith, h.is_locked j m, h.one_holder i j m);
  one_holder = λ j k m o p. ground (arith, h.one_holder j k m);
}
Step-IsSound i (drop n k s at e) h = record {
  stored = λ j m o. ground (arith, h.stored j m, h.stored i n, h.one_owner i j m);
  one_owner = λ j l m o p. ground (arith, h.one_owner j l m);
  is_locked = λ j m o. ground (arith, h.is_locked j m, h.is_locked i m, h.stored i n);
  one_holder = λ j l m o p.
      ground (arith, h.one_holder j l m, h.one_holder i l m, h.one_holder j i m, h.stored i n);
}
Step-IsSound i (release n s at) h = record {
  stored = λ j m o. ground (arith, h.stored j m);
  one_owner = λ j k m o p. ground (arith, h.one_owner j k m);
  is_locked = λ j m o. ground (arith, h.is_locked j m, h.one_holder i j m);
  one_holder = λ j k m o p. ground (arith, h.one_holder j k m);
}

Run-IsSound : {s : KeyState} → Run unlocked s → IsSound s
unfolding unlocked
Run-IsSound start = record {
  stored = λ i m o. absurd (cc);
  one_owner = λ i j m o p. absurd (cc);
  is_locked = λ i m o. absurd (cc);
  one_holder = λ i j m o p. absurd (cc);
}
Run-IsSound (then_step i r st) = Step-IsSound i st (Run-IsSound r)

-- In every state that any number of routines can reach, at most one is in its critical section.
pub key_mutex_exclusive :
    (s : KeyState) (i j m n : ℕ)
    → Run unlocked s
    → s.place i ≡ inside m
    → s.place j ≡ inside n
    → i ≡ j
key_mutex_exclusive s i j m n r here there =
    let h = Run-IsSound r in ground (arith, h.stored i m, h.stored j n, h.one_owner i j m)

-- A routine that is in its critical section finds its own mutex in the map, locked, so that its
-- `Unlock` does not panic.
key_mutex_unlock_safe :
    (s : KeyState) (i m : ℕ)
    → Run unlocked s
    → s.place i ≡ inside m
    → (s.entry ≡ some m) × (s.locked m ≡ true)
key_mutex_unlock_safe s i m r here =
    let h = Run-IsSound r in (ground (arith, h.stored i m), ground (arith, h.is_locked i m))
