-- ===== src/Mutex/Memory.antt =====
-- A bucket in memory that keeps the laws of the NATS bucket: the value and the revision of each key.
use foliage_sdk.Common.{
  ℕ, suc, Option, none, some, ◌≡◌, ◌≢◌, refl, ap, ◌∙◌, arith, inl, inr, ◌==◌, Bool-cases,
  if◌then◌else◌,
}
use foliage_sdk.Common.Dict.{Dict, load, assign, load-assign}
use foliage_sdk.Common.Text.{Str, str_eq_iff}
use foliage_sdk.Mutex.Kv.{
  Bucket, IsLinear, GetReply, entry_of, not_found, WriteReply, written, wrong_sequence, WatchReply,
  first, first_nil,
}

abbrev pub Memory : Type 0
Memory = Dict (Str × ℕ)

abbrev reply_of : Option (Str × ℕ) → GetReply
reply_of none = not_found
reply_of (some (value, rev)) = entry_of value rev

abbrev watch_of : Option (Str × ℕ) → WatchReply
watch_of none = first_nil
watch_of (some (value, rev)) = first value

abbrev next_of : Option (Str × ℕ) → ℕ
next_of none = 1
next_of (some (value, rev)) = suc rev

abbrev put_at : Str → Str → Memory → Memory × WriteReply
put_at key value b = (assign key (value, next_of (load key b)) b, written (next_of (load key b)))

unfoldable pub update_entry : Str → Str → ℕ → Memory → Option (Str × ℕ) → Memory × WriteReply
update_entry key value rev b none = (b, wrong_sequence)
update_entry key value rev b (some (old, now)) =
    if now == rev then (assign key (value, suc now) b, written (suc now)) else (b, wrong_sequence)

unfoldable pub update_at : Str → Str → ℕ → Memory → Memory × WriteReply
unfolding update_entry
update_at key value rev b = update_entry key value rev b (load key b)

abbrev pub memory : Bucket
memory = record {
  State = Memory;
  get = λ key b. reply_of (load key b);
  put = put_at;
  update = update_at;
  watch = λ key b. watch_of (load key b);
}

get-assign :
    (key value : Str) (rev : ℕ) (b : Memory)
    → reply_of (load key (assign key (value, rev) b)) ≡ entry_of value rev
get-assign key value rev b = ground (arith, load-assign key key (value, rev) b, str_eq_iff key key)

reply_inv :
    (o : Option (Str × ℕ)) (value : Str) (rev : ℕ)
    → reply_of o ≡ entry_of value rev
    → o ≡ some (value, rev)
reply_inv none value rev h = absurd (cc)
reply_inv (some (v, r)) value rev h = ground arith

accepted :
    (key value old : Str) (rev : ℕ) (b : Memory)
    → load key b ≡ some (old, rev)
    → update_at key value rev b ≡ (assign key (value, suc rev) b, written (suc rev))
unfolding update_at
accepted key value old rev b h = rw (h, update_at, update_entry) (ground arith)

refused_entry :
    (key value old : Str) (rev other : ℕ) (b : Memory)
    → other ≢ rev
    → update_entry key value other b (some (old, rev)) ≡ (b, wrong_sequence)
unfolding update_entry
refused_entry key value old rev other b apart = ground arith

refused :
    (key value old : Str) (rev other : ℕ) (b : Memory)
    → load key b ≡ some (old, rev)
    → other ≢ rev
    → update_at key value other b ≡ (b, wrong_sequence)
unfolding update_at
refused key value old rev other b h apart =
    ap (update_entry key value other b) h ∙ refused_entry key value old rev other b apart

entry_reads :
    (key value : Str) (rev next : ℕ) (b : Memory) (o : Option (Str × ℕ))
    → (update_entry key value rev b o).1 ≡ written next
    → reply_of (load key (update_entry key value rev b o).0) ≡ entry_of value next
unfolding update_entry
entry_reads key value rev next b none h = absurd (cc)
entry_reads key value rev next b (some (old, now)) h = elim (Bool-cases (now == rev)) [
  | inl e ↦ ground (arith, get-assign key value (suc now) b)
  | inr e ↦ absurd (ground arith)
]

update_reads :
    (key value : Str) (rev next : ℕ) (b : Memory)
    → (update_at key value rev b).1 ≡ written next
    → reply_of (load key (update_at key value rev b).0) ≡ entry_of value next
unfolding update_at
update_reads key value rev next b h = entry_reads key value rev next b (load key b) h

pub memory-IsLinear : IsLinear memory
memory-IsLinear = record {
  put_written = λ key value b. (next_of (load key b), refl, get-assign key value _ b);
  update_written = update_reads;
  update_current = λ key value old rev b h.
      let e = accepted key value old rev b (reply_inv (load key b) old rev h) in
      (
        suc rev,
        ap (λ (r : Memory × WriteReply). r.1) e,
        ap (λ (r : Memory × WriteReply). reply_of (load key r.0)) e
            ∙ get-assign key value (suc rev) b,
        omega arith,
      );
  update_stale = λ key value old rev other b h apart.
      refused key value old rev other b (reply_inv (load key b) old rev h) apart;
}
