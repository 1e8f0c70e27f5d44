-- ===== src/Jpgql/Search/Tests.antt =====
-- A query of embedded/graph/jpgql/jpgql.go that two descendants evaluate.
use mathlib.Core.Path.{subst}
use foliage_sdk.Common.{
  no_case, ℕ, Bool, true, false, Option, none, some, List, [], ◌∷◌, ◌≡◌, refl, sym, ap, ◌∙◌, ◌⊎◌,
  inl, inr, ◌↔◌, if◌then◌else◌, Among, here, there, rev_onto,
}
use foliage_sdk.Common.Dict.{load, assign}
use foliage_sdk.Common.Text.{Str, codes, str_eq, str_eq_iff}
use foliage_sdk.Jpgql.Search.{
  Task, init_pending_process, advance, pick, search, begin_search, key_of,
}
use foliage_sdk.Jpgql.Search.Aggregate.{receive, aggregate, new_root}
use foliage_sdk.Jpgql.Search.Events.{Visits, visits_root, visits_next}
use foliage_sdk.Jpgql.Search.Laws.{Finds, AreDistinct, aggregate-search}
use foliage_sdk.Jpgql.Search.Progress.{aggregate-search_replies}

abbrev root : Task
root = (codes "a", codes ".x.y")

abbrev next : Task
next = (codes "b", codes ".y")

-- From "a" the query leads to "b", where the rest of it is evaluated, and finds "c"; from "b" it finds
-- "d".
abbrev expands : Task → Option (List Task)
expands (id, query) =
    some (if str_eq query (codes ".x.y") then next ∷ (codes "c", []) ∷ [] else (codes "d", []) ∷ [])

abbrev same : Str → Str
same s = s

abbrev order : List ℕ
order = 0 ∷ 0 ∷ 0 ∷ 0 ∷ 0 ∷ []

abbrev is_end : Task → Bool
is_end (id, []) = true
is_end (id, c ∷ query) = false

abbrev tasks_of : Option (List Task) → List Task
tasks_of none = []
tasks_of (some ts) = ts

one_of_two : (p : Task) → Visits expands same root p → (p ≡ root) ⊎ (p ≡ next)
unfolding str_eq
one_of_two p visits_root = inl refl
one_of_two p (visits_next {p = q} {ts = ts} {id = id} {query = query} {c = c} v x a) =
    by_task (one_of_two q v)
  where
    from_root : Among {A = Task} (id, c ∷ query) (next ∷ (codes "c", []) ∷ []) → p ≡ next
    from_root (here e) = sym e
    from_root (there (here e)) = no_case (sym (ap is_end e))
    from_root (there (there h)) = elim h [ ]

    from_next : Among {A = Task} (id, c ∷ query) ((codes "d", []) ∷ []) → p ≡ next
    from_next (here e) = no_case (sym (ap is_end e))
    from_next (there h) = elim h [ ]

    by_task : (q ≡ root) ⊎ (q ≡ next) → (p ≡ root) ⊎ (p ≡ next)
    by_task (inl e) = inr (
        from_root
          (subst (λ l. Among {A = Task} (id, c ∷ query) l) (ap tasks_of (sym x ∙ ap expands e)) a))
    by_task (inr e) = inr (
        from_next
          (subst (λ l. Among {A = Task} (id, c ∷ query) l) (ap tasks_of (sym x ∙ ap expands e)) a))

replied :
    aggregate
      (rev_onto (search expands same order (begin_search expands same root)).events [])
      new_root
    ≡ some (codes "c" ∷ codes "d" ∷ [])
unfolding aggregate receive load assign str_eq search begin_search init_pending_process advance pick
replied = refl

keys_differ : {A : Type 0} → key_of expands same root ≡ key_of expands same next → A
unfolding str_eq
keys_differ e = no_case ((str_eq_iff (codes "a_.x.y") (codes "b_.y")).1 e)

two_keys : AreDistinct expands same root
two_keys p q v w e = by_tasks (one_of_two p v) (one_of_two q w)
  where
    by_tasks : (p ≡ root) ⊎ (p ≡ next) → (q ≡ root) ⊎ (q ≡ next) → p ≡ q
    by_tasks (inl a) (inl b) = a ∙ sym b
    by_tasks (inr a) (inr b) = a ∙ sym b
    by_tasks (inl a) (inr b) =
        keys_differ (ap (key_of expands same) (sym a) ∙ e ∙ ap (key_of expands same) b)
    by_tasks (inr a) (inl b) =
        keys_differ (ap (key_of expands same) (sym b) ∙ sym e ∙ ap (key_of expands same) a)

aggregate-search_example :
    Among (codes "d") (codes "c" ∷ codes "d" ∷ []) ↔ Finds expands same root (codes "d")
aggregate-search_example =
    aggregate-search expands same root order (codes "c" ∷ codes "d" ∷ []) two_keys replied
      (codes "d")

all_expand : (p : Task) → Visits expands same root p → (ts : List Task) × (expands p ≡ some ts)
all_expand (id, query) v = (
  if str_eq query (codes ".x.y") then next ∷ (codes "c", []) ∷ [] else (codes "d", []) ∷ [],
  refl,
)

all_finished : (search expands same order (begin_search expands same root)).working ≡ []
unfolding search begin_search init_pending_process advance pick str_eq
all_finished = refl

aggregate-search_replies_example :
    (res : List Str) × (aggregate
        (rev_onto (search expands same order (begin_search expands same root)).events [])
        new_root
      ≡ some res)
aggregate-search_replies_example =
    aggregate-search_replies expands same root order all_expand all_finished
