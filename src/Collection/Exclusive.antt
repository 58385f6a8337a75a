-- ===== src/Collection/Exclusive.antt =====
-- At most one task of a source is active.
use policy_project_managemen.Prelude.{
  ℕ, ◌+◌, ◌<◌, ◌≡◌, ◌≢◌, ◌∙◌, refl, sym, subst, String, Bool, true, false, not, ◌&&◌, ◌||◌, Option,
  List, [], ◌∷◌, ◌++◌, ok, raise_if, or_raise, by_id, has_id, save, any, find, sort_by, ◌==◌, arith,
  All, All-map, All-append, All-save, All-find, All-sort_by, All-In, All-In_self, In, In-find,
  Distinct, Distinct-append_one, Distinct-save, Ensures, Ensures-bind, Ensures-ok, Bool-cases,
  Option-cases, inl, inr,
}
use policy_project_managemen.Notifications.Service.{Isolation, reread, Sessions}
use policy_project_managemen.SourceHealth.{
  is_finished, CollectionTask, HealthBook, record_source_task_outcome,
}
use policy_project_managemen.Collection.{
  or_health_error, CollectionTaskItem, CollectionBook, collection_already_running,
  collection_task_not_found, task_key, is_active, assert_collectable, is_active_of, new_task,
  create, older, is_waiting, started, claim_task, outcome_of, finished_task, finish_task,
  finish_from_items,
}

-- Different numbers, and not both active for one source.
abbrev pub TaskApart : CollectionTask → CollectionTask → Type 0
TaskApart a b =
    (a.id ≢ b.id)
    × ((is_active a.status && is_active b.status && a.source_id == b.source_id) ≡ false)

pub record IsExclusive (book : CollectionBook) : Type 0 where
  pub distinct : Distinct TaskApart book.tasks
  pub numbered : All (λ t. t.id < book.next_task_id) book.tasks

unclaimed-apart :
    (n source_id : ℕ) (t : CollectionTask) (tasks : List CollectionTask)
    → t.id ≡ n
    → t.source_id ≡ source_id
    → All (λ x. x.id < n) tasks
    → any (is_active_of source_id) tasks ≡ false
    → All (λ x. TaskApart x t) tasks
unclaimed-apart n source_id t [] e f h k = tt
unclaimed-apart n source_id t (x ∷ tasks) e f h k = (
  (ground (arith, h.0, e), ground (arith, f)),
  unclaimed-apart n source_id t tasks e f h.1 (ground (arith, k)),
)

added-IsExclusive :
    (t : CollectionTask) (book : CollectionBook)
    → t.id ≡ book.next_task_id
    → any (is_active_of t.source_id) book.tasks ≡ false
    → IsExclusive book
    → IsExclusive
        (record book { tasks = book.tasks ++ t ∷ []; next_task_id = book.next_task_id + 1 })
added-IsExclusive t book e k v = record {
  distinct =
      Distinct-append_one TaskApart book.tasks t v.distinct
        (unclaimed-apart book.next_task_id t.source_id t book.tasks e refl v.numbered k);
  numbered =
      All-append (λ x. x.id < book.next_task_id + 1) book.tasks (t ∷ [])
        (All-map (λ x. x.id < book.next_task_id) (λ x. x.id < book.next_task_id + 1) book.tasks
          (λ x l. omega arith) v.numbered)
        (omega (arith, e), tt);
}

-- A task that is written back keeps its number and its source, and is active only if it was.
saved-IsExclusive :
    (a b : CollectionTask) (health : HealthBook) (book : CollectionBook)
    → In b book.tasks
    → a.id ≡ b.id
    → a.source_id ≡ b.source_id
    → (not (is_active a.status) || is_active b.status) ≡ true
    → IsExclusive book
    → IsExclusive (record book { tasks = save task_key a book.tasks; health = health })
saved-IsExclusive a b health book m same source active v = record {
  distinct =
      Distinct-save task_key TaskApart (λ x y p. p.0) a b same
        (λ x p. (λ e. p.0 (e ∙ same), ground (arith, p.1, source, active)))
        (λ x p. (λ e. p.0 (sym same ∙ e), ground (arith, p.1, source, active))) book.tasks m
        v.distinct;
  numbered =
      All-save task_key (λ x. x.id < book.next_task_id) a book.tasks
        (subst (λ k. k < book.next_task_id) (sym same)
          (All-In (λ x. x.id < book.next_task_id) b book.tasks v.numbered m))
        v.numbered;
}

-- A creation that nobody disturbs, or that sees what others committed before the lock.
pub create-IsExclusive :
    (isolation : Isolation) (snapshot : CollectionBook) (now source_id : ℕ) (trigger_type : String)
    (requested_by : Option ℕ) (book : CollectionBook)
    → (reread isolation snapshot book).tasks ≡ book.tasks
    → IsExclusive book
    → Ensures
        (λ r. IsExclusive r.1)
        (create isolation snapshot now source_id trigger_type requested_by book)
unfolding create new_task
create-IsExclusive isolation snapshot now source_id trigger_type requested_by book fresh v =
    let After = λ (r : CollectionTask × CollectionBook). IsExclusive r.1 in
    Ensures-bind After (assert_collectable source_id snapshot.health.sources) _ λ source _.
      Ensures-bind After
        (raise_if (any (is_active_of source_id) (reread isolation snapshot book).tasks)
          collection_already_running)
        _ λ u g. added-IsExclusive _ book refl (ground (arith, g, fresh)) v

pub claim_task-IsExclusive :
    (locked : ℕ → Bool) (now : ℕ) (book : CollectionBook)
    → IsExclusive book
    → IsExclusive (claim_task locked now book).1
unfolding claim_task started
claim_task-IsExclusive locked now book v =
    elim (Option-cases (find (is_waiting locked) (sort_by older book.tasks))) [
      | inl e ↦ rw (e, claim_task) v
      | inr (t, e) ↦
          let (m, waiting) =
            All-find (λ a. In a book.tasks) (is_waiting locked) (sort_by older book.tasks)
              (All-sort_by (λ a. In a book.tasks) older book.tasks (All-In_self book.tasks)) e in
          rw (e, claim_task)
            (saved-IsExclusive (started now t) t book.health book m refl refl
              (ground (arith, waiting)) v)
    ]

outcome_of-is_active :
    (good bad returncode : ℕ) → is_active (outcome_of good bad returncode) ≡ false
unfolding outcome_of
outcome_of-is_active good bad returncode = ground arith

finished-fields :
    (now returncode : ℕ) (items : List CollectionTaskItem) (t : CollectionTask)
    → let done = finished_task now returncode items t in
      (done.id ≡ t.id) × (done.source_id ≡ t.source_id) × (is_active done.status ≡ false)
unfolding finished_task
finished-fields now returncode items t = (refl, refl, outcome_of-is_active _ _ returncode)

-- The tables are exclusive after the call, and the task is not active.
abbrev pub IsEnded : CollectionTask × CollectionBook → Type 0
IsEnded (t, book) = IsExclusive book × (is_active t.status ≡ false)

finish_task-IsEnded :
    (others : Sessions) (now returncode : ℕ) (t : CollectionTask) (book : CollectionBook)
    → In t book.tasks
    → IsExclusive book
    → Ensures IsEnded (finish_task others now returncode t book)
unfolding finish_task
finish_task-IsEnded others now returncode t book m v =
    let done = finished_task now returncode book.items t in
    let (same, source, over) = finished-fields now returncode book.items t in
    Ensures-bind IsEnded (or_health_error (record_source_task_outcome others now done book.health))
      _
      λ health _.
        (saved-IsExclusive done t health book m same source (ground (arith, over)) v, over)

pub finish_from_items-IsEnded :
    (others : Sessions) (now task_id returncode : ℕ) (book : CollectionBook)
    → IsExclusive book
    → Ensures IsEnded (finish_from_items others now task_id returncode book)
unfolding finish_from_items
finish_from_items-IsEnded others now task_id returncode book v =
    Ensures-bind IsEnded (or_raise (by_id task_key task_id book.tasks) collection_task_not_found) _
      λ t e. elim (Bool-cases (is_finished t.status)) [
        | inl over ↦ rw over (v, ground (arith, over))
        | inr active ↦ rw active (
            finish_task-IsEnded others now returncode t book
              (In-find (has_id task_key task_id) t book.tasks (ground (arith, e))) v)
      ]

-- A call that commits. Of the creations it takes those whose query reads the tasks there are: the
-- tables have not changed since the transaction started, or reads see what was committed.
pub data TaskStep : CollectionBook → CollectionBook → Type 0 where
  created :
      {book book' : CollectionBook} (isolation : Isolation) (snapshot : CollectionBook)
      (now source_id : ℕ) (trigger_type : String) (requested_by : Option ℕ) (t : CollectionTask)
      → (reread isolation snapshot book).tasks ≡ book.tasks
      → create isolation snapshot now source_id trigger_type requested_by book ≡ ok (t, book')
      → TaskStep book book'
  claimed :
      {book book' : CollectionBook} (locked : ℕ → Bool) (now : ℕ) (t : Option CollectionTask)
      → claim_task locked now book ≡ (t, book')
      → TaskStep book book'
  ended :
      {book book' : CollectionBook} (others : Sessions) (now task_id returncode : ℕ)
      (t : CollectionTask)
      → finish_from_items others now task_id returncode book ≡ ok (t, book')
      → TaskStep book book'

pub data TaskRun : CollectionBook → CollectionBook → Type 0 where
  nothing : {book : CollectionBook} → TaskRun book book
  then_step :
      {book middle final : CollectionBook}
      → TaskRun book middle
      → TaskStep middle final
      → TaskRun book final

TaskStep-IsExclusive :
    (book book' : CollectionBook) → IsExclusive book → TaskStep book book' → IsExclusive book'
TaskStep-IsExclusive book book' v
      (created isolation snapshot now source_id trigger_type requested_by t fresh e) =
    Ensures-ok (λ (r : CollectionTask × CollectionBook). IsExclusive r.1) _ (t, book')
      (create-IsExclusive isolation snapshot now source_id trigger_type requested_by book fresh v) e
TaskStep-IsExclusive book book' v (claimed locked now t e) =
    subst (λ r. IsExclusive r.1) e (claim_task-IsExclusive locked now book v)
TaskStep-IsExclusive book book' v (ended others now task_id returncode t e) =
    (Ensures-ok IsEnded _ (t, book')
      (finish_from_items-IsEnded others now task_id returncode book v) e).0

-- In every run of the calls, a creation reading the tasks there are when it holds the lock, at most
-- one task of a source is pending or running.
pub run-IsExclusive :
    (book final : CollectionBook) → IsExclusive book → TaskRun book final → IsExclusive final
run-IsExclusive book final v nothing = v
run-IsExclusive book final v (then_step {middle = middle} before s) =
    TaskStep-IsExclusive middle final (run-IsExclusive book middle v before) s
