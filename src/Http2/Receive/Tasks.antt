-- ===== src/Http2/Receive/Tasks.antt =====
-- Http2Receive.cpp: what the owner of a stream of the table does to it: it publishes the body, and the
-- guard of its task starts and finishes.
use hical.Base.{ℕ, ◌≡◌, true, none, some, if◌then◌else◌, arith, if_cases, option_holds}
use hical.Http2.Budget.{Shared}
use hical.Http2.Stream.{publish_body, start_application, finish_application}
use hical.Http2.Stream.Consistent.{
  publish_body-IsConsistent, start_application-IsConsistent, finish_application-IsConsistent,
}
use hical.Http2.Receive.{Entry, Receive, find_entry, update}
use hical.Http2.Receive.Table.{IsEntry, IsTable, update-IsTable, found-IsEntry, shared-IsTable}

unfoldable pub publish : Receive → ℕ → Receive
publish r id = elim (find_entry id r.streams) [
  | none ↦ r
  | some e ↦ update r id (record e { stream = (publish_body e.stream).0 })
]

unfoldable pub start_task : Receive → ℕ → Receive
start_task r id = elim (find_entry id r.streams) [
  | none ↦ r
  | some e ↦ update r id (record e { stream = (start_application e.stream).0 })
]

-- A guard that was not given finishes nothing.
unfoldable pub finish_task : Receive → ℕ → Receive
finish_task r id = elim (find_entry id r.streams) [
  | none ↦ r
  | some e ↦
      let (s, t) = finish_application r.shared e.stream in
      if e.stream.application_started
      then record (update r id (record e { stream = t })) { shared = s }
      else r
]

publish_body-IsEntry :
    (e : Entry) → IsEntry e → IsEntry (record e { stream = (publish_body e.stream).0 })
unfolding publish_body
publish_body-IsEntry e p = record {
  consistent = publish_body-IsConsistent e.stream p.consistent;
  fits = ground (arith, p.fits);
  fresh = ground (arith, p.fresh);
  unsealed_is_empty = ground (arith, p.unsealed_is_empty);
  unsealed_waits = ground (arith, p.unsealed_waits);
  exact = ground (arith, p.exact);
}

start_application-IsEntry :
    (e : Entry) → IsEntry e → IsEntry (record e { stream = (start_application e.stream).0 })
unfolding start_application
start_application-IsEntry e p = record {
  consistent = start_application-IsConsistent e.stream p.consistent;
  fits = ground (arith, p.fits);
  fresh = ground (arith, p.fresh);
  unsealed_is_empty = ground (arith, p.unsealed_is_empty);
  unsealed_waits = ground (arith, p.unsealed_waits);
  exact = ground (arith, p.exact);
}

finish_application-IsEntry :
    (s : Shared) (e : Entry)
    → e.stream.application_started ≡ true
    → IsEntry e
    → IsEntry (record e { stream = (finish_application s e.stream).1 })
unfolding finish_application
finish_application-IsEntry s e started p = record {
  consistent = finish_application-IsConsistent s e.stream started p.consistent;
  fits = p.fits;
  fresh = p.fresh;
  unsealed_is_empty = p.unsealed_is_empty;
  unsealed_waits = p.unsealed_waits;
  exact = p.exact;
}

pub publish-IsTable : (r : Receive) (id : ℕ) → IsTable r → IsTable (publish r id)
unfolding publish
publish-IsTable r id k =
    option_holds IsTable (find_entry id r.streams) _ _ (λ n. k)
      (λ e f. update-IsTable r id _ k (publish_body-IsEntry e (found-IsEntry r id e k f)))

pub start_task-IsTable : (r : Receive) (id : ℕ) → IsTable r → IsTable (start_task r id)
unfolding start_task
start_task-IsTable r id k =
    option_holds IsTable (find_entry id r.streams) _ _ (λ n. k)
      (λ e f. update-IsTable r id _ k (start_application-IsEntry e (found-IsEntry r id e k f)))

pub finish_task-IsTable : (r : Receive) (id : ℕ) → IsTable r → IsTable (finish_task r id)
unfolding finish_task
finish_task-IsTable r id k =
    option_holds IsTable (find_entry id r.streams) _ _ (λ n. k)
      (λ e f.
        let done : Entry = record e { stream = (finish_application r.shared e.stream).1 } in
        let s = (finish_application r.shared e.stream).0 in
        if_cases IsTable e.stream.application_started (record (update r id done) { shared = s }) r
          (λ c. shared-IsTable (update r id done) s (
            update-IsTable r id done k
              (finish_application-IsEntry r.shared e c (found-IsEntry r id e k f))))
          (λ c. k))
