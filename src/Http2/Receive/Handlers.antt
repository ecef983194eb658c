-- ===== src/Http2/Receive/Handlers.antt =====
-- Http2Receive.cpp: the table under header blocks, notifications and cancellation.
use hical.Base.{
  ℕ, ◌%◌, ◌≡◌, refl, ap, false, not, ◌||◌, List, [], ◌∷◌, Option, none, some, Text, leb, ◌==◌,
  is_some, arith, if_cases, option_holds,
}
use hical.Http2.Error.{NetworkError, no_error, protocol_error}
use hical.Http2.Budget.{server}
use hical.Http2.Headers.Storage.{request, new_storage}
use hical.Http2.Headers.Seal.{is_sealed, headers_append}
use hical.Http2.Stream.{create, reset_stream, protocol_open}
use hical.Http2.Receive.{
  Outside, Entry, UserCall, Receive, Reply, find_entry, fail_connection, stream_error, new_entry,
  is_client,
}
use hical.Http2.Receive.Events.{
  cancel, notify, after_notify, begin_block, admit, on_begin_headers, on_header, next_kind,
  error_of,
}
use hical.Http2.Receive.Table.{
  IsEntry, IsTable, update-IsTable, found-IsEntry, retire-IsTable, shared-IsTable, enrol-IsTable,
}
use hical.Http2.Receive.Ended.{reset_stream-IsEnded}
use hical.Http2.Receive.Answers.{
  KeepsTable, reject-IsTable, fail_connection-IsTable, codec_reset-IsTable,
}
use hical.Http2.Receive.Entries.{pending-IsEntry, begun-IsEntry, named-IsEntry, create-IsNew}

pub no_error_of : (o : Option NetworkError) → is_some o ≡ false → o ≡ none
no_error_of none h = refl
no_error_of (some e) h = absurd (ground arith)

module _ (o : Outside) where
  pub cancel-IsTable : (r : Receive) (id number : ℕ) → IsTable r → KeepsTable (cancel o r id number)
  unfolding cancel
  cancel-IsTable r id number k =
      option_holds KeepsTable (find_entry id r.streams) _ _ (λ n. record { sound = k })
        (λ e f.
          let (s, t, _) = reset_stream o.now r.shared e.stream number in
          codec_reset-IsTable o.now o.reset_result _ id number (Reply.code no_error) (
            retire-IsTable r id s t k (
              reset_stream-IsEnded o.now r.shared e.stream number
                (found-IsEntry r id e k f).consistent)))

  pub notify-IsTable : (cs : List UserCall) (r : Receive) → IsTable r → KeepsTable (notify o cs r)
  unfolding notify
  notify-IsTable [] r k = record { sound = k }
  notify-IsTable (UserCall.fails error ∷ cs) r k =
      notify-IsTable cs (fail_connection o.now r error) (fail_connection-IsTable o.now r error k)
  notify-IsTable (UserCall.cancels id number ∷ cs) r k =
      by_reply (cancel o r id number) (cancel-IsTable r id number k) (notify-IsTable cs)
    where
      by_reply :
          (x : Receive × Reply)
          → KeepsTable x
          → ((t : Receive) → IsTable t → KeepsTable (notify o cs t))
          → KeepsTable (elim x.1 as (λ _. Receive × Reply) [
            | Reply.thrown ↦ (x.0, Reply.thrown)
            | Reply.code c ↦ notify o cs x.0
          ])
      by_reply (r', Reply.thrown) k' ih = record { sound = k'.sound }
      by_reply (r', Reply.code c) k' ih = ih r' k'.sound

  pub after_notify-IsTable :
      (id : ℕ) (x : Receive × Reply) → KeepsTable x → KeepsTable (after_notify o id x)
  unfolding after_notify
  after_notify-IsTable id (r, Reply.thrown) k = record { sound = k.sound }
  after_notify-IsTable id (r, Reply.code c) k =
      option_holds KeepsTable (error_of r id) _ _ (λ n. record { sound = k.sound })
        (λ e f. record { sound = k.sound })

  begin_block-IsTable :
      (r : Receive) (id : ℕ) (e : Entry) → IsTable r → IsEntry e → KeepsTable (begin_block o r id e)
  unfolding begin_block
  begin_block-IsTable r id e k p =
      if_cases KeepsTable (not (protocol_open e.stream)) _ _
        (λ c. reject-IsTable o.now r id e.stream.error k)
        (λ c.
          if_cases KeepsTable
            (is_some e.pending_headers || e.stream.body_complete || is_sealed e.stream.trailers) _ _
            (λ d. reject-IsTable o.now r id (some (stream_error id protocol_error)) k)
            (λ d.
              option_holds KeepsTable (new_storage (next_kind r e) id r.options) _ _
                (λ n. record {
                  sound =
                      update-IsTable r id _ k (named-IsEntry e (next_kind r e) p (ground arith));
                })
                (λ h f. record { sound = update-IsTable r id _ k (begun-IsEntry r e (some h) p) })))

  pub on_header-IsTable :
      (r : Receive) (id : ℕ) (name value : Text)
      → IsTable r
      → KeepsTable (on_header o r id name value)
  unfolding on_header
  on_header-IsTable r id name value k =
      option_holds KeepsTable (find_entry id r.streams) _ _ (λ n. record { sound = k })
        (λ e f.
          option_holds KeepsTable e.pending_headers _ _
            (λ n. reject-IsTable o.now r id (some (stream_error id protocol_error)) k)
            (λ pending g.
              let (h, error) = headers_append o.make_address_v6 pending name value in
              let sound =
                update-IsTable r id (record e { pending_headers = some h }) k
                  (pending-IsEntry e h (found-IsEntry r id e k f) (ap is_some g)) in
              option_holds KeepsTable error _ _ (λ n. record { sound = sound })
                (λ x y. reject-IsTable o.now _ id (some x) sound)))

  admit-IsTable :
      (r : Receive) (id : ℕ) → IsTable r → r.connection_error ≡ none → KeepsTable (admit o r id)
  unfolding admit
  admit-IsTable r id k open_ =
      option_holds KeepsTable (create server r.shared id request 4294967295 r.options) _ _
        (λ n. record { sound = k })
        (λ created f.
          let fresh = create-IsNew server r.shared id request 4294967295 r.options created f in
          option_holds KeepsTable created.1 _ _
            (λ n. record { sound = shared-IsTable r created.0 k })
            (λ t g.
              let p = fresh.entry t g in
              begin_block-IsTable _ id (new_entry t false)
                (enrol-IsTable r created.0 (new_entry t false) k p open_) p))

  pub on_begin_headers-IsTable :
      (r : Receive) (id : ℕ) → IsTable r → KeepsTable (on_begin_headers o r id)
  unfolding on_begin_headers
  on_begin_headers-IsTable r id k =
      if_cases KeepsTable (is_some r.connection_error) _ _ (λ c. record { sound = k })
        (λ c.
          option_holds KeepsTable (find_entry id r.streams) _ _
            (λ n.
              if_cases KeepsTable
                (is_client r.role || leb id r.last_server_stream_id || id % 2 == 0) _ _
                (λ d. record { sound = k })
                (λ d.
                  admit-IsTable (record r { last_server_stream_id = id }) id
                    (record {
                      entries = k.entries;
                      empty_after_error = k.empty_after_error;
                      ended = k.ended;
                    })
                    (no_error_of r.connection_error c)))
            (λ e f. begin_block-IsTable r id e k (found-IsEntry r id e k f)))
