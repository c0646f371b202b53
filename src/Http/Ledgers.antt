-- ===== src/Http/Ledgers.antt =====
-- internal/adapter/http/ledger.go: the handlers of the ledger.
use pfm_go.Common.{String, Option, none, some, List, [], ◌∷◌, map, ◌==◌, string_eq, if◌then◌else◌}
use pfm_go.Common.Int.{ℤ, pos, ltb_ℤ, leb_ℤ}
use pfm_go.Types.{Uuid, uuid_nil}
use pfm_go.Message.{msg_bad_request_body}
use pfm_go.Effect.{Action}
use pfm_go.Ledger.{
  Transaction, Entry, EntryInput, PostTransactionInput, HistoryQuery, TransactionWithEntries,
}
use pfm_go.Http.{caller_id}
use pfm_go.Http.Wire.{
  Body, Codec, Payload, EntryInputRequest, EntryResponse, TransactionResponse, BalanceResponse,
}
use pfm_go.Http.Response.{
  Response, Handler, write_json, write_created, bad_request, or_reply, with_path_id, with_body,
  answer,
}

module _ (codec : Codec) where
  unfoldable to_entry_response : Entry → EntryResponse
  to_entry_response e = record {
    id = codec.uuid_string e.id;
    transaction_id = codec.uuid_string e.transaction_id;
    account_id = codec.uuid_string e.account_id;
    entry_type = e.entry_type;
    amount = e.amount;
    created_at = codec.rfc3339 e.created_at;
  }

  unfoldable to_transaction_response : Transaction → List Entry → TransactionResponse
  unfolding to_entry_response
  to_transaction_response t entries = record {
    id = codec.uuid_string t.id;
    household_id = codec.uuid_string t.household_id;
    description = t.description;
    transaction_date = codec.date_string t.transaction_date;
    created_at = codec.rfc3339 t.created_at;
    entries = map to_entry_response entries;
  }

  unfoldable to_transaction_with_entries_response : TransactionWithEntries → TransactionResponse
  unfolding to_transaction_response
  to_transaction_with_entries_response t = to_transaction_response t.transaction t.entries

  unfoldable pub created_transaction : Transaction × List Entry → Response
  unfolding to_transaction_response write_created
  created_transaction (t, entries) =
      write_created "" (Payload.transaction (to_transaction_response t entries))

  unfoldable show_balance : Uuid → ℤ → Response
  unfolding write_json
  show_balance account_id balance =
      let shown : BalanceResponse = record {
        account_id = codec.uuid_string account_id;
        balance = balance;
      } in
      write_json 200 (Payload.balance shown)

  unfoldable pub show_history : List TransactionWithEntries → Response
  unfolding to_transaction_with_entries_response write_json
  show_history history =
      write_json 200 (Payload.transactions (map to_transaction_with_entries_response history))

  -- The loop of `PostTransactionHandler` over the entries: none at the first one whose account is
  -- no UUID.
  unfoldable pub entry_inputs : List EntryInputRequest → Option (List EntryInput)
  entry_inputs [] = some []
  entry_inputs (e ∷ es) =
      let rest = entry_inputs es in
      elim (codec.parse_uuid e.account_id) [
        | none ↦ none
        | some account_id ↦ elim rest [
          | none ↦ none
          | some inputs ↦ some (
              record { account_id = account_id; entry_type = e.entry_type; amount = e.amount }
              ∷ inputs)
        ]
      ]

  -- The optional filter by account: none is the reply to a text that is no UUID.
  unfoldable pub account_filter : String → Option Uuid
  account_filter s = if s == "" then some uuid_nil else codec.parse_uuid s

  -- The optional limit and offset: what is no number, or out of range, leaves the zero value.
  unfoldable pub limit_of : String → ℤ
  limit_of s = if s == "" then pos 0 else (elim (codec.atoi s) [
    | none ↦ pos 0
    | some limit ↦ if ltb_ℤ (pos 0) limit then limit else pos 0
  ])

  unfoldable pub offset_of : String → ℤ
  offset_of s = if s == "" then pos 0 else (elim (codec.atoi s) [
    | none ↦ pos 0
    | some offset ↦ if leb_ℤ (pos 0) offset then offset else pos 0
  ])

  module _ {S : Type 0} where
    unfoldable pub post_transaction_handler :
        (Uuid → PostTransactionInput → Uuid → Action S (Transaction × List Entry)) → Handler S
    unfolding with_path_id with_body or_reply bad_request entry_inputs answer caller_id
        created_transaction
    post_transaction_handler post_transaction r =
        with_path_id codec "household_id" r λ household_id.
          with_body codec Body.post_transaction r λ req.
            or_reply codec (codec.parse_date req.transaction_date)
              (bad_request msg_bad_request_body)
              λ txn_date.
                or_reply codec (entry_inputs req.entries) (bad_request msg_bad_request_body)
                  λ entries.
                    let input : PostTransactionInput = record {
                      description = req.description;
                      transaction_date = txn_date;
                      entries = entries;
                    } in
                    answer codec (post_transaction household_id input (caller_id r))
                      created_transaction

    unfoldable pub get_balance_handler : (Uuid → Action S ℤ) → Handler S
    unfolding with_path_id answer show_balance
    get_balance_handler get_balance r =
        with_path_id codec "account_id" r
          λ account_id. answer codec (get_balance account_id) (show_balance account_id)

    unfoldable pub get_transaction_history_handler :
        (Uuid → HistoryQuery → Action S (List TransactionWithEntries)) → Handler S
    unfolding with_path_id or_reply bad_request account_filter limit_of offset_of answer
        show_history
    get_transaction_history_handler get_transaction_history r =
        with_path_id codec "household_id" r λ household_id.
          or_reply codec (account_filter (r.query "account_id")) (bad_request msg_bad_request_body)
            λ account_id.
              let query : HistoryQuery = record {
                account_id = account_id;
                offset = offset_of (r.query "offset");
                limit = limit_of (r.query "limit");
              } in
              answer codec (get_transaction_history household_id query) show_history
