-- ===== src/Store/Messages.antt =====
-- internal/store/message.go and message_store.go: `MessageStore`.
pub mod History
pub mod Idempotence
pub mod Paging
pub mod Reversal
pub mod Receipts
pub mod Deletion
pub mod Validity
pub mod Invariant
pub mod Keeping
use onyxchat.Base.{
  ℕ, zero, suc, ◌+◌, ◌-◌, String, str_eq, Bool, true, false, ◌&&◌, ◌||◌, Option, none, some, List,
  [], ◌∷◌, ◌++◌, map, reverse, ◌==◌, ltb, if◌then◌else◌, is_null, coalesce, length, take, get_elem?,
  set,
}
use onyxchat.Sql.{select, update, exists_row, query_row, order_by}
use onyxchat.Store.Db.{Db, MessageRow, UserRow}
use onyxchat.Store.Session.{
  M, Session, Statement, Result, ok, err, Error, no_rows, db_error, message_not_found, run, one_row,
  on_error, pure, raise, read_only, ◌>>=◌,
}

pub record Message : Type 0 where
  pub id : ℕ
  pub sender_id : ℕ
  pub recipient_id : ℕ
  pub body : String
  pub iv : String
  pub encrypted : Bool
  pub client_message_id : String
  pub created_at : ℕ
  pub read_at : Option ℕ
  pub deleted_at : Option ℕ

-- A NULL text is scanned as the empty text.
unfoldable pub scan_msg : MessageRow → Message
scan_msg r = record {
  id = r.id;
  sender_id = r.sender_id;
  recipient_id = r.recipient_id;
  body = r.body;
  iv = coalesce r.iv "";
  encrypted = r.encrypted;
  client_message_id = coalesce r.client_message_id "";
  created_at = r.created_at;
  read_at = r.read_at;
  deleted_at = r.deleted_at;
}

-- The columns of display queries: a deleted message shows neither body nor iv.
unfoldable pub select_cols : MessageRow → MessageRow
select_cols r = if is_null r.deleted_at then r else record r { body = ""; iv = some "" }

unfoldable pub display : MessageRow → Message
unfolding scan_msg select_cols
display r = scan_msg (select_cols r)

abbrev pub opt_eq : Option String → String → Bool
opt_eq none s = false
opt_eq (some t) s = str_eq t s

-- WHERE sender_id = $1 AND client_message_id = $2; a NULL is equal to nothing.
unfoldable pub same_key : ℕ → String → MessageRow → Bool
same_key sender client r = r.sender_id == sender && opt_eq r.client_message_id client

abbrev pub user_exists : ℕ → List UserRow → Bool
user_exists uid = exists_row λ u. u.id == uid

abbrev pub new_message : ℕ → Db → ℕ → ℕ → String → String → Bool → String → MessageRow
new_message now db sender recipient body iv encrypted client = record {
  id = db.next_message;
  sender_id = sender;
  recipient_id = recipient;
  body = body;
  iv = some iv;
  encrypted = encrypted;
  client_message_id = some client;
  created_at = now;
  read_at = none;
  deleted_at = none;
}

-- INSERT … ON CONFLICT (sender_id, client_message_id) DO NOTHING RETURNING …: no row comes back
-- on a conflict, and both users must exist.
unfoldable pub insert_message : ℕ → ℕ → String → String → Bool → String → Statement MessageRow
insert_message sender recipient body iv encrypted client now db =
    let row = new_message now db sender recipient body iv encrypted client in
    if exists_row (same_key sender client) db.messages
    then err no_rows
    else if user_exists sender db.users && user_exists recipient db.users
    then ok
        (row, record db { messages = db.messages ++ row ∷ []; next_message = suc db.next_message })
    else err db_error

abbrev fetch_existing : ℕ → String → Statement MessageRow
fetch_existing sender client now db = elim (query_row (same_key sender client) db.messages) [
  | none ↦ err no_rows
  | some r ↦ ok (r, db)
]

abbrev after_insert : ℕ → String → Result MessageRow → M (Message × Bool)
after_insert sender client (ok r) = pure (scan_msg r, true)
after_insert sender client (err no_rows) =
    run (fetch_existing sender client) >>= λ r. pure (scan_msg r, false)
after_insert sender client (err e) = raise e

unfoldable pub create_or_get_existing : ℕ → ℕ → String → String → Bool → String → M (Message × Bool)
unfolding run insert_message
create_or_get_existing sender recipient body iv encrypted client s =
    let (r, s') = run (insert_message sender recipient body iv encrypted client) s in
    after_insert sender client r s'

unfoldable pub get_by_id : ℕ → M Message
unfolding run display query_row
get_by_id mid = run (read_only λ db. one_row (query_row (λ r. r.id == mid) db.messages)) >>= λ r.
    pure (display r)

-- ((sender_id = $1 AND recipient_id = $2) OR (sender_id = $2 AND recipient_id = $1))
unfoldable pub in_conversation : ℕ → ℕ → MessageRow → Bool
in_conversation user peer r =
    (r.sender_id == user && r.recipient_id == peer)
    || (r.sender_id == peer && r.recipient_id == user)

unfoldable pub rows_since : ℕ → ℕ → ℕ → List MessageRow → List MessageRow
unfolding select order_by in_conversation
rows_since user peer since rows =
    order_by (λ r. r.id) (select (λ r. in_conversation user peer r && ltb since r.id) rows)

unfoldable pub rows_before : ℕ → ℕ → ℕ → List MessageRow → List MessageRow
unfolding select order_by in_conversation
rows_before user peer before rows =
    reverse
      (order_by (λ r. r.id) (select (λ r. in_conversation user peer r && ltb r.id before) rows))

-- LIMIT fetch_limit, then at most retain_limit of the rows and whether there were more.
unfoldable pub query_messages :
    (List MessageRow → List MessageRow) → ℕ → ℕ → M (List Message × Bool)
unfolding run display
query_messages query fetch_limit retain_limit = do
  msgs ← run (read_only λ db. ok (map display (take fetch_limit (query db.messages))))
  if ltb retain_limit (length msgs) then pure (take retain_limit msgs, true) else pure (msgs, false)

unfoldable pub list_conversation_since : ℕ → ℕ → ℕ → ℕ → M (List Message × Bool)
unfolding query_messages rows_since
list_conversation_since user peer since limit =
    query_messages (rows_since user peer since) (limit + 1) limit

-- msgs[i], msgs[j] = msgs[j], msgs[i]
abbrev pub swap_elems {ℓ} : {A : Type ℓ} → ℕ → ℕ → List A → List A
swap_elems i j xs = elim (get_elem? xs i) [
  | none ↦ xs
  | some a ↦ elim (get_elem? xs j) [ none ↦ xs | some b ↦ set (set xs i b) j a ]
]

-- for i, j := 0, len(msgs)-1; i < j; i, j = i+1, j-1
unfoldable pub reverse_loop {ℓ} : {A : Type ℓ} → ℕ → ℕ → ℕ → List A → List A
reverse_loop zero i j xs = xs
reverse_loop (suc fuel) i j xs =
    let rest = reverse_loop fuel (i + 1) (j - 1) (swap_elems i j xs) in if ltb i j then rest else xs

unfoldable pub list_conversation_before : ℕ → ℕ → ℕ → ℕ → M (List Message × Bool)
unfolding query_messages rows_before reverse_loop
list_conversation_before user peer before limit = do
  page ← query_messages (rows_before user peer before) (limit + 1) limit
  pure (reverse_loop (length page.0) 0 (length page.0 - 1) page.0, page.1)

unfoldable pub get_unread_for_user : ℕ → ℕ → M (List Message)
unfolding run select order_by display
get_unread_for_user user since = run (
    read_only λ db. ok (
      map display (
        order_by (λ r. r.id)
          (select (λ r. r.recipient_id == user && ltb since r.id && is_null r.deleted_at)
            db.messages))))

unfoldable pub is_unread : ℕ → ℕ → MessageRow → Bool
is_unread recipient sender r =
    r.recipient_id == recipient
    && r.sender_id == sender
    && is_null r.read_at
    && is_null r.deleted_at

unfoldable pub mark_read : ℕ → ℕ → M (List ℕ)
unfolding run select update is_unread
mark_read recipient sender = run λ now db. ok (
  map (λ r. r.id) (select (is_unread recipient sender) db.messages),
  record db {
    messages =
        update (is_unread recipient sender) (λ r. record r { read_at = some now }) db.messages;
  },
)

unfoldable pub deletable : ℕ → ℕ → MessageRow → Bool
deletable mid sender r = r.id == mid && r.sender_id == sender && is_null r.deleted_at

abbrev mark_deleted : ℕ → MessageRow → MessageRow
mark_deleted now r = record r { deleted_at = some now }

abbrev not_found_if_no_rows : Error → Error
not_found_if_no_rows no_rows = message_not_found
not_found_if_no_rows e = e

unfoldable pub soft_delete : ℕ → ℕ → M Message
unfolding run update query_row deletable scan_msg
soft_delete mid sender s =
    let (r, s') =
      run
        (λ now db. elim (query_row (deletable mid sender) db.messages) [
          | none ↦ err no_rows
          | some r ↦ ok (
            scan_msg (mark_deleted now r),
            record db { messages = update (deletable mid sender) (mark_deleted now) db.messages },
          )
        ])
        s in
    (on_error not_found_if_no_rows r, s')
