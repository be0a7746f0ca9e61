-- ===== src/Save/Idempotent.antt =====
-- Processing a transaction again changes nothing.
use k_indexer.Prelude.{◌≡◌, refl, Bool, true, not, Option, some, List, [], ◌∷◌, arith}
use k_indexer.Text.{text_eq_refl, text_eq_comm}
use k_indexer.Store.{BroadcastRow, Db}
use k_indexer.Store.Rows.{any, delete_rows, where_rows, where_rows_idem}
use k_indexer.Store.Statements.{
  insert_content, insert_vote, replace_broadcast, insert_block, delete_block, insert_follow,
  delete_follow, same_broadcast_id, is_replaced_by, is_block_of, is_follow_of,
}
use k_indexer.Save.{Transaction, Libs}
use k_indexer.Save.Process.{process_k_transaction}
use k_indexer.Save.Executes.{
  Executes, skip, fail, inserts_content, inserts_vote, replaces_broadcast, inserts_block,
  deletes_block, inserts_follow, deletes_follow,
}
use k_indexer.Save.Executes.Actions.{process_k_transaction-Executes}

delete_rows_idem {ℓ} :
    {A : Type ℓ} (p : A → Bool) (xs : List A) → delete_rows p (delete_rows p xs) ≡ delete_rows p xs
unfolding delete_rows
delete_rows_idem p xs = where_rows_idem (λ x. not (p x)) xs

-- A row that clashes with the new one by its transaction is not among those that it replaces.
any-same_id :
    (r : BroadcastRow) (bs : List BroadcastRow)
    → any (same_broadcast_id r) bs ≡ true
    → any (same_broadcast_id r) (delete_rows (is_replaced_by r) bs) ≡ true
unfolding delete_rows
any-same_id r [] h = h
any-same_id r (b ∷ bs) h =
    ground (arith, any-same_id r bs, text_eq_comm r.transaction_id b.transaction_id)

-- The new row is kept, and so are the rows that were kept before.
delete-newest :
    (r : BroadcastRow) (bs : List BroadcastRow)
    → delete_rows (is_replaced_by r) (r ∷ delete_rows (is_replaced_by r) bs)
      ≡ r ∷ delete_rows (is_replaced_by r) bs
unfolding delete_rows where_rows
delete-newest r bs = ground (
  arith,
  text_eq_refl r.transaction_id,
  text_eq_refl r.sender_pubkey,
  delete_rows_idem (is_replaced_by r) bs,
)

Executes-idempotent :
    {Key : Type 0} {libs : Libs Key} {f : Db → Option Db}
    → Executes libs f
    → (db db' : Db) → f db ≡ some db'
    → f db' ≡ some db'
unfolding insert_content insert_vote replace_broadcast insert_block delete_block insert_follow
    delete_follow
Executes-idempotent skip db db' h = refl
Executes-idempotent fail db db' h = cc
Executes-idempotent (inserts_content r ms ts _) db db' h =
    ground (arith, text_eq_refl r.sender_signature)
Executes-idempotent (inserts_vote r pubkey _) db db' h =
    ground (arith, text_eq_refl r.sender_signature)
Executes-idempotent (replaces_broadcast r _) db db' h = ground (
  arith,
  delete_rows_idem (is_replaced_by r) db.k_broadcasts,
  any-same_id r db.k_broadcasts,
  text_eq_refl r.transaction_id,
  delete-newest r db.k_broadcasts,
)
Executes-idempotent (inserts_block r _) db db' h =
    ground (arith, text_eq_refl r.sender_pubkey, text_eq_refl r.blocked_user_pubkey)
Executes-idempotent (deletes_block sender blocked) db db' h =
    ground (arith, delete_rows_idem (is_block_of sender blocked) db.k_blocks)
Executes-idempotent (inserts_follow r _) db db' h =
    ground (arith, text_eq_refl r.sender_pubkey, text_eq_refl r.followed_user_pubkey)
Executes-idempotent (deletes_follow sender followed) db db' h =
    ground (arith, delete_rows_idem (is_follow_of sender followed) db.k_follows)

-- Where processing a transaction succeeds, processing it again succeeds and changes nothing.
pub process_idempotent :
    {Key : Type 0} (libs : Libs Key) (t : Transaction) (db db' : Db)
    → process_k_transaction libs t db ≡ some db'
    → process_k_transaction libs t db' ≡ some db'
process_idempotent libs t = Executes-idempotent (process_k_transaction-Executes libs t)
