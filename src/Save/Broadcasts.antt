-- ===== src/Save/Broadcasts.antt =====
-- A user's profile: what `save_k_broadcast_to_database` leaves in `k_broadcasts`, and what loses or
-- spares other rows.
use k_indexer.Prelude.{◌≡◌, refl, some, true, false, List, [], ◌∷◌, arith}
use k_indexer.Text.{text_eq, text_eq_refl, text_eq_comm, eq_of_text_eq}
use k_indexer.Store.{Bytes, BroadcastRow, Db}
use k_indexer.Store.Rows.{any, where_rows, delete_rows}
use k_indexer.Store.Statements.{replace_broadcast, same_broadcast_id, is_replaced_by}

-- `SELECT … FROM k_broadcasts WHERE sender_pubkey = $1`, which every read of a profile does.
unfoldable pub broadcasts_of : Bytes → Db → List BroadcastRow
broadcasts_of pubkey db = where_rows (λ b. text_eq b.sender_pubkey pubkey) db.k_broadcasts

kept-sender :
    (r : BroadcastRow) (bs : List BroadcastRow)
    → any (same_broadcast_id r) bs ≡ false
    → where_rows (λ b. text_eq b.sender_pubkey r.sender_pubkey) (delete_rows (is_replaced_by r) bs)
      ≡ []
unfolding where_rows delete_rows
kept-sender r [] h = refl
kept-sender r (b ∷ bs) h =
    ground (arith, kept-sender r bs, text_eq_comm r.transaction_id b.transaction_id)

-- Equal to one key, it differs from another.
text_eq-other : (a b p : Bytes) → text_eq a p ≡ false → text_eq b a ≡ true → text_eq b p ≡ false
text_eq-other a b p h e = let same : b ≡ a = eq_of_text_eq b a e in cc

kept-other :
    (r : BroadcastRow) (p : Bytes) (bs : List BroadcastRow)
    → text_eq r.sender_pubkey p ≡ false
    → where_rows (λ b. text_eq b.sender_pubkey p) (delete_rows (is_replaced_by r) bs)
      ≡ where_rows (λ b. text_eq b.sender_pubkey p) bs
unfolding where_rows delete_rows
kept-other r p [] h = refl
kept-other r p (b ∷ bs) h =
    ground (arith, kept-other r p bs h, text_eq-other r.sender_pubkey b.sender_pubkey p h)

-- A broadcast of a new transaction becomes its sender's only one, whatever its block time and whatever
-- the sender's tables held; the profiles of the other users stay.
pub broadcast-newest :
    (r : BroadcastRow) (db : Db)
    → any (same_broadcast_id r) db.k_broadcasts ≡ false
    → (db' : Db) × (replace_broadcast r db ≡ some db')
      × (broadcasts_of r.sender_pubkey db' ≡ r ∷ [])
      × ((p : Bytes) → text_eq r.sender_pubkey p ≡ false → broadcasts_of p db' ≡ broadcasts_of p db)
unfolding replace_broadcast broadcasts_of where_rows
broadcast-newest r db h =
    let kept = delete_rows (is_replaced_by r) db.k_broadcasts in
    (
      record db { k_broadcasts = r ∷ kept },
      ground arith,
      ground (arith, text_eq_refl r.sender_pubkey, kept-sender r db.k_broadcasts h),
      λ p other. ground (arith, kept-other r p db.k_broadcasts other),
    )
