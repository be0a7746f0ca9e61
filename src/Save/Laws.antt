-- ===== src/Save/Laws.antt =====
-- Whatever a transaction carries, the tables stay consistent.
use k_indexer.Prelude.{◌≡◌, subst, Option, none, some}
use k_indexer.Store.{Db, empty_db}
use k_indexer.Store.Invariant.{IsConsistent, IfSome, refused, holds}
use k_indexer.Store.Keeps.{
  insert_content-IsConsistent, insert_vote-IsConsistent, replace_broadcast-IsConsistent,
  insert_block-IsConsistent, delete_block-IsConsistent, insert_follow-IsConsistent,
  delete_follow-IsConsistent,
}
use k_indexer.Save.{Transaction, Libs}
use k_indexer.Save.Process.{process_k_transaction}
use k_indexer.Save.Executes.{
  Executes, skip, fail, inserts_content, inserts_vote, replaces_broadcast, inserts_block,
  deletes_block, inserts_follow, deletes_follow,
}
use k_indexer.Save.Executes.Actions.{process_k_transaction-Executes}

Executes-IsConsistent :
    {Key : Type 0} {libs : Libs Key} {f : Db → Option Db}
    → Executes libs f
    → (db : Db) → IsConsistent db
    → IfSome IsConsistent (f db)
Executes-IsConsistent skip db i = holds i
Executes-IsConsistent fail db i = refused
Executes-IsConsistent (inserts_content r ms ts _) db i = insert_content-IsConsistent r ms ts db i
Executes-IsConsistent (inserts_vote r pubkey _) db i = insert_vote-IsConsistent r pubkey db i
Executes-IsConsistent (replaces_broadcast r _) db i = replace_broadcast-IsConsistent r db i
Executes-IsConsistent (inserts_block r _) db i = insert_block-IsConsistent r db i
Executes-IsConsistent (deletes_block sender blocked) db i =
    delete_block-IsConsistent sender blocked db i
Executes-IsConsistent (inserts_follow r _) db i = insert_follow-IsConsistent r db i
Executes-IsConsistent (deletes_follow sender followed) db i =
    delete_follow-IsConsistent sender followed db i

pub IfSome-some {ℓ κ} :
    {A : Type ℓ} (P : A → Type κ) (o : Option A) (a : A) → IfSome P o → o ≡ some a → P a
IfSome-some P none a refused e = cc
IfSome-some P (some b) a (holds p) e = let q : b ≡ a = cc in subst P q p

-- Processing a transaction keeps the tables consistent: the unique indexes hold, a user has one
-- broadcast at most, every hashtag names a stored content of its sender and has at most 30 characters, every
-- mention comes from a stored content or vote of the same sender, and every vote is "upvote" or "downvote".
pub process-IsConsistent :
    {Key : Type 0} (libs : Libs Key) (t : Transaction) (db db' : Db)
    → IsConsistent db
    → process_k_transaction libs t db ≡ some db'
    → IsConsistent db'
process-IsConsistent libs t db db' i =
    IfSome-some IsConsistent (process_k_transaction libs t db) db'
      (Executes-IsConsistent (process_k_transaction-Executes libs t) db i)

pub empty_db-IsConsistent : IsConsistent empty_db
empty_db-IsConsistent = record {
  broadcasts = (tt, tt);
  votes = (tt, tt, tt);
  mentions = tt;
  blocks = (tt, tt);
  follows = (tt, tt);
  contents = (tt, tt);
  hashtags = tt;
}
